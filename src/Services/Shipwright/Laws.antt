-- ===== src/Services/Shipwright/Laws.antt =====
-- What a build leaves in the rows: the phase's status, its artifacts, and the run.
use grand_line.Common.{
  ℕ, ◌≡◌, refl, ◌∙◌, ◌==◌, ◌&&◌, Bool, true, false, String, some, List, arith, if◌then◌else◌,
  length, Bool-cases, inl, inr,
}
use grand_line.Model.Voyage.{phase_get}
use grand_line.Model.Phases.{phase_get-put}
use grand_line.Model.World.{World, Poneglyph, HealthCheck, Event}
use grand_line.Model.Exec.{Result}
use grand_line.Services.Shipwright.Iteration.{Section, Parsed, ExecutionResult}
use grand_line.Services.Shipwright.Build.{is_buildable, all_pytest, build_state}
use grand_line.Services.Shipwright.Rounds.{iterate, build_phase, build_code}
use grand_line.Services.Shipwright.Frames.{ok_by}
use grand_line.Services.Shipwright.Passes.{iterate-Frame, iterate-sound}
use grand_line.Services.Shipwright.Build.{begin_build}
use grand_line.Common.{ap}
use grand_line.Model.Voyage.{in_build}
use grand_line.Services.Shipwright.Settling.{
  phase_outcome, settle, settle_status, others, is_ok, of_phase, others-settle, artifact_count,
  settle_count, in_range, settle-in_range, if-chain,
}

-- Whether `build_code` gets past its two guards.
abbrev pub is_admitted : ℕ → List HealthCheck → World → Bool
is_admitted n hcs w = all_pytest hcs && is_buildable (phase_get n w.voyage.phase_status)

conj_clash : (a b : Bool) → a ≡ true → b ≡ true → (a && b) ≡ false → ⊥
conj_clash a b e f h = ground arith

module _ (route : ℕ → List Section → Result String) (parse_output : String → Parsed)
    (execute : ℕ → List (String × String) → Result ExecutionResult) where
  build_phase_status :
      (up : Event → Bool) (n k : ℕ) (p : Poneglyph) (hcs : List HealthCheck) (w : World)
      → phase_get k (build_phase route parse_output execute up n p hcs w).1.voyage.phase_status ≡ (
          if n == k
          then some (phase_outcome (build_phase route parse_output execute up n p hcs w).0)
          else phase_get k w.voyage.phase_status)
  unfolding build_phase
  build_phase_status up n k p hcs w =
      let s = build_state n p hcs in
      let v = begin_build up n w in
      let (r, u) = iterate route parse_output execute n 2 1 s v in
      let f = iterate-Frame route parse_output execute n 2 1 s v in
      let h = settle_status up n k r u (iterate-sound route parse_output execute n 2 1 s v) in
      if-chain (n == k) (phase_get k (settle up n r u).1.voyage.phase_status)
        (some (phase_outcome (settle up n r u).0)) (some in_build)
        (phase_get k u.voyage.phase_status) (phase_get k w.voyage.phase_status) h
        (ap (λ y. phase_get k y.phase_status) f.0
          ∙ phase_get-put n k in_build w.voyage.phase_status)

  -- A build past its guards leaves its phase BUILT if it returns the status "passed", and FAILED if
  -- it returns another or raises; so no phase stays in BUILDING. The status of every other phase is
  -- as before.
  pub build_code_status :
      (up : Event → Bool) (n k : ℕ) (p : Poneglyph) (hcs : List HealthCheck) (w : World)
      → is_admitted n hcs w ≡ true
      → phase_get k (build_code route parse_output execute up n p hcs w).1.voyage.phase_status ≡ (
          if n == k
          then some (phase_outcome (build_code route parse_output execute up n p hcs w).0)
          else phase_get k w.voyage.phase_status)
  unfolding build_code
  build_code_status up n k p hcs w h = ground (arith, build_phase_status up n k p hcs w)

  build_phase_artifacts :
      (up : Event → Bool) (n : ℕ) (p : Poneglyph) (hcs : List HealthCheck) (w : World)
      → (others n (build_phase route parse_output execute up n p hcs w).1.build_artifacts
          ≡ others n w.build_artifacts)
        × (length
              (of_phase n (build_phase route parse_output execute up n p hcs w).1.build_artifacts)
            ≡ artifact_count
                (length (of_phase n w.build_artifacts))
                (build_phase route parse_output execute up n p hcs w).0)
  unfolding build_phase
  build_phase_artifacts up n p hcs w =
      let s = build_state n p hcs in
      let v = begin_build up n w in
      let (r, u) = iterate route parse_output execute n 2 1 s v in
      let f = iterate-Frame route parse_output execute n 2 1 s v in
      let h = iterate-sound route parse_output execute n 2 1 s v in
      (
        others-settle up n r u ∙ ap (others n) f.1,
        settle_count up n r u h
            ∙ ap (λ x. artifact_count (length (of_phase n x)) (settle up n r u).0) f.1,
      )

  -- A build, refused or not, keeps the artifacts of all other phases as they are. Its own phase has
  -- as many artifacts afterwards as the result says if that is "passed", and as many as before
  -- otherwise.
  pub build_code_artifacts :
      (up : Event → Bool) (n : ℕ) (p : Poneglyph) (hcs : List HealthCheck) (w : World)
      → (others n (build_code route parse_output execute up n p hcs w).1.build_artifacts
          ≡ others n w.build_artifacts)
        × (length
              (of_phase n (build_code route parse_output execute up n p hcs w).1.build_artifacts)
            ≡ artifact_count
                (length (of_phase n w.build_artifacts))
                (build_code route parse_output execute up n p hcs w).0)
  unfolding build_code
  build_code_artifacts up n p hcs w =
      let h = build_phase_artifacts up n p hcs w in
      elim (Bool-cases (all_pytest hcs)) [
        | inl e ↦ elim (Bool-cases (is_buildable (phase_get n w.voyage.phase_status))) [
          | inl f ↦ rw (e, f) h
          | inr f ↦ rw (e, f) (refl, refl)
        ]
        | inr e ↦ rw e (refl, refl)
      ]

  build_phase-in_range :
      (up : Event → Bool) (n : ℕ) (p : Poneglyph) (hcs : List HealthCheck) (w : World)
      → ok_by in_range (build_phase route parse_output execute up n p hcs w).0 ≡ true
  unfolding build_phase
  build_phase-in_range up n p hcs w =
      let s = build_state n p hcs in
      let v = begin_build up n w in
      let (r, u) = iterate route parse_output execute n 2 1 s v in
      settle-in_range up n r u (iterate-sound route parse_output execute n 2 1 s v)

  -- A result that `build_code` returns reports one, two or three iterations.
  pub build_code-in_range :
      (up : Event → Bool) (n : ℕ) (p : Poneglyph) (hcs : List HealthCheck) (w : World)
      → ok_by in_range (build_code route parse_output execute up n p hcs w).0 ≡ true
  unfolding build_code
  build_code-in_range up n p hcs w =
      let h = build_phase-in_range up n p hcs w in
      elim (Bool-cases (all_pytest hcs)) [
        | inl e ↦ elim (Bool-cases (is_buildable (phase_get n w.voyage.phase_status))) [
          | inl f ↦ rw (e, f) h
          | inr f ↦ rw (e, f) refl
        ]
        | inr e ↦ rw e refl
      ]

  -- A build whose health checks are not all for pytest, or whose phase is BUILDING or BUILT, raises
  -- and changes no row.
  pub build_code_refused :
      (up : Event → Bool) (n : ℕ) (p : Poneglyph) (hcs : List HealthCheck) (w : World)
      → is_admitted n hcs w ≡ false
      → ((build_code route parse_output execute up n p hcs w).1 ≡ w)
        × (is_ok (build_code route parse_output execute up n p hcs w).0 ≡ false)
  unfolding build_code
  build_code_refused up n p hcs w h = elim (Bool-cases (all_pytest hcs)) [
    | inl e ↦ elim (Bool-cases (is_buildable (phase_get n w.voyage.phase_status))) [
      | inl f ↦
          absurd
            (conj_clash (all_pytest hcs) (is_buildable (phase_get n w.voyage.phase_status)) e f h)
      | inr f ↦ rw (e, f) (refl, refl)
    ]
    | inr e ↦ rw e (refl, refl)
  ]
