-- ===== src/Pipeline/Guards/Laws.antt =====
-- What each guard admits: exactly the voyages whose artifacts cover every planned phase.
use grand_line.Common.{
  ℕ, ◌≡◌, refl, Bool, true, false, not, ◌&&◌, ◌↔◌, ◌⊎◌, inl, inr, List, [], ◌∷◌, contains, keep,
  arith, contains-keep, all_by, all_by-intro, all_by-contains,
}
use grand_line.Model.Voyage.{Voyage, PhaseMap, phase_get, is_built}
use grand_line.Model.World.{
  Plan, Poneglyph, HealthCheck, BuildArtifact, Code, Exn, pipeline_error, poneglyphs_incomplete,
  health_checks_incomplete, build_incomplete,
}
use grand_line.Model.Exec.{Done, Result, ok, raise}
use grand_line.Plan.Layers.{is_empty}
use grand_line.Plan.Spec.{valid, numbers, validate_plan_graph}
use grand_line.Pipeline.Guards.{
  guard, missing, incomplete, poneglyph_phases, health_check_phases, artifact_phases,
  require_can_enter_tdd, require_can_enter_building, require_can_enter_reviewing,
}

-- A filter that keeps nothing.
keep-empty :
    (p : ℕ → Bool) (xs : List ℕ) (n : ℕ)
    → is_empty (keep (λ k. not (p k)) xs) ≡ true
    → contains n xs ≡ true
    → p n ≡ true
keep-empty p [] n h m = cc
keep-empty p (x ∷ xs) n h m = ground (arith, keep-empty p xs n)

empty-keep :
    (p : ℕ → Bool) (xs : List ℕ)
    → ((n : ℕ) → contains n xs ≡ true → p n ≡ true)
    → is_empty (keep (λ k. not (p k)) xs) ≡ true
empty-keep p [] h = refl
empty-keep p (x ∷ xs) h = ground (arith, h x, empty-keep p xs (λ n m. h n (ground arith)))

ok_raise_ne : {e : Exn} → ◌≡◌ {A = Result Done} (raise e) (ok tt) → ⊥
ok_raise_ne h = cc

false_ne_true : false ≡ true → ⊥
false_ne_true h = cc

both : (w d p f b : Bool) → w ≡ (p && f) → d ≡ (b && p) → (w && d) ≡ true → (f && b) ≡ true
both w d p f b hw hd h = ground arith

-- Every planned phase is among those that were found.
abbrev pub Covered : List ℕ → List ℕ → Type 0
Covered planned found = all_by (λ n. contains n found) planned ≡ true

missing_iff :
    (planned found : List ℕ) → (is_empty (missing planned found) ≡ true) ↔ Covered planned found
missing_iff planned found =
    let covered = keep (λ n. contains n planned) found in
    (
      λ h.
          all_by-intro (λ n. contains n found) planned
            (λ n m. ground (
              arith,
              keep-empty (λ k. contains k covered) planned n h m,
              contains-keep (λ k. contains k planned) n found,
            )),
      λ h.
          empty-keep (λ k. contains k covered) planned
            (λ n m. ground (
              arith,
              all_by-contains (λ k. contains k found) planned n h m,
              contains-keep (λ k. contains k planned) n found,
            )),
    )

-- Every planned phase is BUILT and has an artifact.
abbrev pub AllBuilt : List ℕ → List ℕ → PhaseMap → Type 0
AllBuilt planned found statuses =
    all_by (λ n. contains n found && is_built (phase_get n statuses)) planned ≡ true

incomplete_iff :
    (planned found : List ℕ) (statuses : PhaseMap)
    → (is_empty (incomplete planned found statuses) ≡ true) ↔ AllBuilt planned found statuses
incomplete_iff planned found statuses =
    let with_artifact = keep (λ n. contains n planned) found in
    let done = keep (λ n. is_built (phase_get n statuses)) planned in
    let found_in = λ (n : ℕ). contains-keep (λ k. contains k planned) n found in
    let done_in = λ (n : ℕ). contains-keep (λ k. is_built (phase_get k statuses)) n planned in
    (
      λ h.
          all_by-intro (λ n. contains n found && is_built (phase_get n statuses)) planned
            (λ n m.
              both (contains n with_artifact) (contains n done) (contains n planned)
                (contains n found) (is_built (phase_get n statuses)) (found_in n) (done_in n)
                (keep-empty (λ k. contains k with_artifact && contains k done) planned n h m)),
      λ h.
          empty-keep (λ k. contains k with_artifact && contains k done) planned
            (λ n m. ground (
              arith,
              all_by-contains (λ k. contains k found && is_built (phase_get k statuses)) planned n h
                  m,
              found_in n,
              done_in n,
            )),
    )

-- A guard that tests: it passes exactly under its test, and raises its own code otherwise.
abbrev pub Decides : Result Done → Code → Type 0 → Type 0
Decides r c P = ((r ≡ ok tt) ↔ P) × ((r ≡ ok tt) ⊎ (r ≡ raise (pipeline_error c)))

guard-Decides : (b : Bool) (c : Code) (P : Type 0) → (b ≡ true) ↔ P → Decides (guard b c) c P
guard-Decides true c P h = ((λ _. h.0 refl, λ _. refl), inl refl)
guard-Decides false c P h =
    ((λ e. absurd (ok_raise_ne e), λ p. absurd (false_ne_true (h.1 p))), inr refl)

module _ (plan : Plan) (planned : validate_plan_graph plan.phases ≡ valid) where
  -- For a valid plan TDD may be entered exactly when each planned phase has a poneglyph; otherwise
  -- PONEGLYPHS_INCOMPLETE is raised.
  pub require_can_enter_tdd_iff :
      (poneglyphs : List Poneglyph)
      → Decides
          (require_can_enter_tdd plan poneglyphs)
          poneglyphs_incomplete
          (Covered (numbers plan.phases) (poneglyph_phases poneglyphs))
  unfolding require_can_enter_tdd
  require_can_enter_tdd_iff poneglyphs = rw planned (
      guard-Decides (is_empty (missing (numbers plan.phases) (poneglyph_phases poneglyphs)))
        poneglyphs_incomplete (Covered (numbers plan.phases) (poneglyph_phases poneglyphs))
        (missing_iff (numbers plan.phases) (poneglyph_phases poneglyphs)))

  -- For a valid plan BUILDING may be entered exactly when each planned phase has a health check;
  -- otherwise HEALTH_CHECKS_INCOMPLETE is raised.
  pub require_can_enter_building_iff :
      (checks : List HealthCheck)
      → Decides
          (require_can_enter_building plan checks)
          health_checks_incomplete
          (Covered (numbers plan.phases) (health_check_phases checks))
  unfolding require_can_enter_building
  require_can_enter_building_iff checks = rw planned (
      guard-Decides (is_empty (missing (numbers plan.phases) (health_check_phases checks)))
        health_checks_incomplete (Covered (numbers plan.phases) (health_check_phases checks))
        (missing_iff (numbers plan.phases) (health_check_phases checks)))

  -- For a valid plan REVIEWING may be entered exactly when each planned phase is BUILT and has an
  -- artifact; otherwise BUILD_INCOMPLETE is raised.
  pub require_can_enter_reviewing_iff :
      (voyage : Voyage) (artifacts : List BuildArtifact)
      → Decides
          (require_can_enter_reviewing voyage plan artifacts)
          build_incomplete
          (AllBuilt (numbers plan.phases) (artifact_phases artifacts) voyage.phase_status)
  unfolding require_can_enter_reviewing
  require_can_enter_reviewing_iff voyage artifacts = rw planned (
      guard-Decides
        (is_empty
          (incomplete (numbers plan.phases) (artifact_phases artifacts) voyage.phase_status))
        build_incomplete
        (AllBuilt (numbers plan.phases) (artifact_phases artifacts) voyage.phase_status)
        (incomplete_iff (numbers plan.phases) (artifact_phases artifacts) voyage.phase_status))
