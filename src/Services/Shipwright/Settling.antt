-- ===== src/Services/Shipwright/Settling.antt =====
-- The end of a build, behind its iterations: the rows that each outcome of them leaves.
use grand_line.Common.{
  ℕ, ◌≡◌, refl, ◌∙◌, ◌==◌, ◌&&◌, not, Bool, true, false, some, List, [], ◌∷◌, ◌++◌, arith, leb,
  keep, if◌then◌else◌, length, Bool-cases, inl, inr,
}
use grand_line.Model.Voyage.{PhaseStatus, built, build_failed, phase_get}
use grand_line.Model.Phases.{phase_get-put}
use grand_line.Model.World.{World, BuildArtifact, run_passed, Event}
use grand_line.Model.Exec.{Result, ok, raise, Exec, ◌>>=◌}
use grand_line.Services.Shipwright.Iteration.{ShipwrightState}
use grand_line.Services.Shipwright.Build.{BuildResult, has_error, is_passed, files_of}
use grand_line.Services.Shipwright.Frames.{ok_by, sound}
use grand_line.Services.Shipwright.Build.{artifact_of, abort_build, conclude_build}
use grand_line.Services.Shipwright.Iteration.{BuildArtifactSpec}
use grand_line.Common.{map, ap}
use grand_line.Model.Exec.{catch}

-- The status of the phase that a result of `build_code` stands for.
abbrev pub phase_outcome : Result BuildResult → PhaseStatus
phase_outcome (ok r) = elim r.status [ run_passed ↦ built | _ ↦ build_failed ]
phase_outcome (raise e) = build_failed

-- `build_phase` behind its iterations.
abbrev pub settle : (Event → Bool) → ℕ → Result ShipwrightState → Exec BuildResult
settle up n r = catch (λ u. (r, u)) (abort_build up n) >>= conclude_build up n

pub settle_status :
    (up : Event → Bool) (n k : ℕ) (r : Result ShipwrightState) (u : World)
    → ok_by (sound 1 2) r ≡ true
    → phase_get k (settle up n r u).1.voyage.phase_status ≡ (
        if n == k
        then some (phase_outcome (settle up n r u).0)
        else phase_get k u.voyage.phase_status)
settle_status up n k (raise e) u h = phase_get-put n k build_failed u.voyage.phase_status
settle_status up n k (ok s) u h = ground (
  arith,
  phase_get-put n k built u.voyage.phase_status,
  phase_get-put n k build_failed u.voyage.phase_status,
)

abbrev pub others : ℕ → List BuildArtifact → List BuildArtifact
others n rows = keep (λ (a : BuildArtifact). not (a.phase_number == n)) rows

abbrev pub is_ok : {A : Type 0} → Result A → Bool
is_ok (ok a) = true
is_ok (raise e) = false

abbrev pub of_phase : ℕ → List BuildArtifact → List BuildArtifact
of_phase n rows = keep (λ (a : BuildArtifact). a.phase_number == n) rows

pub others-replaced :
    (n : ℕ) (rows : List BuildArtifact) (fs : List BuildArtifactSpec)
    → others n (others n rows ++ map (artifact_of n) fs) ≡ others n rows
others-replaced n [] [] = refl
others-replaced n [] (f ∷ fs) = ground (arith, others-replaced n [] fs)
others-replaced n (a ∷ rows) fs = elim (Bool-cases (a.phase_number == n)) [
  | inl e ↦ rw e (others-replaced n rows fs)
  | inr e ↦ rw (e, e) (ap (λ xs. a ∷ xs) (others-replaced n rows fs))
]

pub length-of_phase-replaced :
    (n : ℕ) (rows : List BuildArtifact) (fs : List BuildArtifactSpec)
    → length (of_phase n (others n rows ++ map (artifact_of n) fs))
      ≡ length (map (artifact_of n) fs)
length-of_phase-replaced n [] [] = refl
length-of_phase-replaced n [] (f ∷ fs) = ground (arith, length-of_phase-replaced n [] fs)
length-of_phase-replaced n (a ∷ rows) fs = elim (Bool-cases (a.phase_number == n)) [
  | inl e ↦ rw e (length-of_phase-replaced n rows fs)
  | inr e ↦ rw (e, e) (length-of_phase-replaced n rows fs)
]

pub excluded :
    (s : ShipwrightState)
    → sound 1 2 s ≡ true
    → is_passed s.exit_code ≡ true
    → has_error s.error ≡ true
    → ⊥
excluded s h e f = ground arith

pub others-settle :
    (up : Event → Bool) (n : ℕ) (r : Result ShipwrightState) (u : World)
    → others n (settle up n r u).1.build_artifacts ≡ others n u.build_artifacts
others-settle up n (raise e) u = refl
others-settle up n (ok s) u = elim (Bool-cases (is_passed s.exit_code)) [
  | inl e ↦ rw e (others-replaced n u.build_artifacts (files_of s.generated_files))
  | inr e ↦ rw e refl
]

-- How many artifacts the phase has after a build with this result, when it had `old` before.
abbrev pub artifact_count : ℕ → Result BuildResult → ℕ
artifact_count old (ok r) = elim r.status [ run_passed ↦ r.file_count | _ ↦ old ]
artifact_count old (raise e) = old

pub settle_count :
    (up : Event → Bool) (n : ℕ) (r : Result ShipwrightState) (u : World)
    → ok_by (sound 1 2) r ≡ true
    → length (of_phase n (settle up n r u).1.build_artifacts)
      ≡ artifact_count (length (of_phase n u.build_artifacts)) (settle up n r u).0
settle_count up n (raise e) u h = refl
settle_count up n (ok s) u h = elim (Bool-cases (has_error s.error)) [
  | inl f ↦ elim (Bool-cases (is_passed s.exit_code)) [
    | inl e ↦ absurd (excluded s h e f)
    | inr e ↦ rw (e, f) refl
  ]
  | inr f ↦ elim (Bool-cases (is_passed s.exit_code)) [
    | inl e ↦ rw (e, f) (length-of_phase-replaced n u.build_artifacts (files_of s.generated_files))
    | inr e ↦ rw (e, f) refl
  ]
]

abbrev pub in_range : BuildResult → Bool
in_range b = leb 1 b.iteration_count && leb b.iteration_count 3

pub settle-in_range :
    (up : Event → Bool) (n : ℕ) (r : Result ShipwrightState) (u : World)
    → ok_by (sound 1 2) r ≡ true
    → ok_by in_range (settle up n r u).0 ≡ true
settle-in_range up n (raise e) u h = refl
settle-in_range up n (ok s) u h = ground arith

pub if-chain :
    {A : Type 0} (b : Bool) (a s t y z : A)
    → a ≡ (if b then s else y)
    → y ≡ (if b then t else z)
    → a ≡ (if b then s else z)
if-chain true a s t y z h k = h
if-chain false a s t y z h k = h ∙ k
