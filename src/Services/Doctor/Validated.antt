-- ===== src/Services/Doctor/Validated.antt =====
-- What a validation leaves behind: a run that the guard of DEPLOYING reads, and marked health checks.
use grand_line.Common.{
  ℕ, ◌≡◌, refl, String, Bool, true, some, List, [], ◌∷◌, ◌++◌, map, all_by, latest, best, ltb,
  length, ap, Bool-cases, inl, inr, &&-left, &&-right,
}
use grand_line.Model.Voyage
use grand_line.Model.World.{
  World, HealthCheck, ValidationRun, Event, status_of, load_latest_validation, set_status,
  validation_not_passed,
}
use grand_line.Model.Exec.{Result, ok, raise}
use grand_line.Pipeline.Guards.{guard, require_can_enter_deploying}
use grand_line.Services.Shipwright.Iteration.{ExecutionResult, put_checks}
use grand_line.Services.Doctor.Validating.{
  ValidationResult, by_phase, run_row, mark_check, finish_run, validate_checks, validate_code,
}

-- A later row behind the others is the newest.
best-newest :
    {A : Type 0} (key : A → ℕ) (x y : A) (ys : List A)
    → ltb (key x) (key y) ≡ true
    → all_by (λ z. ltb (key z) (key y)) ys ≡ true
    → best key x (ys ++ y ∷ []) ≡ y
best-newest key x y [] h k = rw h refl
best-newest key x y (z ∷ zs) h k = elim (Bool-cases (ltb (key x) (key z))) [
  | inl e ↦
      rw (e, best)
        (best-newest key z y zs
          (&&-left (ltb (key z) (key y)) (all_by (λ u. ltb (key u) (key y)) zs) k)
          (&&-right (ltb (key z) (key y)) (all_by (λ u. ltb (key u) (key y)) zs) k))
  | inr e ↦
      rw (e, best)
        (best-newest key x y zs h
          (&&-right (ltb (key z) (key y)) (all_by (λ u. ltb (key u) (key y)) zs) k))
]

latest-newest :
    {A : Type 0} (key : A → ℕ) (y : A) (ys : List A)
    → all_by (λ z. ltb (key z) (key y)) ys ≡ true
    → latest key (ys ++ y ∷ []) ≡ some y
latest-newest key y [] k = refl
latest-newest key y (z ∷ zs) k = ap some (
    best-newest key z y zs (&&-left (ltb (key z) (key y)) (all_by (λ u. ltb (key u) (key y)) zs) k)
      (&&-right (ltb (key z) (key y)) (all_by (λ u. ltb (key u) (key y)) zs) k))

-- What a validation promises: the guard of DEPLOYING says what its result says, every health check
-- has that result, and the voyage is CHARTED; or with an error no run and no mark.
abbrev pub Validated : World → Result ValidationResult × World → Type 0
Validated w (ok r, w') =
    (require_can_enter_deploying (load_latest_validation w') ≡ guard r.passed validation_not_passed)
    × (map (λ (h : HealthCheck). h.last_run_passed) w'.health_checks
        ≡ map (λ (h : HealthCheck). some r.passed) w.health_checks)
    × (status_of w' ≡ Voyage.charted)
Validated w (raise e, w') =
    (w'.validation_runs ≡ w.validation_runs) × (w'.health_checks ≡ w.health_checks)

-- The runs of the voyage are from before.
abbrev pub before : ℕ → World → Bool
before now w = all_by (λ (v : ValidationRun). ltb v.created_at now) w.validation_runs

module _ (up : Event → Bool) (execute : List (String × String) → Result ExecutionResult)
    (id now : ℕ) where
  marks :
      (run : ValidationRun) (hs : List HealthCheck)
      → map (λ (h : HealthCheck). h.last_run_passed) (map (mark_check up execute id now run) hs)
        ≡ map (λ (h : HealthCheck). some run.passed) hs
  marks run [] = refl
  marks run (h ∷ hs) = ap (λ bs. some run.passed ∷ bs) (marks run hs)

  finish_run-Validated :
      (total : ℕ) (r : Result ExecutionResult) (w : World)
      → before now w ≡ true
      → Validated w (finish_run up execute id now total r w)
  unfolding finish_run run_row require_can_enter_deploying
  finish_run-Validated total (raise e) w b = (refl, refl)
  finish_run-Validated total (ok r) w b =
      let run = run_row up execute id now total r in
      (
        rw (latest-newest (λ (v : ValidationRun). v.created_at) run w.validation_runs b) refl,
        marks run w.health_checks,
        refl,
      )

  validate_checks-Validated :
      (hs : List HealthCheck) (files : List (String × String)) (w : World)
      → before now w ≡ true
      → Validated w (validate_checks up execute id now hs files w)
  unfolding validate_checks
  validate_checks-Validated [] files w b = (refl, refl)
  validate_checks-Validated (h ∷ hs) files w b =
      finish_run-Validated (length (h ∷ hs)) (execute (put_checks (h ∷ hs) files)) w b

  -- When all validation runs of the voyage are from before `now`, then after a `validate_code` that
  -- returns, the guard of DEPLOYING passes exactly if the returned result is "passed", every health
  -- check of the voyage has that result, and the voyage is CHARTED. After one that raises the
  -- validation runs and the health checks are as they were.
  pub validate_code-Validated :
      (files : List (String × String)) (w : World)
      → before now w ≡ true
      → Validated w (validate_code up execute id now files w)
  unfolding validate_code
  validate_code-Validated files w b =
      validate_checks-Validated (by_phase w.health_checks) files (set_status Voyage.reviewing w) b
