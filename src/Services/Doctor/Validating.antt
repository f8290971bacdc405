-- ===== src/Services/Doctor/Validating.antt =====
-- services/doctor_service.py: `validate_code`, which runs all health checks over the built files.
use grand_line.Common.{
  ℕ, String, Bool, some, List, [], ◌∷◌, ◌++◌, map, leb, if◌then◌else◌, length, Text, last_n,
}
use grand_line.Model.Voyage
use grand_line.Model.World.{
  World, HealthCheck, ValidationRun, no_health_checks, doctor_error, CrewAction, Event, set_status,
  add_action, publish,
}
use grand_line.Model.Exec.{Result, ok, raise, Exec}
use grand_line.Services.Publishing.{give_up}
use grand_line.Services.Shipwright.Iteration.{ExecutionResult, is_zero, put_checks}
use grand_line.Services.Doctor.Counting.{parse_summary}

-- `ValidationResultResponse`; the status is "passed" or "failed".
pub record ValidationResult : Type 0 where
  pub passed : Bool
  pub passed_count : ℕ
  pub failed_count : ℕ
  pub total_count : ℕ
  pub summary : Text

-- `ORDER BY phase_number`
abbrev pub insert_by_phase : HealthCheck → List HealthCheck → List HealthCheck
insert_by_phase h [] = h ∷ []
insert_by_phase h (k ∷ ks) =
    let rest = insert_by_phase h ks in
    if leb h.phase_number k.phase_number then h ∷ k ∷ ks else k ∷ rest

abbrev pub by_phase : List HealthCheck → List HealthCheck
by_phase [] = []
by_phase (h ∷ hs) = insert_by_phase h (by_phase hs)

-- `execute` runs the tests in the sandbox on the files; `id` and `now` are those of a new row.
module _ (up : Event → Bool) (execute : List (String × String) → Result ExecutionResult)
    (id now : ℕ) where
  unfoldable pub run_row : ℕ → ExecutionResult → ValidationRun
  unfolding parse_summary
  run_row total r =
      let passed = is_zero r.exit_code in
      let counts = parse_summary r.stdout passed total in
      record {
        id = id;
        passed = passed;
        exit_code = r.exit_code;
        passed_count = counts.0;
        failed_count = counts.1;
        total_count = total;
        output = last_n 4000 r.stdout;
        created_at = now;
      }

  abbrev pub mark_check : ValidationRun → HealthCheck → HealthCheck
  mark_check run h = record h {
    last_run_passed = some run.passed;
    last_validation_run_id = some run.id;
  }

  abbrev pub validation_action : ValidationRun → CrewAction
  validation_action run =
      if run.passed
      then CrewAction.validation_passed run.id run.passed_count run.total_count
      else CrewAction.validation_failed run.id run.exit_code run.failed_count

  abbrev pub validation_event : ValidationRun → Event
  validation_event run =
      if run.passed
      then Event.validation_passed run.passed_count run.failed_count run.total_count
      else Event.validation_failed run.passed_count run.failed_count run.total_count

  abbrev pub record_run : ValidationRun → World → World
  record_run run w =
      let a = validation_action run in
      let added = record w {
        validation_runs = w.validation_runs ++ run ∷ [];
        health_checks = map (mark_check run) w.health_checks;
      } in
      publish up (Event.crew_action_recorded a)
        (publish up (validation_event run) (set_status Voyage.charted (add_action a added)))

  abbrev pub validation_result : ValidationRun → ValidationResult
  validation_result run = record {
    passed = run.passed;
    passed_count = run.passed_count;
    failed_count = run.failed_count;
    total_count = run.total_count;
    summary = last_n 500 run.output;
  }

  -- An exception of the sandbox is not caught: the voyage stays in REVIEWING.
  unfoldable pub finish_run : ℕ → Result ExecutionResult → Exec ValidationResult
  unfolding run_row
  finish_run total (raise e) w = (raise e, w)
  finish_run total (ok r) w =
      (ok (validation_result (run_row total r)), record_run (run_row total r) w)

  unfoldable pub validate_checks : List HealthCheck → List (String × String) → Exec ValidationResult
  unfolding finish_run
  validate_checks [] files w = give_up (doctor_error no_health_checks) w
  validate_checks (h ∷ hs) files w =
      finish_run (length (h ∷ hs)) (execute (put_checks (h ∷ hs) files)) w

  unfoldable pub validate_code : List (String × String) → Exec ValidationResult
  unfolding validate_checks
  validate_code files w =
      validate_checks (by_phase w.health_checks) files (set_status Voyage.reviewing w)
