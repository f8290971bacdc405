-- ===== src/Services/Shipwright/Build.antt =====
-- services/shipwright_service.py: `build_code` and its helpers. Database calls and the reading of
-- the poneglyph's JSON are taken to succeed; the best-effort commit to git is left out.
use grand_line.Common.{
  Text, last_n, ℕ, ℤ, Bool, true, false, not, Option, none, some, List, [], ◌∷◌, ◌++◌, ◌==◌, str_eq,
  if◌then◌else◌, length, map, keep, all_by,
}
use grand_line.Model.Voyage.{PhaseStatus, pending, in_build, built, build_failed, phase_put}
use grand_line.Model.World.{
  World, Poneglyph, HealthCheck, BuildArtifact, building, Reason, RunStatus, run_passed, run_failed,
  run_max_iterations, ShipwrightRun, Code, build_parse_failed, max_iterations, build_internal, Exn,
  shipwright_error, CrewAction, Event, add_card, add_action, publish,
}
use grand_line.Model.Exec.{ok, raise, Exec}
use grand_line.Services.Interventions.{Drained}
use grand_line.Services.Shipwright.Iteration.{BuildArtifactSpec, ShipwrightState, is_zero}

-- `BuildResultResponse`
pub record BuildResult : Type 0 where
  pub status : RunStatus
  pub iteration_count : ℕ
  pub passed_count : ℕ
  pub failed_count : ℕ
  pub total_count : ℕ
  pub file_count : ℕ
  pub summary : Text

-- `current_phase_status in _PHASE_BUILDABLE`, where a phase without a status is PENDING.
abbrev pub is_buildable : Option PhaseStatus → Bool
is_buildable none = true
is_buildable (some pending) = true
is_buildable (some build_failed) = true
is_buildable (some _) = false

abbrev pub all_pytest : List HealthCheck → Bool
all_pytest hcs = all_by (λ (hc : HealthCheck). str_eq hc.framework "pytest") hcs

-- `_set_phase_status`
abbrev pub set_phase_status : ℕ → PhaseStatus → World → World
set_phase_status n s w = record w {
  voyage = record w.voyage { phase_status = phase_put n s w.voyage.phase_status };
}

-- `if state.get("error")`: an empty text is no error.
abbrev pub has_error : Option Text → Bool
has_error (some (x ∷ xs)) = true
has_error _ = false

-- `state.get("exit_code") == 0`
abbrev pub is_passed : Option ℤ → Bool
is_passed none = false
is_passed (some c) = is_zero c

abbrev pub files_of : Option (List BuildArtifactSpec) → List BuildArtifactSpec
files_of none = []
files_of (some fs) = fs

abbrev pub text_of : Option Text → Text
text_of none = []
text_of (some e) = e

-- "Previous JSON parse failed: "
abbrev pub parse_failed_prefix : Text
parse_failed_prefix =
    80 ∷ 114 ∷ 101 ∷ 118 ∷ 105 ∷ 111 ∷ 117 ∷ 115 ∷ 32 ∷ 74 ∷ 83 ∷ 79 ∷ 78 ∷ 32 ∷ 112 ∷ 97 ∷ 114
    ∷ 115 ∷ 101 ∷ 32 ∷ 102 ∷ 97 ∷ 105 ∷ 108 ∷ 101 ∷ 100 ∷ 58 ∷ 32 ∷ []

-- `_checkpoint_iteration`
abbrev pub checkpoint_iteration : ShipwrightState → World → World
checkpoint_iteration s w =
    add_card building
      (Reason.iteration s.phase_number s.iteration s.exit_code
        (length (files_of s.generated_files)))
      w

-- The state for iteration `i`, with the interventions that have come in since.
abbrev pub begin_iteration : ℕ → Drained → ShipwrightState → ShipwrightState
begin_iteration i d s = record s {
  iteration = i;
  injected_context = s.injected_context ++ d.injected_context;
  redirect_instruction = elim d.redirect_instruction [
    | none ↦ s.redirect_instruction
    | some r ↦ some r
  ];
}

abbrev pub status_of_run : ShipwrightState → RunStatus
status_of_run s =
    if is_passed s.exit_code
    then run_passed
    else (if has_error s.error then run_failed else run_max_iterations)

abbrev pub first_nonempty : Text → Text → Text
first_nonempty [] e = e
first_nonempty (x ∷ xs) e = x ∷ xs

abbrev pub output_of : ShipwrightState → Text
output_of s =
    first_nonempty (last_n 4000 s.stdout) (if has_error s.error then text_of s.error else [])

abbrev pub run_of : ℕ → ShipwrightState → ShipwrightRun
run_of n s = record {
  phase_number = n;
  status = status_of_run s;
  iteration_count = s.iteration;
  exit_code = s.exit_code;
  passed_count = s.passed_count;
  failed_count = s.failed_count;
  total_count = s.total_count;
  output = output_of s;
}

abbrev pub artifact_of : ℕ → BuildArtifactSpec → BuildArtifact
artifact_of n f = record {
  phase_number = n;
  file_path = f.file_path;
  content = f.content;
  language = f.language;
}

abbrev pub artifacts_of : ℕ → ShipwrightState → List BuildArtifact
artifacts_of n s =
    if is_passed s.exit_code then map (artifact_of n) (files_of s.generated_files) else []

-- The artifacts of a phase that has passed are deleted and written anew.
abbrev pub replace_artifacts : ℕ → ShipwrightState → World → World
replace_artifacts n s w = record w {
  build_artifacts =
      if is_passed s.exit_code
      then keep (λ (a : BuildArtifact). not (a.phase_number == n)) w.build_artifacts
        ++ artifacts_of n s
      else w.build_artifacts;
}

abbrev pub failure_code : ShipwrightState → Code
failure_code s = if has_error s.error then build_parse_failed else max_iterations

abbrev pub completion_action : ℕ → ShipwrightState → CrewAction
completion_action n s =
    if is_passed s.exit_code
    then CrewAction.phase_build_completed n s.iteration
    else CrewAction.phase_build_failed n (failure_code s)

abbrev pub build_state : ℕ → Poneglyph → List HealthCheck → ShipwrightState
build_state n p hcs = record {
  phase_number = n;
  poneglyph = p.content;
  health_checks = hcs;
  iteration = 1;
  last_test_output = none;
  injected_context = [];
  redirect_instruction = none;
  generated_files = none;
  exit_code = none;
  stdout = [];
  passed_count = 0;
  failed_count = 0;
  total_count = 0;
  error = none;
}

module _ (up : Event → Bool) where
  -- `_publish_success_events`: one handler for both, so the second waits for the first.
  abbrev pub publish_success_events : ℕ → ShipwrightState → World → World
  publish_success_events n s w =
      let first = Event.code_generated n (length (artifacts_of n s)) in
      record w {
        events =
            if up first
            then (publish up (Event.tests_passed n s.passed_count) (publish up first w)).events
            else w.events;
      }

  abbrev pub publish_outcome : ℕ → ShipwrightState → World → World
  publish_outcome n s w = record w {
    events =
        if is_passed s.exit_code
        then (publish_success_events n s w).events
        else (publish up (Event.phase_build_failed n (failure_code s)) w).events;
  }

  -- From the start to the first iteration.
  abbrev pub begin_build : ℕ → World → World
  begin_build n w =
      let a = CrewAction.phase_build_started n in
      publish up (Event.crew_action_recorded a)
        (publish up (Event.phase_build_started n) (add_action a (set_phase_status n in_build w)))

  -- The handler of an exception that ends the iterations.
  abbrev pub abort_build : {A : Type 0} → ℕ → Exn → Exec A
  abort_build n e w =
      let a = CrewAction.phase_build_failed n build_internal in
      (
        raise e,
        publish up (Event.crew_action_recorded a) (
            publish up (Event.phase_build_failed n build_internal)
              (add_action a (set_phase_status n build_failed w))),
      )

  -- The rows that are written after the last iteration, and the events about them.
  abbrev pub finish_build : ℕ → ShipwrightState → World → World
  finish_build n s w =
      let recorded = record w { shipwright_runs = w.shipwright_runs ++ run_of n s ∷ [] } in
      let carded =
        add_card building
          (Reason.build_complete n s.iteration (status_of_run s) (length (artifacts_of n s)))
          (replace_artifacts n s recorded) in
      let done =
        set_phase_status n (if is_passed s.exit_code then built else build_failed) carded in
      let a = completion_action n s in
      publish up (Event.crew_action_recorded a) (publish_outcome n s (add_action a done))

  abbrev pub build_response : ℕ → ShipwrightState → BuildResult
  build_response n s = record {
    status = status_of_run s;
    iteration_count = s.iteration;
    passed_count = s.passed_count;
    failed_count = s.failed_count;
    total_count = s.total_count;
    file_count = length (artifacts_of n s);
    summary = last_n 500 (output_of s);
  }

  abbrev pub conclude_build : ℕ → ShipwrightState → Exec BuildResult
  conclude_build n s w = (
    if has_error s.error
        then raise (shipwright_error build_parse_failed)
        else ok (build_response n s),
    finish_build n s w,
  )
