-- ===== src/Services/Examples.antt =====
-- Concrete runs of the planning, testing and validating services, and the theorems at them.
use grand_line.Common.{
  ℕ, pos, String, ◌≡◌, refl, true, false, none, some, List, [], ◌∷◌, codes, Text, length, ◌==◌, ◌+◌,
  Option,
}
use grand_line.Dial.Value.{Value, arr, nil, dict, end}
use grand_line.Model.Voyage
use grand_line.Model.Voyage.{PhaseSpec}
use grand_line.Model.World.{
  World, Poneglyph, preview, Stage, planning, pdd, tdd, building, reviewing, load_latest_validation,
  status_of,
}
use grand_line.Model.Exec.{Result, ok, raise, Done}
use grand_line.Model.Exec
use grand_line.Model.Samples.{built_voyage, passed_validation, two_phases, plan, poneglyph, all_up}
use grand_line.Plan.Spec.{valid, validate_plan_graph}
use grand_line.Pipeline.Guards.{
  require_can_enter_planning, require_can_enter_pdd, require_can_enter_tdd,
  require_can_enter_building, require_can_enter_reviewing, require_can_enter_deploying,
}
use grand_line.Pipeline.Stages.{PipelineState, Crew}
use grand_line.Pipeline.Graph.Resume.{resumed_state}
use grand_line.Pipeline.Graph.{route_after_stage, run_stages, stages, initial_state}
use grand_line.Pipeline.Graph.Validated.{run_stages-validated}
use grand_line.Services.Shipwright.Iteration.{ExecutionResult}
use grand_line.Services.Shipwright.Frames.{ok_by}
use grand_line.Services.LogBook.{LogBookEntry, render_context}
use grand_line.Services.Captain.{planning_task, chart_course}
use grand_line.Services.Captain.Laws.{Charted, chart_course-Charted}
use grand_line.Services.Navigator.{PoneglyphContentSpec, draft_poneglyphs}
use grand_line.Services.Navigator.Laws.{Drafted, draft_poneglyphs-Drafted}
use grand_line.Services.Paths.{split_slash, validate_relative_path}
use grand_line.Services.Paths.Laws.{stays_below, validate_relative_path-stays_below}
use grand_line.Services.Doctor.Counting.{parse_summary}
use grand_line.Services.Doctor.Input.{GraphInput}
use grand_line.Services.Doctor.Writing.{HealthCheckSpec, write_health_checks}
use grand_line.Services.Doctor.Laws.{Written, write_health_checks-Written}
use grand_line.Services.Doctor.Validating.{validate_code}
use grand_line.Services.Doctor.Validated.{Validated, validate_code-Validated}
use grand_line.Services.Helmsman.Records.{completed, BackendAnswer, returned, DeploymentArtifact}
use grand_line.Services.Helmsman.Deploying.{deploy}
use grand_line.Services.Helmsman.Contract.{deploy_id, helmsman-CrewLaws}

abbrev log_book : List LogBookEntry
log_book =
    record {
      repo = "grand";
      author = "doctor";
      kind = "stack";
      content = "uses uv";
      created_at = 1;
    }
    ∷ record {
      repo = "other";
      author = "doctor";
      kind = "stack";
      content = "uses npm";
      created_at = 2;
    }
    ∷ record {
      repo = "grand";
      author = "doctor";
      kind = "summary";
      content = "sailed";
      created_at = 3;
    }
    ∷ []

abbrev recalled : String → Result String
unfolding render_context
recalled repo = ok (render_context repo 20 log_book)

planning_task_run :
    planning_task recalled (some "grand") "go"
    ≡ "## Log Book — prior knowledge for grand\n\n- (summary) sailed\n- (stack) uses uv\n\n---\n\ngo"
unfolding recalled render_context
planning_task_run = refl

abbrev logged_voyage : World
logged_voyage = record built_voyage {
  voyage = record built_voyage.voyage { target_repo = some "grand" };
}

abbrev answer : String → Result String
answer task = ok "[]"

abbrev read_plan : String → Option (List PhaseSpec)
read_plan raw = some two_phases

chart_course_run :
    ok_by
      (λ p. p.version == 2)
      (chart_course all_up recalled answer read_plan 3 "go" logged_voyage).0
    ≡ true
unfolding chart_course validate_plan_graph
chart_course_run = refl

chart_course-Charted_example :
    Charted logged_voyage (chart_course all_up recalled answer read_plan 3 "go" logged_voyage)
chart_course-Charted_example =
    chart_course-Charted all_up recalled answer read_plan 3 "go" logged_voyage

abbrev content_spec : ℕ → PoneglyphContentSpec
content_spec n = record {
  phase_number = n;
  title = "Hull";
  task_description = "Build the hull";
  technical_constraints = [];
  expected_inputs = [];
  expected_outputs = [];
  test_criteria = "floats" ∷ [];
  file_paths = [];
  implementation_notes = "";
}

abbrev answer_phases : List PhaseSpec → Result String
answer_phases phases = ok "[]"

abbrev read_contents : String → Option (List PoneglyphContentSpec)
read_contents raw = some (content_spec 2 ∷ content_spec 1 ∷ [])

abbrev dump : PoneglyphContentSpec → String
dump s = s.title

abbrev number_rows : ℕ → ℕ
number_rows i = 40 + i

draft_poneglyphs_run :
    ok_by
      (λ ps. length ps == 2)
      (draft_poneglyphs all_up answer_phases read_contents dump number_rows plan built_voyage).0
    ≡ true
unfolding draft_poneglyphs
draft_poneglyphs_run = refl

plan_valid : validate_plan_graph plan.phases ≡ valid
unfolding validate_plan_graph
plan_valid = refl

draft_poneglyphs-Drafted_example :
    Drafted plan built_voyage
      (draft_poneglyphs all_up answer_phases read_contents dump number_rows plan built_voyage)
draft_poneglyphs-Drafted_example =
    draft_poneglyphs-Drafted all_up answer_phases read_contents dump number_rows plan built_voyage
      plan_valid

abbrev winding_path : Text
winding_path = codes "tests/../src//./test_it.py"

validate_relative_path_run : validate_relative_path (codes "tests/../../etc") ≡ false
unfolding validate_relative_path
validate_relative_path_run = refl

validate_relative_path-stays_below_example : stays_below 0 (split_slash winding_path) ≡ true
unfolding validate_relative_path
validate_relative_path-stays_below_example = validate_relative_path-stays_below winding_path refl

abbrev check_spec : ℕ → String → HealthCheckSpec
check_spec n path = record {
  phase_number = n;
  file_path = path;
  content = "assert True";
  framework = "pytest";
}

abbrev answer_poneglyphs : List GraphInput → Result String
answer_poneglyphs ps = ok "[]"

abbrev read_object : String → Option Value
read_object raw = some (dict end)

abbrev read_array : String → Option Value
read_array raw = some (arr nil)

abbrev read_checks : String → Option (List HealthCheckSpec)
read_checks raw = some (check_spec 1 "tests/test_a.py" ∷ check_spec 2 "tests/../test_b.py" ∷ [])

abbrev two_poneglyphs : List Poneglyph
two_poneglyphs = poneglyph 1 ∷ poneglyph 2 ∷ []

write_health_checks_run :
    ok_by
      (λ hs. length hs == 2)
      (write_health_checks all_up answer_poneglyphs read_checks number_rows read_object
        two_poneglyphs built_voyage).0
    ≡ true
unfolding write_health_checks
write_health_checks_run = refl

write_health_checks-Written_example : Written read_object two_poneglyphs built_voyage (
    write_health_checks all_up answer_poneglyphs read_checks number_rows read_object two_poneglyphs
      built_voyage)
write_health_checks-Written_example =
    write_health_checks-Written all_up answer_poneglyphs read_checks number_rows read_object
      two_poneglyphs built_voyage

-- A poneglyph whose content is an array leaves the voyage in TDD.
stranded_run :
    status_of
      (write_health_checks all_up answer_poneglyphs read_checks number_rows read_array
        two_poneglyphs built_voyage).1
    ≡ Voyage.tdd
unfolding write_health_checks
stranded_run = refl

parse_summary_run : parse_summary (codes "== 3 passed, 12 failed in 0.5s ==") false 15 ≡ (3, 12)
unfolding parse_summary
parse_summary_run = refl

abbrev one_failure : List (String × String) → Result ExecutionResult
one_failure files = ok (record { exit_code = pos 1; stdout = codes "1 failed, 1 passed in 0.1s" })

validate_code_run :
    ok_by
      (λ r. (r.failed_count + r.passed_count + r.total_count) == 4)
      (validate_code all_up one_failure 6 12 [] built_voyage).0
    ≡ true
unfolding validate_code
validate_code_run = refl

validate_code-Validated_example :
    Validated built_voyage (validate_code all_up one_failure 6 12 [] built_voyage)
validate_code-Validated_example =
    validate_code-Validated all_up one_failure 6 12 [] built_voyage refl

abbrev take_any : DeploymentArtifact → BackendAnswer
take_any a =
    returned (record { status = completed; url = some "url"; backend_log = []; error = none })

-- A crew that only deploys, with the Helmsman of the model.
abbrev deployer : Crew
deployer = record {
  chart_course = λ task. Exec.pure plan;
  draft_poneglyphs = λ p. Exec.pure [];
  write_health_checks = λ ps. Exec.pure [];
  build_code = λ n p hcs. Exec.pure tt;
  validate_code = λ as'. Exec.pure tt;
  deploy = deploy_id all_up take_any (λ m. none) none "0" 5 20;
}

abbrev quiet : Stage → World → World
quiet stage w = w

abbrev given : List ℕ → List ℕ
given ns = ns

abbrev begin : PipelineState
begin = initial_state preview none "build it"

abbrev deployed : PipelineState
deployed = record (resumed_state plan passed_validation built_voyage begin) {
  deployment_id = some 5;
}

run_stages-validated_example :
    require_can_enter_deploying
      (load_latest_validation (run_stages quiet all_up deployer given stages begin built_voyage).1)
    ≡ ok tt
unfolding run_stages require_can_enter_planning require_can_enter_pdd require_can_enter_tdd
    require_can_enter_building require_can_enter_reviewing require_can_enter_deploying deploy_id
    deploy route_after_stage
run_stages-validated_example =
    run_stages-validated all_up deployer
      (helmsman-CrewLaws all_up take_any (λ m. none) none "0" 5 20 deployer) quiet given
      (planning ∷ pdd ∷ tdd ∷ building ∷ reviewing ∷ []) begin deployed built_voyage
      (run_stages quiet all_up deployer given stages begin built_voyage).1 refl refl
