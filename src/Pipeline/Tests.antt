-- ===== src/Pipeline/Tests.antt =====
-- Concrete runs and commands, and the theorems of the pipeline at them.
use grand_line.Common.{ℕ, ◌≡◌, refl, ◌≤◌, true, none, some, List, [], ◌∷◌}
use grand_line.Model.Voyage
use grand_line.Model.Voyage.{VoyageStatus, PhaseStatus, pending, phase_get}
use grand_line.Model.World.{
  World, Stage, pdd, tdd, building, deploying, preview, pipeline_error, voyage_cancelled,
  validation_not_passed, status_of,
}
use grand_line.Model.Exec.{ok, pure, throw}
use grand_line.Model.Samples.{plan, passed_validation, fresh, built_voyage, all_up}
use grand_line.Plan.Spec.{valid, validate_plan_graph}
use grand_line.Dial.Value.{Fields, field, end, dict, int}
use grand_line.Pipeline.Guards.{
  require_can_enter_planning, require_can_enter_pdd, require_can_enter_deploying,
  require_can_enter_tdd, require_can_enter_building, require_can_enter_reviewing,
}
use grand_line.Pipeline.Stages.{PipelineState, Crew, fail_with}
use grand_line.Pipeline.Graph.{run_stages, stages, initial_state}
use grand_line.Pipeline.Graph.Outcome.{run_stages-status, run_stages_paused, run_stages_cancelled}
use grand_line.Pipeline.Graph.Resume.{IsSatisfied, resumed_state, skipped_world, run_stages_resumed}
use grand_line.Pipeline.Service.{Request, resolve_concurrency}
use grand_line.Pipeline.Service.Commands.{
  pause_voyage, resume_voyage, perform_all, perform_all-closed,
}
use grand_line.Pipeline.Service.Starting.{resolve_concurrency_bounds}

-- A crew that only deploys.
abbrev deployer : Crew
deployer = record {
  chart_course = λ task. throw (pipeline_error validation_not_passed);
  draft_poneglyphs = λ p. pure [];
  write_health_checks = λ ps. pure [];
  build_code = λ n p hcs. pure tt;
  validate_code = λ as'. pure tt;
  deploy = λ tier approver. pure 5;
}

abbrev quiet : Stage → World → World
quiet stage w = w

abbrev given : List ℕ → List ℕ
given ns = ns

abbrev begin : PipelineState
begin = initial_state preview none "build it"

plan_valid : validate_plan_graph plan.phases ≡ valid
unfolding validate_plan_graph
plan_valid = refl

abbrev deployed : PipelineState
deployed = record (resumed_state plan passed_validation built_voyage begin) {
  deployment_id = some 5;
}

run_stages-status_example :
    status_of (run_stages quiet all_up deployer given stages begin built_voyage).1
    ≡ Voyage.completed
unfolding run_stages require_can_enter_planning require_can_enter_pdd require_can_enter_tdd
    require_can_enter_building require_can_enter_reviewing require_can_enter_deploying
run_stages-status_example =
    run_stages-status quiet all_up deployer given stages begin deployed built_voyage
      (run_stages quiet all_up deployer given stages begin built_voyage).1 refl refl refl

run_stages_paused_example :
    run_stages quiet all_up deployer given (tdd ∷ building ∷ []) begin (fresh Voyage.paused)
    ≡ (ok (record begin { paused = true }), fresh Voyage.paused)
run_stages_paused_example =
    run_stages_paused quiet all_up deployer given tdd (building ∷ []) begin (fresh Voyage.paused) tt
      refl

run_stages_cancelled_example :
    ((run_stages quiet all_up deployer given (pdd ∷ tdd ∷ []) begin (fresh Voyage.cancelled)).0
      ≡ ok (fail_with voyage_cancelled pdd begin))
    × (status_of
          (run_stages quiet all_up deployer given (pdd ∷ tdd ∷ []) begin (fresh Voyage.cancelled)).1
        ≡ Voyage.failed)
run_stages_cancelled_example =
    run_stages_cancelled quiet all_up deployer given pdd (tdd ∷ []) begin (fresh Voyage.cancelled)
      tt refl refl

built_voyage-IsSatisfied : IsSatisfied plan passed_validation built_voyage
unfolding require_can_enter_tdd require_can_enter_building require_can_enter_reviewing
built_voyage-IsSatisfied = record {
  resumed = refl;
  planned = refl;
  drafted = refl;
  checked = refl;
  built = refl;
  validated = refl;
}

run_stages_resumed_example :
    run_stages quiet all_up deployer given stages begin built_voyage
    ≡ run_stages quiet all_up deployer given
        (deploying ∷ [])
        (resumed_state plan passed_validation built_voyage begin)
        (skipped_world all_up built_voyage)
run_stages_resumed_example =
    run_stages_resumed all_up deployer given plan passed_validation begin built_voyage refl refl
      built_voyage-IsSatisfied

perform_all-closed_example :
    perform_all all_up (resume_voyage ∷ pause_voyage ∷ []) (fresh Voyage.cancelled)
    ≡ fresh Voyage.cancelled
perform_all-closed_example =
    perform_all-closed all_up (resume_voyage ∷ pause_voyage ∷ []) (fresh Voyage.cancelled) refl

abbrev mapping : Fields
mapping = field "shipwright" (dict (field "max_concurrency" (int 4) end)) end

resolve_concurrency_bounds_example : (1 ≤ 4) × (4 ≤ 10)
unfolding resolve_concurrency
resolve_concurrency_bounds_example = resolve_concurrency_bounds (some mapping) none 4 refl

abbrev request : Request
request = record {
  task = "build it";
  deploy_tier = preview;
  max_parallel_shipwrights = none;
  approved_by = none;
}
