-- ===== src/Pipeline/Graph.antt =====
-- `build_pipeline_graph` of crew/pipeline_graph.py: the end nodes, the routing and a whole run.
-- `env` is what other sessions (the API) have committed when a stage begins.
pub mod Outcome
pub mod Resume
pub mod Validated
use grand_line.Common.{
  ℕ, String, Bool, true, false, Option, none, some, List, [], ◌∷◌, ◌==◌, if◌then◌else◌,
}
use grand_line.Model.Voyage
use grand_line.Model.World.{
  World, Deployment, DeploymentTier, Stage, planning, pdd, tdd, building, reviewing, deploying,
  finalize, unknown, unknown_code, Reason, Event, set_status, add_card, publish,
}
use grand_line.Model.Exec.{Result, ok, raise, Exec, pure}
use grand_line.Pipeline.Stages.{
  Failure, PipelineState, Crew, run_stage_with_guard, planning_node, pdd_node, tdd_node,
  reviewing_node, deploying_node,
}
use grand_line.Pipeline.Building.{building_node}

-- `select(Deployment).where(Deployment.id == dep_id)` and its `url`
abbrev pub find_url : ℕ → List Deployment → Option String
find_url id [] = none
find_url id (d ∷ ds) = if d.id == id then d.url else find_url id ds

abbrev pub deployment_url : PipelineState → World → Option String
deployment_url s w = elim s.deployment_id [ none ↦ none | some id ↦ find_url id w.deployments ]

module _ (up : Event → Bool) where
  unfoldable pub finalize_node : PipelineState → Exec PipelineState
  finalize_node s w =
      let w' = add_card finalize Reason.pipeline_completed (set_status Voyage.completed w) in
      (ok s, publish up (Event.pipeline_completed (deployment_url s w')) w')

  -- `state.get("error") or {"code": "UNKNOWN", ..., "stage": "UNKNOWN"}`
  abbrev pub failure_of : PipelineState → Failure
  failure_of s = elim s.error [
    | some f ↦ f
    | none ↦ record { code = unknown_code; stage = unknown }
  ]

  unfoldable pub fail_end : PipelineState → Exec PipelineState
  fail_end s w =
      let f = failure_of s in
      (
        ok s,
        publish up (Event.pipeline_failed f.stage f.code)
            (add_card f.stage (Reason.pipeline_failed f.code) (set_status Voyage.failed w)),
      )

unfoldable pub pause_end : PipelineState → Exec PipelineState
pause_end s = pure s

pub data Route : Type 0 where
  to_pause_end to_fail_end to_next : Route

unfoldable pub route_after_stage : PipelineState → Route
route_after_stage s =
    if s.paused then to_pause_end else elim s.error [ some f ↦ to_fail_end | none ↦ to_next ]

module _ (up : Event → Bool) where
  -- A conditional edge, taken from the state that the node returned.
  abbrev pub follow : Route → PipelineState → Exec PipelineState → Exec PipelineState
  follow to_pause_end s next w = pause_end s w
  follow to_fail_end s next w = fail_end up s w
  follow to_next s next w = next w

  -- A node that raises ends the run; the state that it returns is routed otherwise.
  unfoldable pub after_node :
      (PipelineState → Exec PipelineState) → Result PipelineState → Exec PipelineState
  unfolding route_after_stage fail_end pause_end
  after_node next (raise e) w = (raise e, w)
  after_node next (ok s) w = follow (route_after_stage s) s (next s) w

module _ (env : Stage → World → World) (up : Event → Bool) (crew : Crew)
    (order : List ℕ → List ℕ) where
  -- The node of a stage; the names that are no stage have none.
  unfoldable pub stage_node : Stage → PipelineState → Exec PipelineState
  unfolding run_stage_with_guard planning_node pdd_node tdd_node building_node reviewing_node
      deploying_node
  stage_node planning = run_stage_with_guard up (planning_node crew)
  stage_node pdd = run_stage_with_guard up (pdd_node crew)
  stage_node tdd = run_stage_with_guard up (tdd_node crew)
  stage_node building = building_node up crew order
  stage_node reviewing = run_stage_with_guard up (reviewing_node crew)
  stage_node deploying = run_stage_with_guard up (deploying_node crew)
  stage_node _ = pure

  unfoldable pub run_stages : List Stage → PipelineState → Exec PipelineState
  unfolding stage_node finalize_node after_node
  run_stages [] s w = finalize_node up s w
  run_stages (stage ∷ rest) s w =
      let (r, w') = stage_node stage s (env stage w) in after_node up (run_stages rest) r w'

abbrev pub stages : List Stage
stages = planning ∷ pdd ∷ tdd ∷ building ∷ reviewing ∷ deploying ∷ []

abbrev pub initial_state : DeploymentTier → Option ℕ → String → PipelineState
initial_state tier approved_by task = record {
  deploy_tier = tier;
  approved_by = approved_by;
  task = task;
  plan_id = none;
  poneglyph_count = 0;
  health_check_count = 0;
  build_artifact_count = 0;
  validation_run_id = none;
  deployment_id = none;
  error = none;
  paused = false;
}
