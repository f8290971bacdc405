-- ===== src/Pipeline/Stages.antt =====
-- crew/pipeline_graph.py: the state of a run, the guarded stage (`_run_stage_with_guard`) and the
-- five stage nodes that are built from it.
use grand_line.Common.{
  ℕ, String, Bool, true, false, Option, none, some, List, if◌then◌else◌, length,
}
use grand_line.Model.Voyage.{VoyageStatus, paused, cancelled}
use grand_line.Model.World.{
  Plan, Poneglyph, HealthCheck, BuildArtifact, ValidationRun, DeploymentTier, Stage, planning, pdd,
  tdd, reviewing, deploying, Code, voyage_cancelled, validation_failed, pipeline_internal,
  class_name, Exn, pipeline_error, captain_error, navigator_error, doctor_error, shipwright_error,
  helmsman_error, other, Reason, stage_skipped, Event, load_plan, load_latest_validation, status_of,
  add_card, publish,
}
use grand_line.Model.Exec.{
  Done, Result, ok, raise, Exec, ◌>>=◌, ◌>>◌, pure, throw, gets, lift, require_some,
}
use grand_line.Pipeline.Guards.{
  require_can_enter_planning, require_can_enter_pdd, require_can_enter_tdd,
  require_can_enter_building, require_can_enter_reviewing, require_can_enter_deploying,
}

-- `state["error"]`
pub record Failure : Type 0 where
  pub code : Code
  pub stage : Stage

-- `PipelineState`, without the ids and the clock value that only label rows and events.
pub record PipelineState : Type 0 where
  pub deploy_tier : DeploymentTier
  pub approved_by : Option ℕ
  pub task : String
  pub plan_id : Option ℕ
  pub poneglyph_count : ℕ
  pub health_check_count : ℕ
  pub build_artifact_count : ℕ
  pub validation_run_id : Option ℕ
  pub deployment_id : Option ℕ
  pub error : Option Failure
  pub paused : Bool

-- The crew services, as the stage nodes call them.
pub record Crew : Type 0 where
  pub chart_course : String → Exec Plan
  pub draft_poneglyphs : Plan → Exec (List Poneglyph)
  pub write_health_checks : List Poneglyph → Exec (List HealthCheck)
  pub build_code : ℕ → Poneglyph → List HealthCheck → Exec Done
  pub validate_code : List BuildArtifact → Exec Done
  pub deploy : DeploymentTier → Option ℕ → Exec ℕ

-- `getattr(exc, "code", exc.__class__.__name__)`
abbrev pub code_of : Exn → Code
code_of (pipeline_error c) = c
code_of (captain_error c) = c
code_of (navigator_error c) = c
code_of (doctor_error c) = c
code_of (shipwright_error c) = c
code_of (helmsman_error c) = c
code_of (other name) = class_name name

abbrev pub fail_with : Code → Stage → PipelineState → PipelineState
fail_with c stage s = record s { error = some (record { code = c; stage = stage }) }

-- What the check of the status at the head of a stage says.
pub data Gate : Type 0 where
  go stop_paused stop_cancelled : Gate

abbrev pub gate : VoyageStatus → Gate
gate paused = stop_paused
gate cancelled = stop_cancelled
gate _ = go

-- `Skip`: `some` is `(True, update)`, `none` is `(False, {})`.
abbrev pub Skip : Type 0
Skip = Exec (Option PipelineState)

-- What a stage node does that the others do differently.
pub record StageNode : Type 0 where
  pub stage : Stage
  pub skip : PipelineState → Skip
  pub run : PipelineState → Exec PipelineState
  pub handles : Exn → Bool

module _ (up : Event → Bool) (node : StageNode) where
  -- From `run_fn` to the end: entered, run, completed or an error in the state.
  unfoldable pub run_stage : PipelineState → Exec PipelineState
  run_stage s w =
      let w' =
        add_card node.stage (Reason.stage_entered)
          (publish up (Event.stage_entered node.stage (status_of w)) w) in
      let (r, w'') = node.run s w' in
      elim r [
        | ok s' ↦ (
          ok s',
          add_card node.stage Reason.stage_completed
              (publish up (Event.stage_completed node.stage false) w''),
        )
        | raise e ↦ (
          ok (fail_with (if node.handles e then code_of e else pipeline_internal) node.stage s),
          w'',
        )
      ]

  -- The answer of `skip_fn`: of what it raises only a `PipelineError` is caught.
  unfoldable pub after_skip : PipelineState → Result (Option PipelineState) → Exec PipelineState
  unfolding run_stage
  after_skip s (ok (some s')) w = (
    ok s',
    add_card node.stage stage_skipped (publish up (Event.stage_completed node.stage true) w),
  )
  after_skip s (ok none) w = run_stage s w
  after_skip s (raise (pipeline_error c)) w = (ok (fail_with c node.stage s), w)
  after_skip s (raise e) w = (raise e, w)

  abbrev pub after_gate : PipelineState → Gate → Exec PipelineState
  after_gate s stop_paused w = (ok (record s { paused = true }), w)
  after_gate s stop_cancelled w = (ok (fail_with voyage_cancelled node.stage s), w)
  after_gate s go w = let (r, w') = node.skip s w in after_skip s r w'

  -- `_run_stage_with_guard`; every stage passes `check_paused=True`.
  unfoldable pub run_stage_with_guard : PipelineState → Exec PipelineState
  unfolding after_skip
  run_stage_with_guard s w = after_gate s (gate (status_of w)) w

-- `try: guard except PipelineError: return False, {}`
abbrev pub passes : Result Done → Exec Bool
passes (ok _) = pure true
passes (raise (pipeline_error c)) = pure false
passes (raise e) = throw e

abbrev pub assertion_error : Exn
assertion_error = other "AssertionError"

abbrev pub skip_if : Bool → PipelineState → Option PipelineState
skip_if b s = if b then some s else none

planning_skip : PipelineState → Skip
planning_skip s = do
  w ← gets (λ w. w)
  lift (require_can_enter_planning (status_of w))
  pure (elim (load_plan w) [ none ↦ none | some p ↦ some (record s { plan_id = some p.id }) ])

pdd_skip : PipelineState → Skip
pdd_skip s = do
  w ← gets (λ w. w)
  lift (require_can_enter_pdd (load_plan w))
  plan ← require_some assertion_error (load_plan w)
  done ← passes (require_can_enter_tdd plan w.poneglyphs)
  pure (skip_if done (record s { poneglyph_count = length w.poneglyphs }))

tdd_skip : PipelineState → Skip
tdd_skip s = do
  w ← gets (λ w. w)
  plan ← require_some assertion_error (load_plan w)
  lift (require_can_enter_tdd plan w.poneglyphs)
  done ← passes (require_can_enter_building plan w.health_checks)
  pure (skip_if done (record s { health_check_count = length w.health_checks }))

-- `latest is not None and latest.status == "passed"`
abbrev pub passed_run : Option ValidationRun → Option ValidationRun
passed_run none = none
passed_run (some v) = if v.passed then some v else none

reviewing_skip : PipelineState → Skip
reviewing_skip s = do
  w ← gets (λ w. w)
  plan ← require_some assertion_error (load_plan w)
  lift (require_can_enter_reviewing w.voyage plan w.build_artifacts)
  pure (elim (passed_run (load_latest_validation w)) [
    | none ↦ none
    | some v ↦ some (record s { validation_run_id = some v.id })
  ])

deploying_skip : PipelineState → Skip
deploying_skip s = do
  w ← gets (λ w. w)
  lift (require_can_enter_deploying (load_latest_validation w))
  pure none

module _ (crew : Crew) where
  unfoldable pub planning_node : StageNode
  unfolding planning_skip
  planning_node = record {
    stage = planning;
    skip = planning_skip;
    run = λ s. (do plan ← crew.chart_course s.task; pure (record s { plan_id = some plan.id }));
    handles = λ e. elim e [ captain_error c ↦ true | _ ↦ false ];
  }

  unfoldable pub pdd_node : StageNode
  unfolding pdd_skip
  pdd_node = record {
    stage = pdd;
    skip = pdd_skip;
    run = λ s. (do
      w ← gets (λ w. w)
      plan ← require_some assertion_error (load_plan w)
      poneglyphs ← crew.draft_poneglyphs plan
      pure (record s { poneglyph_count = length poneglyphs }));
    handles = λ e. elim e [ navigator_error c ↦ true | _ ↦ false ];
  }

  unfoldable pub tdd_node : StageNode
  unfolding tdd_skip
  tdd_node = record {
    stage = tdd;
    skip = tdd_skip;
    run = λ s. (do
      poneglyphs ← gets (λ w. w.poneglyphs)
      checks ← crew.write_health_checks poneglyphs
      pure (record s { health_check_count = length checks }));
    handles = λ e. elim e [ doctor_error c ↦ true | _ ↦ false ];
  }

  unfoldable pub reviewing_node : StageNode
  unfolding reviewing_skip
  reviewing_node = record {
    stage = reviewing;
    skip = reviewing_skip;
    run = λ s. (do
      artifacts ← gets (λ w. w.build_artifacts)
      crew.validate_code artifacts
      w ← gets (λ w. w)
      v ← require_some (pipeline_error validation_failed) (passed_run (load_latest_validation w))
      pure (record s { validation_run_id = some v.id }));
    handles = λ e. elim e [ doctor_error c ↦ true | pipeline_error c ↦ true | _ ↦ false ];
  }

  unfoldable pub deploying_node : StageNode
  unfolding deploying_skip
  deploying_node = record {
    stage = deploying;
    skip = deploying_skip;
    run = λ s. (do
      id ← crew.deploy s.deploy_tier s.approved_by
      pure (record s { deployment_id = some id }));
    handles = λ e. elim e [ helmsman_error c ↦ true | _ ↦ false ];
  }
