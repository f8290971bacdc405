-- ===== src/Pipeline/Service.antt =====
-- services/pipeline_service.py: starting a run, and the commands of the API on a voyage. A commit
-- is taken to succeed, so `_record_pipeline_failed` and `_mark_failed` reach their ends.
pub mod Commands
pub mod Starting
use grand_line.Common.{
  ℕ, String, Bool, true, false, not, ◌||◌, Option, none, some, List, [], ◌∷◌, ltb, if◌then◌else◌,
}
use grand_line.Model.Voyage
use grand_line.Model.Voyage.{VoyageStatus, pending, phase_put}
use grand_line.Model.World.{
  World, DeploymentTier, Stage, planning, unknown, Code, pipeline_internal, invalid_concurrency,
  voyage_not_resumable, voyage_terminal, Exn, pipeline_error, CrewAction, Event, status_of,
  set_status, add_action, publish,
}
use grand_line.Model.Exec.{Done, Result, ok, raise, Exec}
use grand_line.Dial.Value.{Fields}
use grand_line.Dial.Config.{resolve_shipwright_max_concurrency}
use grand_line.Pipeline.Guards.{guard, require_can_enter_planning}
use grand_line.Pipeline.Stages.{PipelineState, Failure, Crew}
use grand_line.Pipeline.Graph.{run_stages, stages, initial_state, deployment_url}

-- `_TERMINAL_STATUSES`
abbrev pub is_terminal : VoyageStatus → Bool
is_terminal Voyage.completed = true
is_terminal Voyage.failed = true
is_terminal Voyage.cancelled = true
is_terminal _ = false

-- What `resume` does by status: nothing, a refusal, or the flip back to CHARTED.
pub data Resume : Type 0 where
  already_runnable not_resumable resumable : Resume

abbrev pub resume_of : VoyageStatus → Resume
resume_of Voyage.charted = already_runnable
resume_of Voyage.paused = resumable
resume_of Voyage.failed = resumable
resume_of _ = not_resumable

module _ (up : Event → Bool) where
  -- `record_action`, a commit, and the best-effort event about the row.
  abbrev pub record_and_publish : CrewAction → World → World
  record_and_publish a w = publish up (Event.crew_action_recorded a) (add_action a w)

  unfoldable pub pause : Exec Done
  pause w = if is_terminal (status_of w) then (ok tt, w) else (
    ok tt,
    record_and_publish (CrewAction.pipeline_paused (status_of w)) (set_status Voyage.paused w),
  )

  abbrev pub resume_as : Resume → Exec Done
  resume_as already_runnable w = (ok tt, w)
  resume_as not_resumable w = (raise (pipeline_error voyage_not_resumable), w)
  resume_as resumable w = (
    ok tt,
    record_and_publish (CrewAction.pipeline_resumed (status_of w)) (set_status Voyage.charted w),
  )

  unfoldable pub resume : Exec Done
  resume w = resume_as (resume_of (status_of w)) w

  unfoldable pub cancel : Exec Done
  cancel w = if is_terminal (status_of w) then (ok tt, w) else (
    ok tt,
    record_and_publish (CrewAction.pipeline_cancelled (status_of w))
        (set_status Voyage.cancelled w),
  )

  unfoldable pub inject : String → Option ℕ → Exec Done
  inject context phase_number w =
      if is_terminal (status_of w)
      then (raise (pipeline_error voyage_terminal), w)
      else (ok tt, record_and_publish (CrewAction.context_injected context phase_number) w)

  unfoldable pub redirect : ℕ → String → Exec Done
  redirect phase_number instruction w =
      if is_terminal (status_of w) then (raise (pipeline_error voyage_terminal), w) else (
        ok tt,
        record_and_publish (CrewAction.phase_redirected phase_number instruction) (record w {
          voyage = record w.voyage {
            phase_status = phase_put phase_number pending w.voyage.phase_status;
          };
        }),
      )

  -- `_publish_failed` and `_record_pipeline_failed`
  abbrev pub report_failed : Code → Stage → World → World
  report_failed c stage w =
      record_and_publish (CrewAction.pipeline_failed stage c)
        (publish up (Event.pipeline_failed stage c) w)

  -- `_mark_failed`
  unfoldable pub mark_failed : Code → Stage → World → World
  mark_failed c stage w =
      let a = CrewAction.pipeline_failed stage c in
      publish up (Event.crew_action_recorded a)
        (publish up (Event.pipeline_failed stage c) (add_action a (set_status Voyage.failed w)))

-- `_resolve_concurrency`: an explicit number from 1 to 10, or the Dial configuration's.
unfoldable pub resolve_concurrency : Option Fields → Option ℕ → Result ℕ
unfolding resolve_shipwright_max_concurrency
resolve_concurrency role_mapping none = ok (resolve_shipwright_max_concurrency role_mapping)
resolve_concurrency role_mapping (some n) =
    if ltb n 1 || ltb 10 n then raise (pipeline_error invalid_concurrency) else ok n

-- What a caller of `start` passes.
pub record Request : Type 0 where
  pub task : String
  pub deploy_tier : DeploymentTier
  pub max_parallel_shipwrights : Option ℕ
  pub approved_by : Option ℕ

module _ (env : Stage → World → World) (up : Event → Bool) (crew : Crew)
    (order : List ℕ → List ℕ) where
  -- After the graph has returned a state: an error is raised, a pause returns, else it is complete.
  unfoldable pub conclude : PipelineState → Option Failure → Exec Done
  conclude s (some f) w = (
    raise (pipeline_error f.code),
    record_and_publish up (CrewAction.pipeline_failed f.stage f.code) w,
  )
  conclude s none w =
      if s.paused
      then (ok tt, w)
      else (ok tt, record_and_publish up (CrewAction.pipeline_completed (deployment_url s w)) w)

  unfoldable pub after_graph : Result PipelineState → Exec Done
  unfolding conclude mark_failed
  after_graph (raise e) w =
      (raise (pipeline_error pipeline_internal), mark_failed up pipeline_internal unknown w)
  after_graph (ok s) w = conclude s s.error w

  abbrev pub report_refusal : Exn → Exec Done
  report_refusal (pipeline_error c) w = (raise (pipeline_error c), report_failed up c planning w)
  report_refusal e w = (raise e, w)

  abbrev pub start_checked : Request → Result ℕ → Exec Done
  start_checked req (raise e) w = report_refusal e w
  start_checked req (ok n) w =
      let s = initial_state req.deploy_tier req.approved_by req.task in
      let (r, w') =
        run_stages env up crew order stages s (publish up (Event.pipeline_started n) w) in
      after_graph r w'

  abbrev pub start_planned : Option Fields → Request → Result Done → Exec Done
  start_planned role_mapping req (raise e) w = report_refusal e w
  start_planned role_mapping req (ok _) w =
      start_checked req (resolve_concurrency role_mapping req.max_parallel_shipwrights) w

  unfoldable pub start : Option Fields → Request → Exec Done
  unfolding run_stages after_graph require_can_enter_planning resolve_concurrency
  start role_mapping req w =
      start_planned role_mapping req (require_can_enter_planning (status_of w)) w
