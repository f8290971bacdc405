-- ===== src/Pipeline/Graph/Outcome.antt =====
-- How a run of the graph ends: the status that it leaves, a pause, a cancel, and the gate before
-- a deployment.
use grand_line.Common.{
  ℕ, ◌≡◌, refl, ◌⊎◌, inl, inr, Bool, true, false, Option, none, some, List, [], ◌∷◌, arith,
}
use grand_line.Model.Voyage
use grand_line.Model.Voyage.{VoyageStatus}
use grand_line.Model.World.{
  World, Stage, planning, pdd, tdd, building, reviewing, deploying, finalize, unknown, Event,
  voyage_cancelled, validation_not_passed, status_of, load_latest_validation, publish,
}
use grand_line.Model.Exec.{Result, ok, raise, Exec}
use grand_line.Pipeline.Guards.{require_can_enter_deploying}
use grand_line.Pipeline.Stages.{
  Failure, PipelineState, Crew, fail_with, passed_run, gate, go, run_stage_with_guard,
  deploying_node,
}
use grand_line.Pipeline.Building.{building_node}
use grand_line.Pipeline.Graph.{
  route_after_stage, Route, to_next, to_pause_end, to_fail_end, finalize_node, fail_end, pause_end,
  stage_node, run_stages, after_node,
}

-- The names of stages that are nodes of the graph.
abbrev pub IsStage : Stage → Type 0
IsStage finalize = ⊥
IsStage unknown = ⊥
IsStage _ = Unit

-- The stages that go through `_run_stage_with_guard`.
abbrev pub IsGuarded : Stage → Type 0
IsGuarded finalize = ⊥
IsGuarded unknown = ⊥
IsGuarded building = ⊥
IsGuarded _ = Unit

-- The status that a run leaves behind by its last state.
abbrev pub expected_status : Option Failure → VoyageStatus
expected_status none = Voyage.completed
expected_status (some f) = Voyage.failed

publish-status :
    (up : Event → Bool) (e : Event) (w : World) → status_of (publish up e w) ≡ status_of w
publish-status up e w = ground arith

finalize-status :
    (up : Event → Bool) (s s' : PipelineState) (w w' : World)
    → finalize_node up s w ≡ (ok s', w')
    → route_after_stage s ≡ to_next
    → status_of w' ≡ expected_status s'.error
unfolding finalize_node route_after_stage
finalize-status up s s' w w' h r = ground arith

fail_end-status :
    (up : Event → Bool) (s s' : PipelineState) (w w' : World)
    → fail_end up s w ≡ (ok s', w')
    → route_after_stage s ≡ to_fail_end
    → status_of w' ≡ expected_status s'.error
unfolding fail_end route_after_stage
fail_end-status up s s' w w' h r = ground arith

pause_end-paused :
    (s s' : PipelineState) (w w' : World)
    → pause_end s w ≡ (ok s', w')
    → route_after_stage s ≡ to_pause_end
    → s'.paused ≡ true
unfolding pause_end route_after_stage
pause_end-paused s s' w w' h r = ground arith

Route-cases : (r : Route) → (r ≡ to_pause_end) ⊎ (r ≡ to_fail_end) ⊎ (r ≡ to_next)
Route-cases to_pause_end = inl refl
Route-cases to_fail_end = inr (inl refl)
Route-cases to_next = inr (inr refl)

-- The status that is left behind, through one conditional edge.
after_node-status :
    (up : Event → Bool) (next : PipelineState → Exec PipelineState) (s' : PipelineState)
    (w' : World)
    → ((t : PipelineState) (v : World)
        → route_after_stage t ≡ to_next
        → next t v ≡ (ok s', w')
        → s'.paused ≡ false
        → status_of w' ≡ expected_status s'.error)
    → (r : Result PipelineState) (w : World) → after_node up next r w ≡ (ok s', w')
    → s'.paused ≡ false
    → status_of w' ≡ expected_status s'.error
unfolding after_node
after_node-status up next s' w' ih (raise e) w h p = cc
after_node-status up next s' w' ih (ok t) w h p = elim (Route-cases (route_after_stage t)) [
  | inl e ↦ cc (pause_end-paused t s' w w' (rw e at h) e)
  | inr (inl e) ↦ fail_end-status up t s' w w' (rw e at h) e
  | inr (inr e) ↦ ih t w e (rw e at h) p
]

module _ (env : Stage → World → World) (up : Event → Bool) (crew : Crew)
    (order : List ℕ → List ℕ) where
  -- A run that returns and was not paused leaves the voyage COMPLETED if its state has no error,
  -- and FAILED if it has one, whatever the crew and the other sessions do.
  pub run_stages-status :
      (rest : List Stage) (s s' : PipelineState) (w w' : World)
      → route_after_stage s ≡ to_next
      → run_stages env up crew order rest s w ≡ (ok s', w')
      → s'.paused ≡ false
      → status_of w' ≡ expected_status s'.error
  unfolding run_stages
  run_stages-status [] s s' w w' r h p = finalize-status up s s' w w' h r
  run_stages-status (stage ∷ rest) s s' w w' r h p =
      let (q, v) = stage_node env up crew order stage s (env stage w) in
      after_node-status up (run_stages env up crew order rest) s' w'
        (λ t u n. run_stages-status rest t s' u w' n) q v h p

  stage_node_paused :
      (stage : Stage) (s : PipelineState) (w : World)
      → IsStage stage
      → status_of w ≡ Voyage.paused
      → stage_node env up crew order stage s w ≡ (ok (record s { paused = true }), w)
  unfolding stage_node run_stage_with_guard building_node
  stage_node_paused planning s w k h = rw h
  stage_node_paused pdd s w k h = rw h
  stage_node_paused tdd s w k h = rw h
  stage_node_paused building s w k h = rw h
  stage_node_paused reviewing s w k h = rw h
  stage_node_paused deploying s w k h = rw h
  stage_node_paused _ s w k h = absurd k

  stage_node_cancelled :
      (stage : Stage) (s : PipelineState) (w : World)
      → IsGuarded stage
      → status_of w ≡ Voyage.cancelled
      → stage_node env up crew order stage s w ≡ (ok (fail_with voyage_cancelled stage s), w)
  unfolding stage_node run_stage_with_guard
  stage_node_cancelled planning s w k h = rw h
  stage_node_cancelled pdd s w k h = rw h
  stage_node_cancelled tdd s w k h = rw h
  stage_node_cancelled building s w k h = absurd k
  stage_node_cancelled reviewing s w k h = rw h
  stage_node_cancelled deploying s w k h = rw h
  stage_node_cancelled _ s w k h = absurd k

  -- A voyage that another session has paused when a stage begins: no row of it changes any more,
  -- whatever stages are left, and the run returns in the paused state.
  pub run_stages_paused :
      (stage : Stage) (rest : List Stage) (s : PipelineState) (w : World)
      → IsStage stage
      → status_of (env stage w) ≡ Voyage.paused
      → run_stages env up crew order (stage ∷ rest) s w
        ≡ (ok (record s { paused = true }), env stage w)
  unfolding run_stages
  run_stages_paused stage rest s w k h = rw (stage_node_paused stage s (env stage w) k h) refl

  -- A voyage that another session has cancelled when a stage other than BUILDING begins: the run
  -- reports VOYAGE_CANCELLED for that stage and the voyage ends FAILED, no longer CANCELLED.
  pub run_stages_cancelled :
      (stage : Stage) (rest : List Stage) (s : PipelineState) (w : World)
      → IsGuarded stage
      → s.paused ≡ false
      → status_of (env stage w) ≡ Voyage.cancelled
      → ((run_stages env up crew order (stage ∷ rest) s w).0
          ≡ ok (fail_with voyage_cancelled stage s))
        × (status_of (run_stages env up crew order (stage ∷ rest) s w).1 ≡ Voyage.failed)
  unfolding run_stages
  run_stages_cancelled stage rest s w k p h =
      rw (stage_node_cancelled stage s (env stage w) k h, p) (refl, refl)

-- Whatever the Helmsman would do, a voyage whose newest validation run has not passed is not handed
-- to it: the stage reports VALIDATION_NOT_PASSED and changes no row.
pub deploying_node_unvalidated :
    (up : Event → Bool) (crew : Crew) (s : PipelineState) (w : World)
    → gate (status_of w) ≡ go
    → passed_run (load_latest_validation w) ≡ none
    → run_stage_with_guard up (deploying_node crew) s w
      ≡ (ok (fail_with validation_not_passed deploying s), w)
unfolding run_stage_with_guard deploying_node require_can_enter_deploying
deploying_node_unvalidated up crew s w g h = rw g (ground arith)
