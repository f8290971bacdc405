-- ===== src/Pipeline/Graph/Validated.antt =====
-- A run that completes: what it has passed on the way, for a crew that keeps to its contract.
use grand_line.Common.{
  ℕ, ◌≡◌, ◌≢◌, refl, ◌⊎◌, inl, inr, ap, latest, Bool, Option, none, some, List, [], ◌∷◌, ◌++◌,
  arith,
}
use grand_line.Model.World.{
  World, Exn, pipeline_error, validation_not_passed, ValidationRun, DeploymentTier, Code, Stage,
  deploying, Event, Reason, add_card, publish, status_of, load_latest_validation,
}
use grand_line.Model.Exec.{Result, ok, raise, Exec}
use grand_line.Pipeline.Guards.{require_can_enter_deploying}
use grand_line.Pipeline.Stages.{
  PipelineState, Crew, fail_with, run_stage_with_guard, run_stage, after_skip, deploying_node,
}
use grand_line.Pipeline.Graph.{
  route_after_stage, to_next, finalize_node, fail_end, pause_end, stage_node, run_stages,
  after_node,
}

-- What the graph relies on from the crew: a deployment neither adds nor removes validation runs.
pub record CrewLaws (crew : Crew) : Type 0 where
  pub deploy-keeps :
      (tier : DeploymentTier) (approved_by : Option ℕ) (w : World)
      → (crew.deploy tier approved_by w).1.validation_runs ≡ w.validation_runs

abbrev newest : List ValidationRun → Option ValidationRun
newest runs = latest (λ (v : ValidationRun). v.created_at) runs

allowed-cases :
    (o : Option ValidationRun)
    → (require_can_enter_deploying o ≡ ok tt)
      ⊎ (require_can_enter_deploying o ≡ raise (pipeline_error validation_not_passed))
unfolding require_can_enter_deploying
allowed-cases none = inr refl
allowed-cases (some v) = ground arith

refused :
    (s s' : PipelineState) (w w' : World)
    → ◌≡◌ {A = Result PipelineState × World}
        (ok (fail_with validation_not_passed deploying s), w)
        (ok s', w')
    → route_after_stage s' ≡ to_next
    → ⊥
unfolding route_after_stage
refused s s' w w' h r = ground arith

after_node-raise :
    (up : Event → Bool) (next : PipelineState → Exec PipelineState) (e : Exn) (s' : PipelineState)
    (w w' : World)
    → after_node up next (raise e) w ≡ (ok s', w')
    → ⊥
unfolding after_node
after_node-raise up next e s' w w' h = ground arith

-- A state that goes on came through the next nodes.
after_node-through :
    (up : Event → Bool) (next : PipelineState → Exec PipelineState) (t s' : PipelineState)
    (w w' : World)
    → after_node up next (ok t) w ≡ (ok s', w')
    → route_after_stage s' ≡ to_next
    → (route_after_stage t ≡ to_next) × (next t w ≡ (ok s', w'))
unfolding after_node fail_end pause_end route_after_stage
after_node-through up next t s' w w' h r = ground arith

earlier_stage :
    {C : Type 0} (up : Event → Bool) (q : Result PipelineState × World) (s' : PipelineState)
    (w' : World) (next : PipelineState → Exec PipelineState)
    → ((t : PipelineState) (v : World) → next t v ≡ (ok s', w') → C)
    → after_node up next q.0 q.1 ≡ (ok s', w')
    → route_after_stage s' ≡ to_next
    → C
earlier_stage up (raise e, v) s' w' next k h r = absurd (after_node-raise up next e s' v w' h)
earlier_stage up (ok t, v) s' w' next k h r = k t v (after_node-through up next t s' v w' h r).1

module _ (up : Event → Bool) (crew : Crew) (laws : CrewLaws crew) where
  fail_with-ends :
      (c : Code) (stage : Stage) (s : PipelineState)
      → route_after_stage (fail_with c stage s) ≢ to_next
  unfolding route_after_stage
  fail_with-ends c stage s h = ground arith

  run_stage_keeps :
      (s s' : PipelineState) (w w' : World)
      → run_stage up (deploying_node crew) s w ≡ (ok s', w')
      → route_after_stage s' ≡ to_next
      → w'.validation_runs ≡ w.validation_runs
  unfolding run_stage deploying_node route_after_stage
  run_stage_keeps s s' w w' h r = ground (
    arith,
    laws.deploy-keeps s.deploy_tier s.approved_by (
        add_card deploying Reason.stage_entered
          (publish up (Event.stage_entered deploying (status_of w)) w)),
  )

  after_skip_validated :
      (s s' : PipelineState) (w w' : World)
      → after_skip up (deploying_node crew) s (((deploying_node crew).skip s w).0) w ≡ (ok s', w')
      → route_after_stage s' ≡ to_next
      → require_can_enter_deploying (load_latest_validation w') ≡ ok tt
  unfolding after_skip deploying_node
  after_skip_validated s s' w w' h r = elim (allowed-cases (load_latest_validation w)) [
    | inl e ↦
        rw
          (ap (λ (runs : List ValidationRun). require_can_enter_deploying (newest runs))
            (run_stage_keeps s s' w w' (rw e at h) r))
          e
    | inr e ↦ absurd (refused s s' w w' (rw e at h) r)
  ]

  deploying_node-validated :
      (s s' : PipelineState) (w w' : World)
      → run_stage_with_guard up (deploying_node crew) s w ≡ (ok s', w')
      → route_after_stage s' ≡ to_next
      → require_can_enter_deploying (load_latest_validation w') ≡ ok tt
  unfolding run_stage_with_guard route_after_stage deploying_node
  deploying_node-validated s s' w w' h r = ground (arith, after_skip_validated s s' w w')

  finalize_node-keeps :
      (s s' : PipelineState) (w w' : World)
      → finalize_node up s w ≡ (ok s', w')
      → w'.validation_runs ≡ w.validation_runs
  unfolding finalize_node
  finalize_node-keeps s s' w w' h = ground arith

  last_stage-validated :
      (q : Result PipelineState × World) (s' : PipelineState) (w' : World)
      → ((t : PipelineState)
          → q.0 ≡ ok t
          → route_after_stage t ≡ to_next
          → require_can_enter_deploying (load_latest_validation q.1) ≡ ok tt)
      → after_node up (finalize_node up) q.0 q.1 ≡ (ok s', w')
      → route_after_stage s' ≡ to_next
      → require_can_enter_deploying (load_latest_validation w') ≡ ok tt
  last_stage-validated (raise e, v) s' w' k h r =
      absurd (after_node-raise up (finalize_node up) e s' v w' h)
  last_stage-validated (ok t, v) s' w' k h r =
      let through = after_node-through up (finalize_node up) t s' v w' h r in
      rw
        (ap (λ (runs : List ValidationRun). require_can_enter_deploying (newest runs))
          (finalize_node-keeps t s' v w' through.1))
        (k t refl through.0)

  -- If the crew's deployments keep the validation runs, then a run of any stages with DEPLOYING as the
  -- last, which ends without an error and without a pause, leaves a voyage whose newest validation
  -- run has passed, whatever the rest of the crew and the other sessions do.
  pub run_stages-validated :
      (env : Stage → World → World) (order : List ℕ → List ℕ) (front : List Stage)
      (s s' : PipelineState) (w w' : World)
      → run_stages env up crew order (front ++ deploying ∷ []) s w ≡ (ok s', w')
      → route_after_stage s' ≡ to_next
      → require_can_enter_deploying (load_latest_validation w') ≡ ok tt
  unfolding run_stages stage_node
  run_stages-validated env order [] s s' w w' h r =
      let q = run_stage_with_guard up (deploying_node crew) s (env deploying w) in
      last_stage-validated q s' w'
        (λ t e n. deploying_node-validated s t (env deploying w) q.1 (ap (λ x. (x, q.1)) e) n) h r
  run_stages-validated env order (stage ∷ front) s s' w w' h r =
      let q = stage_node env up crew order stage s (env stage w) in
      earlier_stage up q s' w' (run_stages env up crew order (front ++ deploying ∷ []))
        (λ t v g. run_stages-validated env order front t s' v w' g r) h r
