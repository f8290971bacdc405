-- ===== src/Pipeline/Graph/Resume.antt =====
-- A resumed run: stages whose artifacts exist are skipped with no call of the crew.
use grand_line.Common.{ℕ, ◌≡◌, ◌∙◌, refl, Bool, true, false, none, some, List, [], ◌∷◌, length}
use grand_line.Model.Voyage
use grand_line.Model.World.{
  World, Plan, ValidationRun, Stage, planning, pdd, tdd, building, reviewing, deploying, Event,
  Reason, status_of, load_plan, load_latest_validation, add_card, publish,
}
use grand_line.Model.Exec.{ok}
use grand_line.Pipeline.Guards.{
  require_can_enter_planning, require_can_enter_pdd, require_can_enter_tdd,
  require_can_enter_building, require_can_enter_reviewing,
}
use grand_line.Pipeline.Stages.{
  PipelineState, Crew, passed_run, run_stage_with_guard, planning_node, pdd_node, tdd_node,
  reviewing_node,
}
use grand_line.Pipeline.Building.{building_node}
use grand_line.Pipeline.Graph.{stage_node, run_stages, stages}

-- The artifacts of every stage before the deployment are there.
pub record IsSatisfied (plan : Plan) (run : ValidationRun) (w : World) : Type 0 where
  pub resumed : status_of w ≡ Voyage.charted
  pub planned : load_plan w ≡ some plan
  pub drafted : require_can_enter_tdd plan w.poneglyphs ≡ ok tt
  pub checked : require_can_enter_building plan w.health_checks ≡ ok tt
  pub built : require_can_enter_reviewing w.voyage plan w.build_artifacts ≡ ok tt
  pub validated : passed_run (load_latest_validation w) ≡ some run

-- What skipping a stage writes.
abbrev pub mark_skipped : (Event → Bool) → Stage → World → World
mark_skipped up stage w =
    add_card stage Reason.stage_skipped (publish up (Event.stage_completed stage true) w)

-- What skipping the first five stages writes; BUILDING leaves no card.
abbrev pub skipped_world : (Event → Bool) → World → World
skipped_world up w = mark_skipped up reviewing (
    publish up (Event.stage_completed building true)
      (mark_skipped up tdd (mark_skipped up pdd (mark_skipped up planning w))))

abbrev pub resumed_state : Plan → ValidationRun → World → PipelineState → PipelineState
resumed_state plan run w s = record s {
  plan_id = some plan.id;
  poneglyph_count = length w.poneglyphs;
  health_check_count = length w.health_checks;
  build_artifact_count = length w.build_artifacts;
  validation_run_id = some run.id;
}

module _ (up : Event → Bool) (crew : Crew) (s : PipelineState) (w : World) where
  planning_node_skipped :
      (plan : Plan)
      → status_of w ≡ Voyage.charted
      → load_plan w ≡ some plan
      → run_stage_with_guard up (planning_node crew) s w
        ≡ (ok (record s { plan_id = some plan.id }), mark_skipped up planning w)
  unfolding run_stage_with_guard planning_node require_can_enter_planning
  planning_node_skipped plan c p = rw (c, p)

  pdd_node_skipped :
      (plan : Plan)
      → status_of w ≡ Voyage.charted
      → load_plan w ≡ some plan
      → require_can_enter_tdd plan w.poneglyphs ≡ ok tt
      → run_stage_with_guard up (pdd_node crew) s w
        ≡ (ok (record s { poneglyph_count = length w.poneglyphs }), mark_skipped up pdd w)
  unfolding run_stage_with_guard pdd_node require_can_enter_pdd
  pdd_node_skipped plan c p d = rw (c, p, d)

  tdd_node_skipped :
      (plan : Plan)
      → status_of w ≡ Voyage.charted
      → load_plan w ≡ some plan
      → require_can_enter_tdd plan w.poneglyphs ≡ ok tt
      → require_can_enter_building plan w.health_checks ≡ ok tt
      → run_stage_with_guard up (tdd_node crew) s w
        ≡ (ok (record s { health_check_count = length w.health_checks }), mark_skipped up tdd w)
  unfolding run_stage_with_guard tdd_node
  tdd_node_skipped plan c p d h = rw (c, p, d, h)

  building_node_skipped :
      (order : List ℕ → List ℕ) (plan : Plan)
      → status_of w ≡ Voyage.charted
      → load_plan w ≡ some plan
      → require_can_enter_building plan w.health_checks ≡ ok tt
      → require_can_enter_reviewing w.voyage plan w.build_artifacts ≡ ok tt
      → building_node up crew order s w ≡ (
        ok (record s { build_artifact_count = length w.build_artifacts }),
        publish up (Event.stage_completed building true) w,
      )
  unfolding building_node require_can_enter_reviewing
  building_node_skipped order plan c p h b = rw (c, p, h, b)

  reviewing_node_skipped :
      (plan : Plan) (run : ValidationRun)
      → status_of w ≡ Voyage.charted
      → load_plan w ≡ some plan
      → require_can_enter_reviewing w.voyage plan w.build_artifacts ≡ ok tt
      → passed_run (load_latest_validation w) ≡ some run
      → run_stage_with_guard up (reviewing_node crew) s w
        ≡ (ok (record s { validation_run_id = some run.id }), mark_skipped up reviewing w)
  unfolding run_stage_with_guard reviewing_node require_can_enter_reviewing
  reviewing_node_skipped plan run c p b v = rw (c, p, b, v)

-- The first five stages of a run in which no other session interferes.
module _ (up : Event → Bool) (crew : Crew) (order : List ℕ → List ℕ) (plan : Plan)
    (run : ValidationRun) where
  abbrev quiet : Stage → World → World
  quiet stage w = w

  -- One skipped stage of a run.
  skip_step :
      (stage : Stage) (rest : List Stage) (s s' : PipelineState) (w w' : World)
      → s'.paused ≡ false
      → s'.error ≡ none
      → stage_node quiet up crew order stage s w ≡ (ok s', w')
      → run_stages quiet up crew order (stage ∷ rest) s w
        ≡ run_stages quiet up crew order rest s' w'
  unfolding run_stages
  skip_step stage rest s s' w w' p e h = rw (h, p, e) refl

  -- Let a voyage be CHARTED, with a plan, its poneglyphs, health checks and build, and a latest
  -- validation that passed; let no other session write during the run, and let the run begin in a state
  -- that is not paused and has no error. Then the run equals that of the deployment stage alone, on the
  -- state with the ids and counts of what is there, after nothing but the cards and the events that
  -- report the skipped stages.
  pub run_stages_resumed :
      (s : PipelineState) (w : World)
      → s.paused ≡ false
      → s.error ≡ none
      → IsSatisfied plan run w
      → run_stages (λ stage v. v) up crew order stages s w
        ≡ run_stages
            (λ stage v. v)
            up
            crew
            order
            (deploying ∷ [])
            (resumed_state plan run w s)
            (skipped_world up w)
  unfolding stage_node
  run_stages_resumed s w p e h =
      let s1 = record s { plan_id = some plan.id } in
      let s2 = record s1 { poneglyph_count = length w.poneglyphs } in
      let s3 = record s2 { health_check_count = length w.health_checks } in
      let s4 = record s3 { build_artifact_count = length w.build_artifacts } in
      let w1 = mark_skipped up planning w in
      let w2 = mark_skipped up pdd w1 in
      let w3 = mark_skipped up tdd w2 in
      let w4 = publish up (Event.stage_completed building true) w3 in
      skip_step planning (pdd ∷ tdd ∷ building ∷ reviewing ∷ deploying ∷ []) s s1 w w1 p e
        (planning_node_skipped up crew s w plan h.resumed h.planned)
      ∙ skip_step pdd (tdd ∷ building ∷ reviewing ∷ deploying ∷ []) s1 s2 w1 w2 p e
          (pdd_node_skipped up crew s1 w1 plan h.resumed h.planned h.drafted)
      ∙ skip_step tdd (building ∷ reviewing ∷ deploying ∷ []) s2 s3 w2 w3 p e
          (tdd_node_skipped up crew s2 w2 plan h.resumed h.planned h.drafted h.checked)
      ∙ skip_step building (reviewing ∷ deploying ∷ []) s3 s4 w3 w4 p e
          (building_node_skipped up crew s3 w3 order plan h.resumed h.planned h.checked h.built)
      ∙ skip_step reviewing (deploying ∷ []) s4 (resumed_state plan run w s) w4 (skipped_world up w)
          p e
          (reviewing_node_skipped up crew s4 w4 plan run h.resumed h.planned h.built h.validated)
