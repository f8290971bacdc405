-- ===== src/Pipeline/Building.antt =====
-- `_make_building_node` of crew/pipeline_graph.py. A layer's tasks take effect one after the other,
-- in the order in which they finish: each commits its own session, or rolls it back when it is
-- cancelled.
use grand_line.Common.{
  ℕ, Bool, true, false, not, Option, none, some, List, [], ◌∷◌, ◌==◌, if◌then◌else◌, length, keep,
  all_by,
}
use grand_line.Model.Voyage.{VoyageStatus, paused, PhaseMap, phase_get, is_built}
use grand_line.Model.World.{
  Plan, Poneglyph, HealthCheck, building, Code, invalid_dep_graph, Exn, pipeline_error, other,
  Reason, Event, load_plan, status_of, add_card, publish,
}
use grand_line.Model.Exec.{Done, Result, ok, raise, Exec, ◌>>◌, pure, throw}
use grand_line.Plan.Layers
use grand_line.Plan.Layers.{LayerResult, layers, out_of_fuel, is_empty, topological_layers}
use grand_line.Pipeline.Guards.{require_can_enter_building, require_can_enter_reviewing}
use grand_line.Pipeline.Stages.{PipelineState, Crew, code_of, fail_with, assertion_error}

-- `poneglyph_by_phase`: a dictionary comprehension, so the last poneglyph of a phase is kept.
abbrev pub poneglyph_of : ℕ → List Poneglyph → Option Poneglyph
poneglyph_of n [] = none
poneglyph_of n (p ∷ ps) = elim (poneglyph_of n ps) [
  | some q ↦ some q
  | none ↦ if p.phase_number == n then some p else none
]

abbrev pub has_poneglyph : List Poneglyph → ℕ → Bool
has_poneglyph ps n = elim (poneglyph_of n ps) [ none ↦ false | some _ ↦ true ]

abbrev pub checks_of : ℕ → List HealthCheck → List HealthCheck
checks_of n hcs = keep (λ (h : HealthCheck). h.phase_number == n) hcs

-- The phases of a layer that are still to be built.
abbrev pub pending_of : PhaseMap → List ℕ → List ℕ
pending_of statuses layer = keep (λ n. not (is_built (phase_get n statuses))) layer

abbrev pub key_error : Exn
key_error = other "KeyError"

module _ (crew : Crew) (poneglyphs : List Poneglyph) (checks : List HealthCheck) where
  abbrev pub build_one_phase : ℕ → Exec Done
  build_one_phase n = elim (poneglyph_of n poneglyphs) [
    | none ↦ throw key_error
    | some p ↦ crew.build_code n p (checks_of n checks)
  ]

  -- `gather`: the first failure cancels the tasks that have not finished.
  unfoldable pub gather : List ℕ → Exec Done
  gather [] = pure tt
  gather (n ∷ ns) = build_one_phase n >> gather ns

  -- The loop over the layers: `some` is the code of the error that ends it.
  unfoldable pub build_layers : (List ℕ → List ℕ) → List (List ℕ) → Exec (Option Code)
  unfolding gather
  build_layers order [] w = (ok none, w)
  build_layers order (layer ∷ rest) w =
      let pending = pending_of w.voyage.phase_status layer in
      let go_on = build_layers order rest in
      if is_empty pending
      then go_on w
      else if not (all_by (has_poneglyph poneglyphs) pending)
      then (raise key_error, w)
      else let (r, w') = gather (order pending) w in
        elim r [ ok _ ↦ go_on w' | raise e ↦ (ok (some (code_of e)), w') ]

module _ (up : Event → Bool) (crew : Crew) (order : List ℕ → List ℕ) where
  abbrev pub after_layers : PipelineState → Result (Option Code) → Exec PipelineState
  after_layers s (raise e) w = (raise e, w)
  after_layers s (ok (some c)) w = (ok (fail_with c building s), w)
  after_layers s (ok none) w = (
    ok (record s { build_artifact_count = length w.build_artifacts }),
    add_card building Reason.stage_completed (publish up (Event.stage_completed building false) w),
  )

  abbrev pub build_plan : PipelineState → LayerResult → Exec PipelineState
  build_plan s (Layers.invalid_dep_graph ns) w = (ok (fail_with invalid_dep_graph building s), w)
  build_plan s out_of_fuel w = (raise (other "out_of_fuel"), w)
  build_plan s (layers ls) w =
      let w' =
        add_card building Reason.stage_entered
          (publish up (Event.stage_entered building (status_of w)) w) in
      let (r, w'') = build_layers crew w'.poneglyphs w'.health_checks order ls w' in
      after_layers s r w''

  -- The try blocks around the two guards.
  abbrev pub after_guards : PipelineState → Plan → Result Done → Result Done → Exec PipelineState
  after_guards s plan (raise (pipeline_error c)) _ w = (ok (fail_with c building s), w)
  after_guards s plan (raise e) _ w = (raise e, w)
  after_guards s plan (ok _) (ok _) w = (
    ok (record s { build_artifact_count = length w.build_artifacts }),
    publish up (Event.stage_completed building true) w,
  )
  after_guards s plan (ok _) (raise (pipeline_error c)) w =
      build_plan s (topological_layers plan.phases) w
  after_guards s plan (ok _) (raise e) w = (raise e, w)

  abbrev pub with_plan : PipelineState → Option Plan → Exec PipelineState
  with_plan s none w = (raise assertion_error, w)
  with_plan s (some plan) w =
      after_guards s plan (require_can_enter_building plan w.health_checks)
        (require_can_enter_reviewing w.voyage plan w.build_artifacts) w

  abbrev pub is_paused : VoyageStatus → Bool
  is_paused paused = true
  is_paused _ = false

  unfoldable pub building_node : PipelineState → Exec PipelineState
  unfolding build_layers
  building_node s w =
      if is_paused (status_of w)
      then (ok (record s { paused = true }), w)
      else with_plan s (load_plan w) w
