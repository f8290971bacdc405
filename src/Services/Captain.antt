-- ===== src/Services/Captain.antt =====
-- services/captain_service.py and crew/captain_graph.py: `chart_course`. The recall from the Log Book
-- is a parameter, like the model and the parser of its answers.
pub mod Laws
use Prim.Native.String.{◌++◌ as ◌+s+◌}
use grand_line.Common.{
  ℕ, ◌+◌, String, Bool, true, false, not, Option, none, some, List, [], ◌∷◌, ◌++◌, str_eq,
  if◌then◌else◌, length,
}
use grand_line.Model.Voyage
use grand_line.Model.Voyage.{PhaseSpec}
use grand_line.Model.World.{
  World, Plan, planning, Reason, plan_parse_failed, captain_error, CrewAction, Event, load_plan,
  set_status, add_card, add_action, publish,
}
use grand_line.Model.Exec.{Result, ok, raise, and_then, Exec}
use grand_line.Plan.Spec.{SpecResult, valid, invalid, validate_plan_graph}
use grand_line.Services.Publishing.{give_up}

-- `VoyagePlanSpec.model_validate` on what the JSON holds; `none` is a `ValueError`.
abbrev pub if_valid : SpecResult → List PhaseSpec → Option (List PhaseSpec)
if_valid valid phases = some phases
if_valid (invalid e) phases = none

-- The recalled knowledge in front of the task; nothing recalled, or an error, leaves the task.
abbrev pub with_recalled : Result String → String → String
with_recalled (raise e) task = task
with_recalled (ok recalled) task =
    if str_eq recalled "" then task else recalled +s+ "\n\n---\n\n" +s+ task

abbrev pub planning_task : (String → Result String) → Option String → String → String
planning_task recall none task = task
planning_task recall (some repo) task =
    if str_eq repo "" then task else with_recalled (recall repo) task

-- `(latest.version + 1) if latest else 1`
abbrev pub next_version : Option Plan → ℕ
next_version none = 1
next_version (some latest) = latest.version + 1

-- `route` is the model's answer to a task, `parse_json` reads the phases from an answer.
module _ (up : Event → Bool) (recall : String → Result String) (route : String → Result String)
    (parse_json : String → Option (List PhaseSpec)) where
  -- The node `validate` of the graph.
  unfoldable pub validate_plan : String → Option (List PhaseSpec)
  validate_plan raw = elim (parse_json raw) [
    | none ↦ none
    | some phases ↦ if_valid (validate_plan_graph phases) phases
  ]

  -- The graph of two nodes.
  unfoldable pub decompose : String → Result (Option (List PhaseSpec))
  unfolding validate_plan
  decompose task = and_then (route task) (λ raw. ok (validate_plan raw))

  abbrev pub record_plan : Plan → World → World
  record_plan plan w =
      let count = length plan.phases in
      let a = CrewAction.plan_created plan.id count in
      let w' =
        add_card planning (Reason.plan_created plan.version count)
          (record w { plans = w.plans ++ plan ∷ [] }) in
      publish up (Event.crew_action_recorded a) (
        publish up (Event.voyage_plan_created plan.id plan.version count)
          (add_action a (set_status Voyage.charted w')))

  abbrev pub finish_plan : ℕ → Result (Option (List PhaseSpec)) → Exec Plan
  finish_plan id (raise e) w = give_up e w
  finish_plan id (ok none) w = give_up (captain_error plan_parse_failed) w
  finish_plan id (ok (some phases)) w =
      let plan : Plan = record { id = id; version = next_version (load_plan w); phases = phases } in
      (ok plan, record_plan plan w)

  -- `id` is the id of a new plan; the phases that are returned beside it are its own.
  unfoldable pub chart_course : ℕ → String → Exec Plan
  unfolding decompose
  chart_course id task w =
      finish_plan id (decompose (planning_task recall w.voyage.target_repo task))
        (set_status Voyage.planning w)
