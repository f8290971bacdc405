-- ===== src/Pipeline/Service/Starting.antt =====
-- What `start` refuses, and the bounds of the concurrency that it passes on.
use grand_line.Common.{ℕ, ◌≡◌, ◌≤◌, Bool, false, Option, none, some, List, arith}
use grand_line.Model.World.{
  World, Stage, planning, Event, pipeline_error, voyage_not_plannable, status_of,
}
use grand_line.Model.Exec.{ok, raise}
use grand_line.Dial.Value.{Value, Fields, null, int, dict, get}
use grand_line.Dial.Config.{bounded_field, concurrency_or_one, concurrency_of_role}
use grand_line.Pipeline.Guards.{is_plannable, require_can_enter_planning}
use grand_line.Pipeline.Stages.{Crew}
use grand_line.Pipeline.Service.{Request, resolve_concurrency, start, report_failed}

within :
    (v : Value)
    → (1 ≤ concurrency_or_one (bounded_field v)) × (concurrency_or_one (bounded_field v) ≤ 10)
within null = omega arith
within (int n) = ground arith
within _ = omega arith

role_within : (v : Value) → (1 ≤ concurrency_of_role v) × (concurrency_of_role v ≤ 10)
role_within (dict fs) = within (get "max_concurrency" fs)
role_within null = omega arith
role_within _ = omega arith

-- Whatever JSON the voyage's role mapping holds and whatever the caller asks for, the number of
-- Shipwrights that is passed on is from 1 to 10.
pub resolve_concurrency_bounds :
    (role_mapping : Option Fields) (override : Option ℕ) (n : ℕ)
    → resolve_concurrency role_mapping override ≡ ok n
    → (1 ≤ n) × (n ≤ 10)
unfolding resolve_concurrency
resolve_concurrency_bounds none none n h = ground arith
resolve_concurrency_bounds (some fs) none n h = ground (arith, role_within (get "shipwright" fs))
resolve_concurrency_bounds role_mapping (some k) n h = ground arith

-- A voyage that is not CHARTED, PAUSED or FAILED is refused: VOYAGE_NOT_PLANNABLE is raised, no
-- service of the crew is called, and only the failure is recorded and published.
pub start_refused :
    (env : Stage → World → World) (up : Event → Bool) (crew : Crew) (order : List ℕ → List ℕ)
    (role_mapping : Option Fields) (req : Request) (w : World)
    → is_plannable (status_of w) ≡ false
    → start env up crew order role_mapping req w ≡ (
      raise (pipeline_error voyage_not_plannable),
      report_failed up voyage_not_plannable planning w,
    )
unfolding start require_can_enter_planning
start_refused env up crew order role_mapping req w h = rw h
