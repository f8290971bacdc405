-- ===== src/Pipeline/Guards.antt =====
-- services/pipeline_guards.py: the guards are functions of loaded rows.
pub mod Laws
use grand_line.Common.{
  ℕ, String, Bool, true, false, not, ◌&&◌, Option, none, some, List, [], ◌∷◌, map, contains, keep,
  if◌then◌else◌,
}
use grand_line.Model.Voyage.{
  Voyage, VoyageStatus, charted, paused, failed, PhaseMap, phase_get, is_built,
}
use grand_line.Model.World.{
  Plan, Poneglyph, HealthCheck, BuildArtifact, ValidationRun, Exn, pipeline_error, other, Code,
  voyage_not_plannable, plan_missing, poneglyphs_incomplete, health_checks_incomplete,
  build_incomplete, validation_not_passed,
}
use grand_line.Model.Exec.{Done, Result, ok, raise}
use grand_line.Plan.Layers.{is_empty}
use grand_line.Plan.Spec.{SpecResult, valid, invalid, numbers, validate_plan_graph}

-- A guard passes, or raises `PipelineError(code, ...)`.
abbrev pub guard : Bool → Code → Result Done
guard true c = ok tt
guard false c = raise (pipeline_error c)

-- `VoyageStatus` in `_PLANNABLE_STATUSES`
abbrev pub is_plannable : VoyageStatus → Bool
is_plannable charted = true
is_plannable paused = true
is_plannable failed = true
is_plannable _ = false

unfoldable pub require_can_enter_planning : VoyageStatus → Result Done
require_can_enter_planning status = guard (is_plannable status) voyage_not_plannable

unfoldable pub require_can_enter_pdd : Option Plan → Result Done
require_can_enter_pdd none = raise (pipeline_error plan_missing)
require_can_enter_pdd (some plan) = ok tt

abbrev pub planned_or_raise : SpecResult → Plan → Result (List ℕ)
planned_or_raise valid plan = ok (numbers plan.phases)
planned_or_raise (invalid e) plan = raise (other "ValidationError")

-- `_planned_phase_numbers`: the stored phases are validated again.
unfoldable pub planned_phase_numbers : Plan → Result (List ℕ)
unfolding validate_plan_graph
planned_phase_numbers plan = planned_or_raise (validate_plan_graph plan.phases) plan

-- `covered = found & planned; missing = planned - covered`
abbrev pub missing : List ℕ → List ℕ → List ℕ
missing planned found =
    let covered = keep (λ n. contains n planned) found in
    keep (λ n. not (contains n covered)) planned

abbrev pub poneglyph_phases : List Poneglyph → List ℕ
poneglyph_phases ps = map (λ (p : Poneglyph). p.phase_number) ps

abbrev pub health_check_phases : List HealthCheck → List ℕ
health_check_phases hcs = map (λ (h : HealthCheck). h.phase_number) hcs

abbrev pub artifact_phases : List BuildArtifact → List ℕ
artifact_phases built = map (λ (a : BuildArtifact). a.phase_number) built

abbrev covers : Result (List ℕ) → List ℕ → Code → Result Done
covers (raise e) found c = raise e
covers (ok planned) found c = guard (is_empty (missing planned found)) c

unfoldable pub require_can_enter_tdd : Plan → List Poneglyph → Result Done
unfolding planned_phase_numbers
require_can_enter_tdd plan poneglyphs =
    covers (planned_phase_numbers plan) (poneglyph_phases poneglyphs) poneglyphs_incomplete

unfoldable pub require_can_enter_building : Plan → List HealthCheck → Result Done
unfolding planned_phase_numbers
require_can_enter_building plan health_checks =
    covers (planned_phase_numbers plan) (health_check_phases health_checks) health_checks_incomplete

-- `planned - (with_artifact & built)`
abbrev pub incomplete : List ℕ → List ℕ → PhaseMap → List ℕ
incomplete planned found statuses =
    let with_artifact = keep (λ n. contains n planned) found in
    let done = keep (λ n. is_built (phase_get n statuses)) planned in
    keep (λ n. not (contains n with_artifact && contains n done)) planned

abbrev builds : Result (List ℕ) → List ℕ → PhaseMap → Result Done
builds (raise e) found statuses = raise e
builds (ok planned) found statuses =
    guard (is_empty (incomplete planned found statuses)) build_incomplete

unfoldable pub require_can_enter_reviewing : Voyage → Plan → List BuildArtifact → Result Done
unfolding planned_phase_numbers
require_can_enter_reviewing voyage plan artifacts =
    builds (planned_phase_numbers plan) (artifact_phases artifacts) voyage.phase_status

unfoldable pub require_can_enter_deploying : Option ValidationRun → Result Done
require_can_enter_deploying none = raise (pipeline_error validation_not_passed)
require_can_enter_deploying (some run) = guard run.passed validation_not_passed
