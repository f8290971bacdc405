-- ===== src/Model/World.antt =====
-- The rows of one voyage that the crew reads and writes (src/backend/app/models), what was
-- published on its stream, and the errors that the services raise.
use grand_line.Common.{Text, ℕ, ℤ, String, Bool, Option, List, [], ◌∷◌, ◌++◌, if◌then◌else◌, latest}
use grand_line.Model.Voyage.{Voyage, VoyageStatus, PhaseSpec}

-- models/voyage.py, `VoyagePlan`
pub record Plan : Type 0 where
  pub id : ℕ
  pub version : ℕ
  pub phases : List PhaseSpec

pub record Poneglyph : Type 0 where
  pub id : ℕ
  pub phase_number : ℕ
  pub content : String

-- models/health_check.py; a status of a run is "passed" or "failed".
pub record HealthCheck : Type 0 where
  pub id : ℕ
  pub poneglyph_id : Option ℕ
  pub phase_number : ℕ
  pub file_path : String
  pub content : String
  pub framework : String
  pub last_run_passed : Option Bool
  pub last_validation_run_id : Option ℕ

pub record BuildArtifact : Type 0 where
  pub phase_number : ℕ
  pub file_path : String
  pub content : String
  pub language : String

-- models/validation_run.py; the status is "passed" or "failed".
pub record ValidationRun : Type 0 where
  pub id : ℕ
  pub passed : Bool
  pub exit_code : ℤ
  pub passed_count : ℕ
  pub failed_count : ℕ
  pub total_count : ℕ
  pub output : Text
  pub created_at : ℕ

pub data DeploymentTier : Type 0 where
  preview staging production : DeploymentTier

-- The values of models/deployment.py's `action` and `status`.
pub data DeployAction : Type 0 where
  deploy rollback : DeployAction

pub data DeployStatus : Type 0 where
  running completed failed : DeployStatus

pub record Deployment : Type 0 where
  pub id : ℕ
  pub tier : DeploymentTier
  pub action : DeployAction
  pub git_ref : String
  pub git_sha : Option String
  pub status : DeployStatus
  pub url : Option String
  pub backend_log : Text
  pub diagnosis : Option String
  pub approved_by : Option ℕ
  pub previous_deployment_id : Option ℕ
  pub created_at : ℕ

-- `STAGE_*` of crew/pipeline_graph.py, with the names used outside of a stage.
pub data Stage : Type 0 where
  planning pdd tdd building reviewing deploying finalize unknown : Stage

-- The codes of the errors that the model raises; `class_name` is `exc.__class__.__name__`.
pub data Code : Type 0 where
  voyage_not_plannable plan_missing poneglyphs_incomplete health_checks_incomplete build_incomplete
        validation_not_passed invalid_dep_graph voyage_cancelled validation_failed pipeline_internal
        invalid_concurrency voyage_not_resumable voyage_terminal unknown_code :
      Code
  vitest_not_supported phase_not_buildable build_parse_failed max_iterations build_internal : Code
  approval_required voyage_not_deployable no_previous_deployment git_ref_unresolvable
        deployment_failed :
      Code
  plan_parse_failed poneglyph_parse_failed poneglyph_phase_mismatch health_check_parse_failed
        health_check_phase_mismatch no_health_checks :
      Code
  class_name : String → Code

-- The exception classes that handlers tell apart.
pub data Exn : Type 0 where
  pipeline_error captain_error navigator_error doctor_error shipwright_error helmsman_error :
      Code → Exn
  other : String → Exn

-- models/shipwright_run.py; `status` is one of three strings.
pub data RunStatus : Type 0 where
  run_passed run_failed run_max_iterations : RunStatus

-- models/vivre_card.py: the checkpoint reasons, with the parts of `state_data` that are kept.
pub data Reason : Type 0 where
  stage_skipped stage_entered stage_completed pipeline_completed : Reason
  pipeline_failed : Code → Reason
  plan_created : ℕ → ℕ → Reason
  poneglyphs_drafted health_checks_written : ℕ → List ℕ → Reason
  iteration : ℕ → ℕ → Option ℤ → ℕ → Reason
  build_complete : ℕ → ℕ → RunStatus → ℕ → Reason
  deployment : DeploymentTier → DeployAction → DeployStatus → ℕ → Reason

pub record Card : Type 0 where
  pub stage : Stage
  pub reason : Reason

-- crew_action_helper.py: `CrewActionType`, with the parts of `details` that the code reads back.
pub data CrewAction : Type 0 where
  pipeline_paused pipeline_resumed pipeline_cancelled : VoyageStatus → CrewAction
  pipeline_completed : Option String → CrewAction
  pipeline_failed : Stage → Code → CrewAction
  context_injected : String → Option ℕ → CrewAction
  phase_redirected : ℕ → String → CrewAction
  plan_created : ℕ → ℕ → CrewAction
  poneglyph_drafted : ℕ → ℕ → CrewAction
  health_check_written : ℕ → ℕ → String → CrewAction
  validation_passed : ℕ → ℕ → ℕ → CrewAction
  validation_failed : ℕ → ℤ → ℕ → CrewAction
  phase_build_started : ℕ → CrewAction
  phase_build_completed : ℕ → ℕ → CrewAction
  phase_build_failed : ℕ → Code → CrewAction
  deployment_started deployment_completed deployment_failed : ℕ → DeploymentTier → CrewAction

-- models/crew_action.py: a row, with the phases that an intervention was applied to.
pub record ActionRow : Type 0 where
  pub action : CrewAction
  pub applied_phases : List ℕ

-- models/shipwright_run.py
pub record ShipwrightRun : Type 0 where
  pub phase_number : ℕ
  pub status : RunStatus
  pub iteration_count : ℕ
  pub exit_code : Option ℤ
  pub passed_count : ℕ
  pub failed_count : ℕ
  pub total_count : ℕ
  pub output : Text

-- den_den_mushi/events.py: the events that the modelled parts publish.
pub data Event : Type 0 where
  pipeline_started : ℕ → Event
  stage_entered : Stage → VoyageStatus → Event
  stage_completed : Stage → Bool → Event
  pipeline_completed : Option String → Event
  pipeline_failed : Stage → Code → Event
  crew_action_recorded : CrewAction → Event
  voyage_plan_created : ℕ → ℕ → ℕ → Event
  poneglyph_drafted : ℕ → ℕ → Event
  health_check_written : ℕ → ℕ → String → Event
  validation_passed validation_failed : ℕ → ℕ → ℕ → Event
  phase_build_started : ℕ → Event
  phase_build_failed : ℕ → Code → Event
  code_generated : ℕ → ℕ → Event
  tests_passed : ℕ → ℕ → Event
  deployment_started deployment_completed deployment_failed : ℕ → Event

pub record World : Type 0 where
  pub voyage : Voyage
  pub plans : List Plan
  pub poneglyphs : List Poneglyph
  pub health_checks : List HealthCheck
  pub build_artifacts : List BuildArtifact
  pub validation_runs : List ValidationRun
  pub deployments : List Deployment
  pub cards : List Card
  pub actions : List ActionRow
  pub shipwright_runs : List ShipwrightRun
  pub events : List Event

-- The loaders of crew/pipeline_graph.py: rows of the voyage, and the newest of some.
abbrev pub load_plan : World → Option Plan
load_plan w = latest (λ (p : Plan). p.version) w.plans

abbrev pub load_latest_validation : World → Option ValidationRun
load_latest_validation w = latest (λ (v : ValidationRun). v.created_at) w.validation_runs

abbrev pub status_of : World → VoyageStatus
status_of w = w.voyage.status

abbrev pub set_status : VoyageStatus → World → World
set_status s w = record w { voyage = record w.voyage { status = s } }

abbrev pub add_card : Stage → Reason → World → World
add_card s r w = record w { cards = w.cards ++ record { stage = s; reason = r } ∷ [] }

-- `record_action`
abbrev pub add_action : CrewAction → World → World
add_action a w = record w { actions = w.actions ++ record { action = a; applied_phases = [] } ∷ [] }

-- A best-effort publish: what the bus does not take is logged and dropped.
abbrev pub publish : (Event → Bool) → Event → World → World
publish up e w = record w { events = if up e then w.events ++ e ∷ [] else w.events }
