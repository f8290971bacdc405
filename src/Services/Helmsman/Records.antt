-- ===== src/Services/Helmsman/Records.antt =====
-- services/helmsman_service.py and crew/helmsman_graph.py: the data of a deployment and the steps that
-- are functions of it.
use Prim.Native.String.{◌++◌ as ◌+s+◌}
use grand_line.Common.{
  Text, last_n, ℕ, String, Bool, true, false, not, ◌&&◌, Option, none, some, [], ◌∷◌, ◌++◌, str_eq,
  if◌then◌else◌, keep, latest,
}
use grand_line.Model.Voyage
use grand_line.Model.Voyage.{VoyageStatus, Voyage}
use grand_line.Model.World.{
  World, DeploymentTier, preview, staging, production, DeployAction, DeployStatus, running,
  Deployment, approval_required, voyage_not_deployable, git_ref_unresolvable, Exn, helmsman_error,
}
use grand_line.Model.Exec.{Done, Result, ok, raise}

-- deployment/backend.py, the two values of `DeploymentResult.status`
pub data Verdict : Type 0 where
  completed failed : Verdict

-- deployment/backend.py, `DeploymentResult`
pub record DeploymentResult : Type 0 where
  pub status : Verdict
  pub url : Option String
  pub backend_log : Text
  pub error : Option String

-- What `backend.deploy` does: it returns, or raises a `DeploymentError` of some class and text, or
-- another exception.
pub data BackendAnswer : Type 0 where
  returned : DeploymentResult → BackendAnswer
  deployment_error : String → Text → BackendAnswer
  crashed : Exn → BackendAnswer

-- deployment/backend.py, `DeploymentArtifact`
pub record DeploymentArtifact : Type 0 where
  pub tier : DeploymentTier
  pub git_ref : String
  pub git_sha : Option String

-- What `git_service.get_head_sha` does: it returns, or raises a `GitError`, or another exception.
pub data GitAnswer : Type 0 where
  head_sha : String → GitAnswer
  git_error : GitAnswer
  git_crashed : Exn → GitAnswer

-- `HelmsmanState` behind the deploy node.
pub record HelmsmanState : Type 0 where
  pub artifact : DeploymentArtifact
  pub status : Verdict
  pub url : Option String
  pub backend_log : Text
  pub error : Option String
  pub diagnosis : Option String

-- The parts of the diagnose message, the log cut to its tail.
pub record DiagnoseMessage : Type 0 where
  pub artifact : DeploymentArtifact
  pub error : Option String
  pub log_tail : Text

-- `DeploymentResponse`
pub record Deployed : Type 0 where
  pub deployment_id : ℕ
  pub tier : DeploymentTier
  pub action : DeployAction
  pub git_ref : String
  pub git_sha : Option String
  pub url : Option String

abbrev pub deploy_status : Verdict → DeployStatus
deploy_status completed = DeployStatus.completed
deploy_status failed = DeployStatus.failed

abbrev pub state_of : DeploymentArtifact → DeploymentResult → HelmsmanState
state_of a r = record {
  artifact = a;
  status = r.status;
  url = r.url;
  backend_log = r.backend_log;
  error = r.error;
  diagnosis = none;
}

abbrev pub deploy_node : DeploymentArtifact → BackendAnswer → Result HelmsmanState
deploy_node a (returned r) = ok (state_of a r)
deploy_node a (deployment_error class message) = ok (record {
  artifact = a;
  status = failed;
  url = none;
  backend_log = message;
  error = some class;
  diagnosis = none;
})
deploy_node a (crashed e) = raise e

abbrev pub build_diagnose_message : HelmsmanState → DiagnoseMessage
build_diagnose_message s = record {
  artifact = s.artifact;
  error = s.error;
  log_tail = last_n 4000 s.backend_log;
}

-- `_require_production_approval`
abbrev pub require_production_approval : DeploymentTier → Option ℕ → Result Done
require_production_approval production none = raise (helmsman_error approval_required)
require_production_approval _ _ = ok tt

abbrev pub require_charted : VoyageStatus → Result Done
require_charted Voyage.charted = ok tt
require_charted _ = raise (helmsman_error voyage_not_deployable)

-- `DEFAULT_GIT_REF_BY_TIER`, where `hex` is `voyage_id.hex[:8]`.
abbrev pub default_git_ref : String → DeploymentTier → String
default_git_ref hex preview = "agent/shipwright/" +s+ hex
default_git_ref hex staging = "staging"
default_git_ref hex production = "main"

-- `git_ref or default`
abbrev pub ref_or : Option String → String → String
ref_or none d = d
ref_or (some r) d = if str_eq r "" then d else r

abbrev pub sha_of : GitAnswer → Result (Option String)
sha_of (head_sha s) = ok (some s)
sha_of git_error = raise (helmsman_error git_ref_unresolvable)
sha_of (git_crashed e) = raise e

abbrev pub is_set : Option String → Bool
is_set none = false
is_set (some r) = not (str_eq r "")

-- `_resolve_git_sha`; without a git service or a repository there is no SHA.
abbrev pub resolve_git_sha :
    Option (String → GitAnswer) → Option String → String → Result (Option String)
resolve_git_sha none repo ref = ok none
resolve_git_sha (some git) repo ref = if is_set repo then sha_of (git ref) else ok none

abbrev pub same_tier : DeploymentTier → DeploymentTier → Bool
same_tier preview preview = true
same_tier staging staging = true
same_tier production production = true
same_tier _ _ = false

abbrev pub is_completed : DeployStatus → Bool
is_completed DeployStatus.completed = true
is_completed _ = false

abbrev pub is_deploy : DeployAction → Bool
is_deploy DeployAction.deploy = true
is_deploy DeployAction.rollback = false

-- The `where` clause of `_find_previous_deployment`.
abbrev pub is_candidate : DeploymentTier → Deployment → Bool
is_candidate tier d = same_tier d.tier tier && is_completed d.status && is_deploy d.action

abbrev pub find_previous_deployment : DeploymentTier → World → Option Deployment
find_previous_deployment tier w =
    latest (λ (d : Deployment). d.created_at) (keep (is_candidate tier) w.deployments)

-- The row of a deployment that runs. The id and the time are those that the row is given.
abbrev pub running_row :
    ℕ → ℕ → DeployAction → DeploymentArtifact → Option ℕ → Option ℕ → Deployment
running_row id now action a approved_by previous = record {
  id = id;
  tier = a.tier;
  action = action;
  git_ref = a.git_ref;
  git_sha = a.git_sha;
  status = running;
  url = none;
  backend_log = [];
  diagnosis = none;
  approved_by = approved_by;
  previous_deployment_id = previous;
  created_at = now;
}

abbrev pub finish_row : HelmsmanState → Deployment → Deployment
finish_row s d = record d {
  status = deploy_status s.status;
  url = s.url;
  backend_log = last_n 4000 s.backend_log;
  diagnosis = s.diagnosis;
}

abbrev pub add_deployment : Deployment → World → World
add_deployment d w = record w { deployments = w.deployments ++ d ∷ [] }
