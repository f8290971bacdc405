-- ===== src/Services/Helmsman/Deploying.antt =====
-- services/helmsman_service.py: `deploy` and `rollback`. Database calls are taken to succeed.
use grand_line.Common.{ℕ, String, Bool, Option, none, some, List, [], ◌∷◌, ◌++◌}
use grand_line.Model.Voyage
use grand_line.Model.World.{
  World, DeploymentTier, DeployAction, Deployment, deploying, Reason, no_previous_deployment, Exn,
  helmsman_error, CrewAction, Event, set_status, status_of, add_card, add_action, publish,
}
use grand_line.Model.World
use grand_line.Model.Exec.{Result, ok, raise, Exec, ◌>>=◌, lift, throw, and_then}
use grand_line.Services.Helmsman.Records.{
  Verdict, completed, failed, BackendAnswer, DeploymentArtifact, GitAnswer, HelmsmanState,
  DiagnoseMessage, Deployed, deploy_node, build_diagnose_message, require_production_approval,
  require_charted, default_git_ref, ref_or, resolve_git_sha, find_previous_deployment, running_row,
  finish_row,
}

-- `_route_after_deploy`, and the diagnose node, whose errors leave no diagnosis.
abbrev pub diagnosed : (DiagnoseMessage → Option String) → HelmsmanState → HelmsmanState
diagnosed diagnose s = elim s.status [
  | completed ↦ s
  | failed ↦ record s { diagnosis = diagnose (build_diagnose_message s) }
]

-- The graph of the deploy node and the diagnose node.
abbrev pub run_graph :
    (DeploymentArtifact → BackendAnswer)
    → (DiagnoseMessage → Option String)
    → DeploymentArtifact
    → Result HelmsmanState
run_graph backend diagnose a = and_then (deploy_node a (backend a)) (λ s. ok (diagnosed diagnose s))

abbrev pub outcome_action : ℕ → DeploymentTier → Verdict → CrewAction
outcome_action id tier completed = CrewAction.deployment_completed id tier
outcome_action id tier failed = CrewAction.deployment_failed id tier

abbrev pub outcome_event : ℕ → Verdict → Event
outcome_event id completed = Event.deployment_completed id
outcome_event id failed = Event.deployment_failed id

abbrev pub deployment_response : Deployment → Deployed
deployment_response d = record {
  deployment_id = d.id;
  tier = d.tier;
  action = d.action;
  git_ref = d.git_ref;
  git_sha = d.git_sha;
  url = d.url;
}

abbrev pub reply : Deployment → Verdict → Result Deployed
reply d completed = ok (deployment_response d)
reply d failed = raise (helmsman_error World.deployment_failed)

-- The voyage is in DEPLOYING, with the running row and the action for its start.
abbrev pub begin_deployment : Deployment → World → World
begin_deployment d w =
    let started = set_status Voyage.deploying w in
    add_action (CrewAction.deployment_started d.id d.tier)
      (record started { deployments = started.deployments ++ d ∷ [] })

-- `_publish_events` and the events of the two actions; each is dropped on its own.
abbrev pub publish_deployment : (Event → Bool) → Deployment → Verdict → World → World
publish_deployment up d v w =
    publish up (Event.crew_action_recorded (outcome_action d.id d.tier v)) (
      publish up (Event.crew_action_recorded (CrewAction.deployment_started d.id d.tier))
        (publish up (outcome_event d.id v) (publish up (Event.deployment_started d.id) w)))

-- Behind the graph: the row of the deployment, which began as `d` behind the rows `old`, gets its
-- end, and the voyage is CHARTED again.
abbrev pub end_deployment :
    (Event → Bool) → List Deployment → Deployment → Result HelmsmanState → Exec Deployed
end_deployment up old d (raise e) w = (raise e, set_status Voyage.charted w)
end_deployment up old d (ok s) w =
    let done = finish_row s d in
    let carded =
      add_card deploying (Reason.deployment d.tier d.action done.status d.id)
        (record w { deployments = old ++ done ∷ [] }) in
    let acted = add_action (outcome_action d.id d.tier s.status) carded in
    (reply done s.status, publish_deployment up d s.status (set_status Voyage.charted acted))

abbrev pub artifact_for : DeploymentTier → String → Option String → DeploymentArtifact
artifact_for tier ref sha = record { tier = tier; git_ref = ref; git_sha = sha }

-- `_run_deployment`. `backend` is the deployment backend, and `diagnose` asks the model about a
-- failure and reads its answer.
module _ (up : Event → Bool) (backend : DeploymentArtifact → BackendAnswer)
    (diagnose : DiagnoseMessage → Option String) where
  unfoldable pub run_deployment : Deployment → DeploymentArtifact → Exec Deployed
  run_deployment d a w =
      end_deployment up w.deployments d (run_graph backend diagnose a) (begin_deployment d w)

  -- `deploy` behind its guards.
  unfoldable pub deploy_ref :
      Option (String → GitAnswer) → ℕ → ℕ → DeploymentTier → String → Option ℕ → Exec Deployed
  unfolding run_deployment
  deploy_ref git id now tier ref approved_by w =
      (lift (resolve_git_sha git w.voyage.target_repo ref) >>= λ sha.
      let a = artifact_for tier ref sha in
      run_deployment (running_row id now DeployAction.deploy a approved_by none) a)
        w

  abbrev pub when_charted : Exec Deployed → Exec Deployed
  when_charted m w = (lift (require_charted w.voyage.status) >>= λ _. m) w

  -- `deploy`, with the service for git, if there is one, and the id and the time of a new row.
  unfoldable pub deploy :
      Option (String → GitAnswer)
      → String
      → ℕ
      → ℕ
      → DeploymentTier
      → Option String
      → Option ℕ
      → Exec Deployed
  unfolding deploy_ref
  deploy git hex id now tier git_ref approved_by =
      lift (require_production_approval tier approved_by) >>= λ _.
      when_charted
        (deploy_ref git id now tier (ref_or git_ref (default_git_ref hex tier)) approved_by)

  unfoldable pub roll_back_to : ℕ → ℕ → DeploymentTier → Option Deployment → Exec Deployed
  unfolding run_deployment
  roll_back_to id now tier none = throw (helmsman_error no_previous_deployment)
  roll_back_to id now tier (some previous) =
      let a = artifact_for tier previous.git_ref previous.git_sha in
      run_deployment (running_row id now DeployAction.rollback a none (some previous.id)) a

  unfoldable pub rollback : ℕ → ℕ → DeploymentTier → Exec Deployed
  unfolding roll_back_to
  rollback id now tier =
      when_charted (λ w. roll_back_to id now tier (find_previous_deployment tier w) w)
