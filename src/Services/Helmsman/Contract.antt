-- ===== src/Services/Helmsman/Contract.antt =====
-- What the pipeline relies on from the Helmsman: its deployments keep the validation runs.
use grand_line.Common.{ℕ, String, ◌≡◌, ◌∙◌, refl, arith, Bool, Option, List}
use grand_line.Model.World.{World, DeploymentTier, DeployAction, Deployment, Event}
use grand_line.Model.Exec.{Result, ok, raise, Exec, ◌>>=◌, pure}
use grand_line.Pipeline.Stages.{Crew}
use grand_line.Pipeline.Graph.Validated.{CrewLaws}
use grand_line.Services.Helmsman.Records.{
  BackendAnswer, DeploymentArtifact, GitAnswer, HelmsmanState, DiagnoseMessage, Deployed,
  running_row,
}
use grand_line.Services.Helmsman.Deploying.{
  run_graph, begin_deployment, end_deployment, artifact_for, run_deployment, deploy,
}
use grand_line.Services.Helmsman.Steps.{deploy-keeps}

end_deployment-keeps :
    (up : Event → Bool) (old : List Deployment) (d : Deployment) (r : Result HelmsmanState)
    (w : World)
    → (end_deployment up old d r w).1.validation_runs ≡ w.validation_runs
end_deployment-keeps up old d (ok s) w = refl
end_deployment-keeps up old d (raise e) w = refl

then-pure :
    (m : Exec Deployed) (w : World)
    → ((m >>= λ d. pure d.deployment_id) w).1.validation_runs ≡ (m w).1.validation_runs
then-pure m w = ground arith

module _ (up : Event → Bool) (backend : DeploymentArtifact → BackendAnswer)
    (diagnose : DiagnoseMessage → Option String) (git : Option (String → GitAnswer)) (hex : String)
    (id now : ℕ) where
  run_deployment-keeps :
      (d : Deployment) (a : DeploymentArtifact) (w : World)
      → (run_deployment up backend diagnose d a w).1.validation_runs ≡ w.validation_runs
  unfolding run_deployment
  run_deployment-keeps d a w =
      end_deployment-keeps up w.deployments d (run_graph backend diagnose a) (begin_deployment d w)

  -- `helmsman.deploy` as `_deploying_node` calls it: the id of the deployment is all that it reads.
  unfoldable pub deploy_id : DeploymentTier → Option ℕ → Exec ℕ
  deploy_id tier approved_by =
      deploy up backend diagnose git hex id now tier Option.none approved_by >>= λ d.
      pure d.deployment_id

  deploy_id-keeps :
      (tier : DeploymentTier) (approved_by : Option ℕ) (w : World)
      → (deploy_id tier approved_by w).1.validation_runs ≡ w.validation_runs
  unfolding deploy_id
  deploy_id-keeps tier approved_by w =
      let m = deploy up backend diagnose git hex id now tier Option.none approved_by in
      then-pure m w
      ∙ deploy-keeps up backend diagnose (λ x. x.1.validation_runs ≡ w.validation_runs) git hex id
          now tier Option.none approved_by w (λ e. refl)
          (λ a ref sha h k.
            run_deployment-keeps
              (running_row id now DeployAction.deploy (artifact_for tier ref sha) approved_by
                Option.none)
              (artifact_for tier ref sha) w)

  -- Any crew with this Helmsman keeps to the contract of the graph.
  pub helmsman-CrewLaws : (crew : Crew) → CrewLaws (record crew { deploy = deploy_id })
  helmsman-CrewLaws crew = record { deploy-keeps = deploy_id-keeps }
