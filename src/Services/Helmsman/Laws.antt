-- ===== src/Services/Helmsman/Laws.antt =====
-- What deployments and rollbacks keep: the voyage's status, and an approver on every production row.
use grand_line.Common.{
  ℕ, String, ◌≡◌, refl, sym, ◌∙◌, Bool, true, Option, none, List, [], ◌∷◌, all_by,
}
use grand_line.Model.World.{World, DeploymentTier, DeployAction, Event, status_of}
use grand_line.Model.Exec.{Exec}
use grand_line.Services.Helmsman.Records.{
  BackendAnswer, DeploymentArtifact, GitAnswer, DiagnoseMessage, Deployed, running_row,
}
use grand_line.Services.Helmsman.Deploying.{artifact_for, deploy, rollback}
use grand_line.Services.Helmsman.Steps.{
  is_approved, approval_given, rollback_exempt, deploy-keeps, rollback-keeps, run_deployment_status,
  run_deployment_approved,
}

pub data Request : Type 0 where
  deploy_request : DeploymentTier → Option String → Option ℕ → Request
  rollback_request : DeploymentTier → Request

-- A request, with the id and the time of a new row and what the other systems do meanwhile.
pub record Attempt : Type 0 where
  pub request : Request
  pub id : ℕ
  pub now : ℕ
  pub git : Option (String → GitAnswer)
  pub backend : DeploymentArtifact → BackendAnswer
  pub diagnose : DiagnoseMessage → Option String

module _ (up : Event → Bool) (hex : String) where
  unfoldable pub serve : Attempt → Request → Exec Deployed
  unfolding deploy rollback
  serve t (deploy_request tier git_ref approved_by) =
      deploy up t.backend t.diagnose t.git hex t.id t.now tier git_ref approved_by
  serve t (rollback_request tier) = rollback up t.backend t.diagnose t.id t.now tier

  -- A series of requests; one that raises ends only itself.
  unfoldable pub serve_all : List Attempt → World → World
  unfolding serve
  serve_all [] w = w
  serve_all (t ∷ ts) w = serve_all ts (serve t t.request w).1

serve_status :
    (up : Event → Bool) (hex : String) (t : Attempt) (r : Request) (w : World)
    → status_of (serve up hex t r w).1 ≡ status_of w
unfolding serve
serve_status up hex t (deploy_request tier git_ref approved_by) w =
    deploy-keeps up t.backend t.diagnose (λ x. status_of x.1 ≡ status_of w) t.git hex t.id t.now
      tier git_ref approved_by w (λ e. refl)
      (λ a ref sha h k.
        run_deployment_status up t.backend t.diagnose
          (running_row t.id t.now DeployAction.deploy (artifact_for tier ref sha) approved_by none)
          (artifact_for tier ref sha) w
        ∙ sym k)
serve_status up hex t (rollback_request tier) w =
    rollback-keeps up t.backend t.diagnose (λ x. status_of x.1 ≡ status_of w) t.id t.now tier w
      (λ e. refl)
      (λ ref sha p k.
        run_deployment_status up t.backend t.diagnose
          (running_row t.id t.now DeployAction.rollback (artifact_for tier ref sha) none p)
          (artifact_for tier ref sha) w
        ∙ sym k)

serve_approved :
    (up : Event → Bool) (hex : String) (t : Attempt) (r : Request) (w : World)
    → all_by is_approved w.deployments ≡ true
    → all_by is_approved (serve up hex t r w).1.deployments ≡ true
unfolding serve
serve_approved up hex t (deploy_request tier git_ref approved_by) w g =
    deploy-keeps up t.backend t.diagnose (λ x. all_by is_approved x.1.deployments ≡ true) t.git hex
      t.id t.now tier git_ref approved_by w (λ e. g)
      (λ a ref sha h k.
        run_deployment_approved up t.backend t.diagnose
          (running_row t.id t.now DeployAction.deploy (artifact_for tier ref sha) approved_by none)
          (artifact_for tier ref sha) w g (approval_given tier approved_by a t.id t.now ref sha h))
serve_approved up hex t (rollback_request tier) w g =
    rollback-keeps up t.backend t.diagnose (λ x. all_by is_approved x.1.deployments ≡ true) t.id
      t.now tier w (λ e. g)
      (λ ref sha p k.
        run_deployment_approved up t.backend t.diagnose
          (running_row t.id t.now DeployAction.rollback (artifact_for tier ref sha) none p)
          (artifact_for tier ref sha) w g (rollback_exempt tier t.id t.now ref sha p))

-- Deployments and rollbacks, with any answers of git, the backend and the model, leave the status of
-- the voyage as it was: none stays in DEPLOYING.
pub serve_all_status :
    (up : Event → Bool) (hex : String) (ts : List Attempt) (w : World)
    → status_of (serve_all up hex ts w) ≡ status_of w
unfolding serve_all
serve_all_status up hex [] w = refl
serve_all_status up hex (t ∷ ts) w =
    serve_all_status up hex ts (serve up hex t t.request w).1 ∙ serve_status up hex t t.request w

-- If each row of a deploy to production has an approver, so has each after any series of requests.
pub serve_all_approved :
    (up : Event → Bool) (hex : String) (ts : List Attempt) (w : World)
    → all_by is_approved w.deployments ≡ true
    → all_by is_approved (serve_all up hex ts w).deployments ≡ true
unfolding serve_all
serve_all_approved up hex [] w h = h
serve_all_approved up hex (t ∷ ts) w h =
    serve_all_approved up hex ts (serve up hex t t.request w).1
      (serve_approved up hex t t.request w h)
