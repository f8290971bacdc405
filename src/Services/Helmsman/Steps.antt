-- ===== src/Services/Helmsman/Steps.antt =====
-- One deployment or rollback: what holds of its refusals and of its run holds of it.
use grand_line.Common.{
  ℕ, String, ◌≡◌, refl, Bool, true, false, not, ◌||◌, Option, none, some, List, [], ◌∷◌, ◌++◌,
  arith, all_by,
}
use grand_line.Model.Voyage
use grand_line.Model.Voyage.{VoyageStatus}
use grand_line.Model.World.{
  World, DeploymentTier, production, DeployAction, Deployment, Exn, helmsman_error,
  no_previous_deployment, Event, status_of,
}
use grand_line.Model.Exec.{Done, Result, ok, raise, Exec, ◌>>=◌, lift}
use grand_line.Services.Helmsman.Records.{
  BackendAnswer, DeploymentArtifact, GitAnswer, HelmsmanState, DiagnoseMessage, Deployed,
  require_production_approval, require_charted, default_git_ref, ref_or, resolve_git_sha, is_deploy,
  find_previous_deployment, running_row, finish_row,
}
use grand_line.Services.Helmsman.Deploying.{
  run_graph, begin_deployment, end_deployment, artifact_for, run_deployment, deploy_ref,
  when_charted, deploy, roll_back_to, rollback,
}

pub lift-then :
    {A B : Type 0} (P : Result B × World → Type 0) (r : Result A) (f : A → Exec B) (w : World)
    → ((e : Exn) → P (raise e, w))
    → ((a : A) → r ≡ ok a → P (f a w))
    → P ((lift r >>= f) w)
lift-then P (ok a) f w h k = k a refl
lift-then P (raise e) f w h k = h e

pub charted_of : (s : VoyageStatus) (a : Done) → require_charted s ≡ ok a → s ≡ Voyage.charted
charted_of s a h = ground arith

pub end_deployment_status :
    (up : Event → Bool) (old : List Deployment) (d : Deployment) (r : Result HelmsmanState)
    (w : World)
    → status_of (end_deployment up old d r w).1 ≡ Voyage.charted
end_deployment_status up old d (ok s) w = refl
end_deployment_status up old d (raise e) w = refl

-- A row of a deploy to production has an approver.
abbrev pub is_approved : Deployment → Bool
is_approved d = elim d.tier [
  | production ↦ not (is_deploy d.action) || elim d.approved_by [ none ↦ false | some u ↦ true ]
  | _ ↦ true
]

pub all_by-add :
    (p : Deployment → Bool) (rows : List Deployment) (d : Deployment)
    → all_by p rows ≡ true
    → p d ≡ true
    → all_by p (rows ++ d ∷ []) ≡ true
all_by-add p [] d h k = ground arith
all_by-add p (r ∷ rows) d h k = ground (arith, all_by-add p rows d)

pub end_deployment_approved :
    (up : Event → Bool) (d : Deployment) (r : Result HelmsmanState) (w : World)
    → all_by is_approved w.deployments ≡ true
    → is_approved d ≡ true
    → all_by is_approved (end_deployment up w.deployments d r (begin_deployment d w)).1.deployments
      ≡ true
end_deployment_approved up d (ok s) w h k =
    all_by-add is_approved w.deployments (finish_row s d) h k
end_deployment_approved up d (raise e) w h k = all_by-add is_approved w.deployments d h k

pub approval_given :
    (tier : DeploymentTier) (approved_by : Option ℕ) (a : Done) (id now : ℕ) (ref : String)
    (sha : Option String)
    → require_production_approval tier approved_by ≡ ok a
    → is_approved
        (running_row id now DeployAction.deploy (artifact_for tier ref sha) approved_by none)
      ≡ true
approval_given tier approved_by a id now ref sha h = ground arith

pub rollback_exempt :
    (tier : DeploymentTier) (id now : ℕ) (ref : String) (sha : Option String) (p : Option ℕ)
    → is_approved (running_row id now DeployAction.rollback (artifact_for tier ref sha) none p)
      ≡ true
rollback_exempt tier id now ref sha p = ground arith

module _ (up : Event → Bool) (backend : DeploymentArtifact → BackendAnswer)
    (diagnose : DiagnoseMessage → Option String) where
  -- What holds of a refusal and of a deployment past the guards holds of `deploy`.
  pub deploy-keeps :
      (P : Result Deployed × World → Type 0) (git : Option (String → GitAnswer)) (hex : String)
      (id now : ℕ) (tier : DeploymentTier) (git_ref : Option String) (approved_by : Option ℕ)
      (w : World)
      → ((e : Exn) → P (raise e, w))
      → ((a : Done) (ref : String) (sha : Option String)
          → require_production_approval tier approved_by ≡ ok a
          → status_of w ≡ Voyage.charted
          → P (
              run_deployment up backend diagnose
                (running_row id now DeployAction.deploy
                  (artifact_for tier ref sha)
                  approved_by
                  none)
                (artifact_for tier ref sha)
                w))
      → P (deploy up backend diagnose git hex id now tier git_ref approved_by w)
  unfolding deploy
  deploy-keeps P git hex id now tier git_ref approved_by w h k =
      let ref = ref_or git_ref (default_git_ref hex tier) in
      let m = deploy_ref up backend diagnose git id now tier ref approved_by in
      lift-then P (require_production_approval tier approved_by)
        (λ _. when_charted up backend diagnose m) w h
        (λ a approved.
          lift-then P (require_charted (status_of w)) (λ _. m) w h
            (λ b at_rest.
              lift-then P (resolve_git_sha git w.voyage.target_repo ref)
                (λ sha.
                  run_deployment up backend diagnose
                    (running_row id now DeployAction.deploy (artifact_for tier ref sha) approved_by
                      none)
                    (artifact_for tier ref sha))
                w h (λ sha _. k a ref sha approved (charted_of (status_of w) b at_rest))))

  pub roll_back_to-keeps :
      (P : Result Deployed × World → Type 0) (id now : ℕ) (tier : DeploymentTier)
      (o : Option Deployment) (w : World)
      → ((e : Exn) → P (raise e, w))
      → ((ref : String) (sha : Option String) (p : Option ℕ)
          → P (
              run_deployment up backend diagnose
                (running_row id now DeployAction.rollback (artifact_for tier ref sha) none p)
                (artifact_for tier ref sha)
                w))
      → P (roll_back_to up backend diagnose id now tier o w)
  unfolding roll_back_to
  roll_back_to-keeps P id now tier none w h k = h (helmsman_error no_previous_deployment)
  roll_back_to-keeps P id now tier (some d) w h k = k d.git_ref d.git_sha (some d.id)

  pub rollback-keeps :
      (P : Result Deployed × World → Type 0) (id now : ℕ) (tier : DeploymentTier) (w : World)
      → ((e : Exn) → P (raise e, w))
      → ((ref : String) (sha : Option String) (p : Option ℕ)
          → status_of w ≡ Voyage.charted
          → P (
              run_deployment up backend diagnose
                (running_row id now DeployAction.rollback (artifact_for tier ref sha) none p)
                (artifact_for tier ref sha)
                w))
      → P (rollback up backend diagnose id now tier w)
  unfolding rollback
  rollback-keeps P id now tier w h k =
      let m = λ (v : World).
        roll_back_to up backend diagnose id now tier (find_previous_deployment tier v) v in
      lift-then P (require_charted (status_of w)) (λ _. m) w h
        (λ b at_rest.
          roll_back_to-keeps P id now tier (find_previous_deployment tier w) w h
            (λ ref sha p. k ref sha p (charted_of (status_of w) b at_rest)))

  pub run_deployment_status :
      (d : Deployment) (a : DeploymentArtifact) (w : World)
      → status_of (run_deployment up backend diagnose d a w).1 ≡ Voyage.charted
  unfolding run_deployment
  run_deployment_status d a w =
      end_deployment_status up w.deployments d (run_graph backend diagnose a) (begin_deployment d w)

  pub run_deployment_approved :
      (d : Deployment) (a : DeploymentArtifact) (w : World)
      → all_by is_approved w.deployments ≡ true
      → is_approved d ≡ true
      → all_by is_approved (run_deployment up backend diagnose d a w).1.deployments ≡ true
  unfolding run_deployment
  run_deployment_approved d a w h k =
      end_deployment_approved up d (run_graph backend diagnose a) w h k
