-- ===== src/Services/Tests.antt =====
-- Concrete runs of the crew services, and the theorems at them.
use grand_line.Common.{
  ℕ, pos, String, ◌≡◌, ◌≢◌, arith, refl, arith, ◌==◌, true, none, some, List, [], ◌∷◌,
  if◌then◌else◌, all_by, length, str_eq,
}
use grand_line.Model.Voyage
use grand_line.Model.Voyage.{built, build_failed, phase_get}
use grand_line.Model.World.{
  World, context_injected, phase_redirected, staging, production, Deployment, DeployAction,
  DeployStatus, other, status_of, add_action,
}
use grand_line.Model.Exec.{Result, ok, raise}
use grand_line.Model.Samples.{fresh, built_voyage, poneglyph, check, all_up}
use grand_line.Services.Interventions.{nothing_drained, drain_pending_interventions}
use grand_line.Services.Interventions.Once.{drain_once}
use grand_line.Services.Shipwright.Iteration.{
  Section, Parsed, parsed, rejected, ExecutionResult, passed_word,
}
use grand_line.Services.Shipwright.Rounds.{build_code}
use grand_line.Services.Shipwright.Settling.{others, of_phase}
use grand_line.Services.Shipwright.Frames.{ok_by}
use grand_line.Services.Shipwright.Laws.{build_code_status, build_code_artifacts}
use grand_line.Services.Helmsman.Records.{completed, BackendAnswer, returned, DeploymentArtifact}
use grand_line.Services.Helmsman.Steps.{is_approved}
use grand_line.Services.Helmsman.Laws.{
  Request, deploy_request, rollback_request, Attempt, serve_all, serve_all_status,
  serve_all_approved,
}

-- A voyage with a text for every phase and a redirect of phase 2.
abbrev steered : World
steered =
    add_action (phase_redirected 2 "use asyncio")
      (add_action (context_injected "mind the reef" none) (fresh Voyage.building))

drain_pending_interventions_run :
    (drain_pending_interventions 2 steered).0
    ≡ ok (record {
      injected_context = "mind the reef" ∷ [];
      redirect_instruction = some "use asyncio";
      applied_actions = 2;
    })
unfolding drain_pending_interventions
drain_pending_interventions_run = refl

drain_once_example :
    drain_pending_interventions 2 (drain_pending_interventions 2 steered).1
    ≡ (ok nothing_drained, (drain_pending_interventions 2 steered).1)
drain_once_example = drain_once 2 steered

one_is_not_two : ◌≢◌ {A = ℕ} 1 2
one_is_not_two h = omega (arith, h)

-- A model that first answers with text that is no JSON, and tests that pass at the third iteration.
abbrev route : ℕ → List Section → Result String
route i m = ok (if i == 1 then "sorry" else "{}")

abbrev parse_output : String → Parsed
parse_output raw =
    if str_eq raw "sorry"
    then rejected (78 ∷ 111 ∷ [])
    else parsed (record { file_path = "it.py"; content = "pass"; language = "python" } ∷ [])

abbrev execute : ℕ → List (String × String) → Result ExecutionResult
execute i files = ok (record {
  exit_code = if i == 3 then pos 0 else pos 1;
  stdout = if i == 3 then passed_word else [];
})

-- A sandbox that is not there.
abbrev no_sandbox : ℕ → List (String × String) → Result ExecutionResult
no_sandbox i files = raise (other "SandboxError")

build_code_run :
    ok_by
      (λ r. r.iteration_count == 3)
      (build_code route parse_output execute all_up 2 (poneglyph 2) (check 2 ∷ []) steered).0
    ≡ true
unfolding build_code
build_code_run = refl

build_code_status_example :
    phase_get 2
      (build_code route parse_output execute all_up 2
        (poneglyph 2)
        (check 2 ∷ [])
        steered).1.voyage.phase_status
    ≡ some built
unfolding build_code
build_code_status_example =
    build_code_status route parse_output execute all_up 2 2 (poneglyph 2) (check 2 ∷ []) steered
      refl

build_code_crash :
    phase_get 2
      (build_code route parse_output no_sandbox all_up 2
        (poneglyph 2)
        (check 2 ∷ [])
        steered).1.voyage.phase_status
    ≡ some build_failed
unfolding build_code
build_code_crash = refl

build_code_artifacts_example :
    (others 2
        (build_code route parse_output execute all_up 2
          (poneglyph 2)
          (check 2 ∷ [])
          steered).1.build_artifacts
      ≡ [])
    × (length (
          of_phase 2
            (build_code route parse_output execute all_up 2
              (poneglyph 2)
              (check 2 ∷ [])
              steered).1.build_artifacts)
        ≡ 1)
unfolding build_code
build_code_artifacts_example =
    build_code_artifacts route parse_output execute all_up 2 (poneglyph 2) (check 2 ∷ []) steered

-- Phase 2 of this voyage is built.
abbrev take_any : DeploymentArtifact → BackendAnswer
take_any a =
    returned (record { status = completed; url = some "url"; backend_log = []; error = none })

abbrev attempt : Request → ℕ → Attempt
attempt r n = record {
  request = r;
  id = n;
  now = n;
  git = none;
  backend = take_any;
  diagnose = λ m. none;
}

-- One deploy that lacks an approver, one that has it, and a rollback.
abbrev attempts : List Attempt
attempts =
    attempt (deploy_request production none none) 1
    ∷ attempt (deploy_request production none (some 9)) 2
    ∷ attempt (rollback_request production) 3
    ∷ []

serve_all_run : length (serve_all all_up "0" attempts built_voyage).deployments ≡ 2
unfolding serve_all
serve_all_run = refl

serve_all_status_example : status_of (serve_all all_up "0" attempts built_voyage) ≡ Voyage.charted
serve_all_status_example = serve_all_status all_up "0" attempts built_voyage

serve_all_approved_example :
    all_by is_approved (serve_all all_up "0" attempts built_voyage).deployments ≡ true
serve_all_approved_example = serve_all_approved all_up "0" attempts built_voyage refl

abbrev row : ℕ → Deployment
row n = record {
  id = n;
  tier = staging;
  action = DeployAction.deploy;
  git_ref = "main";
  git_sha = none;
  status = DeployStatus.completed;
  url = none;
  backend_log = [];
  diagnosis = none;
  approved_by = none;
  previous_deployment_id = none;
  created_at = n;
}

abbrev deployed_voyage : World
deployed_voyage = record built_voyage { deployments = row 1 ∷ row 2 ∷ [] }
