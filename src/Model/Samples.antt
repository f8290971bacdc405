-- ===== src/Model/Samples.antt =====
-- Small concrete voyages, for the tests of the other modules.
use grand_line.Common.{ℕ, pos, Bool, true, none, some, List, [], ◌∷◌}
use grand_line.Model.Voyage
use grand_line.Model.Voyage.{VoyageStatus, Voyage, PhaseSpec, shipwright}
use grand_line.Model.World.{
  World, Plan, Poneglyph, HealthCheck, BuildArtifact, ValidationRun, Event,
}

abbrev pub phase : ℕ → List ℕ → PhaseSpec
phase n deps = record {
  phase_number = n;
  name = "build";
  description = "";
  assigned_to = shipwright;
  depends_on = deps;
  artifacts = [];
}

-- Phase 2 depends on 1, and 3 on both.
abbrev pub three_phases : List PhaseSpec
three_phases = phase 3 (1 ∷ 2 ∷ []) ∷ phase 1 [] ∷ phase 2 (1 ∷ []) ∷ []

abbrev pub two_phases : List PhaseSpec
two_phases = phase 1 [] ∷ phase 2 (1 ∷ []) ∷ []

abbrev pub plan : Plan
plan = record { id = 7; version = 1; phases = two_phases }

abbrev pub poneglyph : ℕ → Poneglyph
poneglyph n = record { id = n; phase_number = n; content = "{}" }

abbrev pub check : ℕ → HealthCheck
check n = record {
  id = n;
  poneglyph_id = some n;
  phase_number = n;
  file_path = "test_it.py";
  content = "";
  framework = "pytest";
  last_run_passed = none;
  last_validation_run_id = none;
}

abbrev pub artifact : ℕ → BuildArtifact
artifact n = record { phase_number = n; file_path = "it.py"; content = ""; language = "python" }

abbrev pub passed_validation : ValidationRun
passed_validation = record {
  id = 4;
  passed = true;
  exit_code = pos 0;
  passed_count = 2;
  failed_count = 0;
  total_count = 2;
  output = [];
  created_at = 9;
}

-- A new voyage, in a given status.
abbrev pub fresh : VoyageStatus → World
fresh s = record {
  voyage = record { status = s; phase_status = []; target_repo = none };
  plans = [];
  poneglyphs = [];
  health_checks = [];
  build_artifacts = [];
  validation_runs = [];
  deployments = [];
  cards = [];
  actions = [];
  shipwright_runs = [];
  events = [];
}

-- A voyage that only has to be deployed.
abbrev pub built_voyage : World
built_voyage = record (fresh Voyage.charted) {
  voyage = record {
    status = Voyage.charted;
    phase_status = (1, Voyage.built) ∷ (2, Voyage.built) ∷ [];
    target_repo = none;
  };
  plans = plan ∷ [];
  poneglyphs = poneglyph 1 ∷ poneglyph 2 ∷ [];
  health_checks = check 1 ∷ check 2 ∷ [];
  build_artifacts = artifact 1 ∷ artifact 2 ∷ [];
  validation_runs = passed_validation ∷ [];
}

-- A bus that takes every event.
abbrev pub all_up : Event → Bool
all_up e = true
