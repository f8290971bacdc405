-- ===== src/Model/Voyage.antt =====
-- models/enums.py, models/voyage.py, and the phase specification of schemas/captain.py.
use grand_line.Common.{
  ℕ, String, Bool, true, false, Option, some, none, List, [], ◌∷◌, ◌==◌, if◌then◌else◌,
}

pub data VoyageStatus : Type 0 where
  charted planning pdd tdd building reviewing deploying completed failed paused cancelled :
      VoyageStatus

pub VoyageStatus-discrete : Discrete VoyageStatus
VoyageStatus-discrete = hlevel

pub data CrewRole : Type 0 where
  captain navigator doctor shipwright helmsman : CrewRole

-- The four strings that `phase_status` holds.
pub data PhaseStatus : Type 0 where
  pending in_build built build_failed : PhaseStatus

-- `phase_status` maps the decimal of a phase number to its status; the newest entry is in front.
abbrev pub PhaseMap : Type 0
PhaseMap = List (ℕ × PhaseStatus)

abbrev pub phase_get : ℕ → PhaseMap → Option PhaseStatus
phase_get n [] = none
phase_get n ((k, s) ∷ m) = if k == n then some s else phase_get n m

-- `{**phase_status, key: status}`, and `jsonb_set` of one key.
abbrev pub phase_put : ℕ → PhaseStatus → PhaseMap → PhaseMap
phase_put n s [] = (n, s) ∷ []
phase_put n s ((k, t) ∷ m) = if k == n then (n, s) ∷ m else (k, t) ∷ phase_put n s m

abbrev pub is_built : Option PhaseStatus → Bool
is_built (some built) = true
is_built _ = false

pub record Voyage : Type 0 where
  pub status : VoyageStatus
  pub phase_status : PhaseMap
  pub target_repo : Option String

pub record PhaseSpec : Type 0 where
  pub phase_number : ℕ
  pub name : String
  pub description : String
  pub assigned_to : CrewRole
  pub depends_on : List ℕ
  pub artifacts : List String
