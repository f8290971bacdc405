-- ===== src/Model/Phases.antt =====
-- The map of phase statuses: a read after a write.
use grand_line.Common.{ℕ, ◌≡◌, refl, some, [], ◌∷◌, ◌==◌, arith, if◌then◌else◌}
use grand_line.Model.Voyage.{PhaseStatus, PhaseMap, phase_get, phase_put}

pub phase_get-put :
    (n k : ℕ) (s : PhaseStatus) (m : PhaseMap)
    → phase_get k (phase_put n s m) ≡ (if n == k then some s else phase_get k m)
phase_get-put n k s [] = refl
phase_get-put n k s ((j, t) ∷ m) = ground (arith, phase_get-put n k s m)
