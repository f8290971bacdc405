-- ===== src/Services/Publishing.antt =====
-- What the crew services share: the best-effort publishes behind a commit, and the way back to
-- CHARTED when a service gives up.
use grand_line.Common.{ℕ, suc, Bool, List, [], ◌∷◌, ◌++◌, if◌then◌else◌, map, keep}
use grand_line.Model.Voyage
use grand_line.Model.World.{World, Exn, CrewAction, Event, set_status}
use grand_line.Model.Exec.{raise, Exec}

-- Several events in one handler: the first that the bus does not take ends the series.
abbrev pub taken : (Event → Bool) → List Event → List Event
taken up [] = []
taken up (e ∷ es) = let rest = taken up es in if up e then e ∷ rest else []

abbrev pub publish_series : (Event → Bool) → List Event → World → World
publish_series up es w = record w { events = w.events ++ taken up es }

-- `record_action`, for each of several actions.
abbrev pub add_actions : List CrewAction → World → World
add_actions actions w = record w {
  actions = w.actions ++ map (λ a. record { action = a; applied_phases = [] }) actions;
}

-- `publish_crew_action_recorded` for each action: each is dropped on its own.
abbrev pub publish_actions : (Event → Bool) → List CrewAction → World → World
publish_actions up actions w = record w {
  events = w.events ++ keep up (map Event.crew_action_recorded actions);
}

-- `voyage.status = CHARTED`, a flush, and the error.
abbrev pub give_up : {A : Type 0} → Exn → Exec A
give_up e w = (raise e, set_status Voyage.charted w)

-- The members of a list with their positions, from a first one on.
abbrev pub numbered {ℓ} : {A : Type ℓ} → ℕ → List A → List (ℕ × A)
numbered i [] = []
numbered i (x ∷ xs) = (i, x) ∷ numbered (suc i) xs
