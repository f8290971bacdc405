-- ===== src/Services/Interventions.antt =====
-- services/intervention_service.py: an agent takes up the interventions that target its phase.
pub mod Once
use grand_line.Common.{
  ℕ, String, ◌+◌, ◌&&◌, Bool, true, false, not, Option, none, some, List, [], ◌∷◌, ◌++◌, ◌==◌,
  str_eq, if◌then◌else◌, contains,
}
use grand_line.Model.World.{World, CrewAction, context_injected, phase_redirected, ActionRow}
use grand_line.Model.Exec.{Exec, ok}

-- `DrainedInterventions`, with the number of applied rows in place of the rows.
pub record Drained : Type 0 where
  pub injected_context : List String
  pub redirect_instruction : Option String
  pub applied_actions : ℕ

abbrev pub nothing_drained : Drained
nothing_drained = record { injected_context = []; redirect_instruction = none; applied_actions = 0 }

-- The row is of one of the two types and targets the phase; a global inject targets every phase.
abbrev pub targets : ℕ → CrewAction → Bool
targets n (context_injected context none) = true
targets n (context_injected context (some t)) = t == n
targets n (phase_redirected t instruction) = t == n
targets n _ = false

-- What a row adds: an empty text adds nothing, and a later redirect replaces an earlier one.
abbrev pub take_up : CrewAction → Drained → Drained
take_up (context_injected context target) d = record d {
  injected_context =
      if str_eq context "" then d.injected_context else d.injected_context ++ context ∷ [];
  applied_actions = d.applied_actions + 1;
}
take_up (phase_redirected target instruction) d = record d {
  redirect_instruction = if str_eq instruction "" then d.redirect_instruction else some instruction;
  applied_actions = d.applied_actions + 1;
}
take_up _ d = d

-- Whether the loop passes the row over.
abbrev pub is_due : ℕ → ActionRow → Bool
is_due n row = not (contains n row.applied_phases) && targets n row.action

abbrev pub stamp : ℕ → ActionRow → ActionRow
stamp n row = record row { applied_phases = row.applied_phases ++ n ∷ [] }

-- The loop over the rows of the voyage, oldest first.
unfoldable pub drain_rows : ℕ → List ActionRow → Drained → List ActionRow × Drained
drain_rows n [] d = ([], d)
drain_rows n (row ∷ rows) d =
    let due = is_due n row in
    let (rows', d') = drain_rows n rows (if due then take_up row.action d else d) in
    ((if due then stamp n row else row) ∷ rows', d')

unfoldable pub drain_pending_interventions : ℕ → Exec Drained
unfolding drain_rows
drain_pending_interventions n w =
    let (rows, d) = drain_rows n w.actions nothing_drained in (ok d, record w { actions = rows })
