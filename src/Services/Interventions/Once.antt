-- ===== src/Services/Interventions/Once.antt =====
-- An intervention is applied to a phase exactly once, and to each phase on its own.
use grand_line.Common.{
  ℕ, ◌≡◌, ◌≢◌, refl, ◌&&◌, not, Bool, true, false, List, [], ◌∷◌, arith, ap, if◌then◌else◌,
  contains-append, all_by, Bool-cases, inl, inr,
}
use grand_line.Model.World.{World, ActionRow}
use grand_line.Model.Exec.{ok}
use grand_line.Services.Interventions.{
  Drained, nothing_drained, take_up, is_due, stamp, drain_rows, drain_pending_interventions,
}

-- No row is due for the phase.
abbrev settled : ℕ → List ActionRow → Bool
settled n rows = all_by (λ r. not (is_due n r)) rows

clash : (a b : Bool) → a ≡ true → (not a && b) ≡ true → ⊥
clash a b h k = ground arith

rest : (a b : Bool) → (not a && b) ≡ true → b ≡ true
rest a b h = ground arith

stamped : (n : ℕ) (row : ActionRow) → is_due n (if is_due n row then stamp n row else row) ≡ false
stamped n row = elim (Bool-cases (is_due n row)) [
  | inl e ↦ rw e (ground (arith, contains-append n row.applied_phases (n ∷ [])))
  | inr e ↦ rw e e
]

drain_rows-settled :
    (n : ℕ) (rows : List ActionRow) (d : Drained) → settled n (drain_rows n rows d).0 ≡ true
unfolding drain_rows
drain_rows-settled n [] d = refl
drain_rows-settled n (row ∷ rows) d =
    rw (stamped n row)
      (drain_rows-settled n rows (if is_due n row then take_up row.action d else d))

settled-drain_rows :
    (n : ℕ) (rows : List ActionRow) (d : Drained)
    → settled n rows ≡ true
    → drain_rows n rows d ≡ (rows, d)
unfolding drain_rows
settled-drain_rows n [] d h = refl
settled-drain_rows n (row ∷ rows) d h = elim (Bool-cases (is_due n row)) [
  | inl e ↦ absurd (clash (is_due n row) (settled n rows) e h)
  | inr e ↦ rw (e, settled-drain_rows n rows d (rest (is_due n row) (settled n rows) h)) refl
]

-- Another phase's stamp does not change what is due for this one.
other_due : (n m : ℕ) (row : ActionRow) → n ≢ m → is_due m (stamp n row) ≡ is_due m row
other_due n m row h = ground (arith, contains-append m row.applied_phases (n ∷ []))

drain_rows-other :
    (n m : ℕ) (rows : List ActionRow) (d c : Drained)
    → n ≢ m
    → (drain_rows m (drain_rows n rows c).0 d).1 ≡ (drain_rows m rows d).1
unfolding drain_rows
drain_rows-other n m [] d c h = refl
drain_rows-other n m (row ∷ rows) d c h = elim (Bool-cases (is_due n row)) [
  | inl e ↦
      rw (e, other_due n m row h)
        (drain_rows-other n m rows (if is_due m row then take_up row.action d else d)
          (take_up row.action c) h)
  | inr e ↦ rw e (drain_rows-other n m rows (if is_due m row then take_up row.action d else d) c h)
]

-- After one drain for a phase a second one finds nothing and writes nothing.
pub drain_once :
    (n : ℕ) (w : World)
    → drain_pending_interventions n (drain_pending_interventions n w).1
      ≡ (ok nothing_drained, (drain_pending_interventions n w).1)
unfolding drain_pending_interventions
drain_once n w =
    rw
      (settled-drain_rows n (drain_rows n w.actions nothing_drained).0 nothing_drained
        (drain_rows-settled n w.actions nothing_drained))
      refl

-- A drain for one phase takes nothing away from another: that phase's drain returns the same texts.
pub drain_other :
    (n m : ℕ) (w : World)
    → n ≢ m
    → (drain_pending_interventions m (drain_pending_interventions n w).1).0
      ≡ (drain_pending_interventions m w).0
unfolding drain_pending_interventions
drain_other n m w h = ap ok (drain_rows-other n m w.actions nothing_drained nothing_drained h)
