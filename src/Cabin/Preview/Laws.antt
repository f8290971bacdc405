-- ===== src/Cabin/Preview/Laws.antt =====
-- The contract of the Cabins as the preview service needs it, and single calls of
-- services/preview_service.py under it.
use grand_line.Common.{
  ℕ, ◌≡◌, refl, ap, ◌∙◌, sym, true, Option, none, some, List, String, ◌==◌, ◌⊎◌, inl, inr, ==_refl,
  arith, if◌then◌else◌, Bool-cases, lookup, lookup-store, lookup-erase,
}
use grand_line.Cabin.Null.{ServiceHandle}
use grand_line.Cabin.Preview.{
  CabinFailure, Outcome, ok, raise, CabinOps, PreviewRecord, Previews, stop_record, stop_preview,
  record_of, started, start_ensured, start_preview, resolved_command,
}

no_handle : (f : CabinFailure) (h : ServiceHandle) → raise f ≡ ok h → ⊥
no_handle f h e = cc

nothing : (r : PreviewRecord) → none ≡ some r → ⊥
nothing r e = cc

-- What the Cabins promise, by the services that run: a call for a user starts and stops nothing but
-- what it names.
pub record CabinLaws {S : Type 0} (ops : CabinOps S) : Type 1 where
  pub Runs : S → ℕ → ℕ → Type 0
  pub ensure-Runs :
      (now u : ℕ) (s : S) (v sid : ℕ) → Runs (ops.ensure now u s).1 v sid → Runs s v sid
  pub start-Runs :
      (now id u : ℕ) (command : String) (s : S) (v sid : ℕ)
      → Runs (ops.start_service now id u command s).1 v sid
      → Runs s v sid
        ⊎ ((h : ServiceHandle) × ((ops.start_service now id u command s).0 ≡ ok h)
            × (u ≡ v)
            × (h.service_id ≡ sid))
  pub stop-Runs :
      (u id : ℕ) (s : S) (v sid : ℕ)
      → Runs (ops.stop_service u id s).1 v sid
      → Runs s v sid × (((u == v) ≡ true) → ((id == sid) ≡ true) → ⊥)

module _ {S : Type 0} (ops : CabinOps S) (laws : CabinLaws ops) where
  -- Whatever runs for a user is the preview that the registry has for this user.
  abbrev pub IsTracked : Previews S → Type 0
  IsTracked w =
      (v sid : ℕ)
      → laws.Runs w.1 v sid
      → (r : PreviewRecord) × (lookup v w.0 ≡ some r) × (r.service_id ≡ sid)

  module _ (default_command : String) (max_lifetime : ℕ) where
    stop_record-rows :
        (user : ℕ) (o : Option PreviewRecord) (w : Previews S)
        → lookup user w.0 ≡ o
        → (v : ℕ)
        → lookup v (stop_record ops default_command max_lifetime user o w).0
          ≡ (if user == v then none else lookup v w.0)
    stop_record-rows user none w e v = elim (Bool-cases (user == v)) [
      | inl h ↦ let same : user ≡ v = ground arith in rw h (ap (λ k. lookup k w.0) (sym same) ∙ e)
      | inr h ↦ rw h refl
    ]
    stop_record-rows user (some r) (rows, s) e v = lookup-erase v user rows

    stop_record-IsTracked :
        (user : ℕ) (o : Option PreviewRecord) (w : Previews S)
        → lookup user w.0 ≡ o
        → IsTracked w
        → IsTracked (stop_record ops default_command max_lifetime user o w)
    stop_record-IsTracked user none w e tracked v sid runs = tracked v sid runs
    stop_record-IsTracked user (some r) (rows, s) e tracked v sid runs =
        let (before, other) = laws.stop-Runs user r.service_id s v sid runs in
        let (r', found, same) = tracked v sid before in
        elim (Bool-cases (user == v)) [
          | inl h ↦
              let equal : user ≡ v = ground arith in
              let agree : some r ≡ some r' = sym e ∙ ap (λ k. lookup k rows) equal ∙ found in
              absurd (other h (ground arith))
          | inr h ↦ (r', lookup-erase v user rows ∙ rw h found, same)
        ]

    pub stop_preview-IsTracked :
        (user : ℕ) (w : Previews S)
        → IsTracked w
        → IsTracked (stop_preview ops default_command max_lifetime user w)
          × ((v : ℕ)
              → lookup v (stop_preview ops default_command max_lifetime user w).0
                ≡ (if user == v then none else lookup v w.0))
    unfolding stop_preview
    stop_preview-IsTracked user w tracked = (
      stop_record-IsTracked user (lookup user w.0) w refl tracked,
      stop_record-rows user (lookup user w.0) w refl,
    )

    started-IsTracked :
        (now user preview id : ℕ) (command : String) (rows : List (ℕ × PreviewRecord)) (s : S)
        (o : Outcome CabinFailure ServiceHandle)
        → (ops.start_service now id user command s).0 ≡ o
        → lookup user rows ≡ none
        → IsTracked (rows, s)
        → IsTracked
            (started ops default_command max_lifetime now user preview rows
              (o, (ops.start_service now id user command s).1)).1
    started-IsTracked now user preview id command rows s (raise f) e free tracked v sid runs =
        elim (laws.start-Runs now id user command s v sid runs) [
          | inl before ↦ tracked v sid before
          | inr (h, made, _, _) ↦ absurd (no_handle f h (sym e ∙ made))
        ]
    started-IsTracked now user preview id command rows s (ok g) e free tracked v sid runs =
        elim (laws.start-Runs now id user command s v sid runs) [
          | inl before ↦
              let (r, found, same) = tracked v sid before in
              elim (Bool-cases (user == v)) [
                | inl h ↦
                    let equal : user ≡ v = ground arith in
                    absurd (nothing r (sym free ∙ ap (λ k. lookup k rows) equal ∙ found))
                | inr h ↦ (
                  r,
                  lookup-store v user (record_of ops default_command max_lifetime now preview g)
                        rows
                      ∙ rw h found,
                  same,
                )
              ]
          | inr (h, made, equal, same) ↦
              let agree : ok g ≡ ok h = sym e ∙ made in
              let rec = record_of ops default_command max_lifetime now preview g in
              let here : (user == v) ≡ true = ground arith in
              (rec, lookup-store v user rec rows ∙ rw here refl, ground arith)
        ]

    start_ensured-IsTracked :
        (now user preview id : ℕ) (command : String) (rows : List (ℕ × PreviewRecord)) (s : S)
        (o : Outcome CabinFailure Unit)
        → lookup user rows ≡ none
        → IsTracked (rows, s)
        → IsTracked
            (start_ensured ops default_command max_lifetime now user id preview command rows
              (o, s)).1
    start_ensured-IsTracked now user preview id command rows s (raise f) free tracked = tracked
    start_ensured-IsTracked now user preview id command rows s (ok _) free tracked =
        started-IsTracked now user preview id command rows s
          (ops.start_service now id user command s).0 refl free tracked

    pub start_preview-IsTracked :
        (now user id preview : ℕ) (command : Option String) (w : Previews S)
        → IsTracked w
        → IsTracked (start_preview ops default_command max_lifetime now user id preview command w).1
    unfolding start_preview
    start_preview-IsTracked now user id preview command w tracked =
        let stopped = stop_preview ops default_command max_lifetime user w in
        let (tracked', rows) = stop_preview-IsTracked user w tracked in
        start_ensured-IsTracked now user preview id
          (resolved_command ops default_command max_lifetime command) stopped.0
          (ops.ensure now user stopped.1).1 (ops.ensure now user stopped.1).0
          (rows user ∙ rw (==_refl user) refl)
          (λ v sid runs. tracked' v sid (laws.ensure-Runs now user stopped.1 v sid runs))
