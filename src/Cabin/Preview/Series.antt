-- ===== src/Cabin/Preview/Series.antt =====
-- Series of calls of services/preview_service.py.
use grand_line.Common.{
  ℕ, ◌≡◌, refl, ◌∙◌, sym, Bool, true, false, Option, none, some, List, [], ◌∷◌, String, ◌==◌, inl,
  inr, arith, if◌then◌else◌, Bool-cases, lookup,
}
use grand_line.Cabin.Preview.{
  CabinOps, PreviewRecord, Previews, stop_preview, start_preview, is_old, reap_record, reap_records,
  reap_expired, stop_each, stop_all,
}
use grand_line.Cabin.Preview.Laws.{
  CabinLaws, IsTracked, stop_preview-IsTracked, start_preview-IsTracked,
}

-- A call of the service that changes its state, with times and fresh ids.
pub data PreviewCall : Type 0 where
  start : ℕ → ℕ → ℕ → ℕ → Option String → PreviewCall
  stop : ℕ → PreviewCall
  reap : ℕ → PreviewCall
  stop_everything : PreviewCall

module _ {S : Type 0} (ops : CabinOps S) (default_command : String) (max_lifetime : ℕ) where
  unfoldable pub serve_previews : List PreviewCall → Previews S → Previews S
  unfolding start_preview stop_preview reap_expired stop_all
  serve_previews [] w = w
  serve_previews (start now user sid preview command ∷ cs) w =
      serve_previews cs
        (start_preview ops default_command max_lifetime now user sid preview command w).1
  serve_previews (stop user ∷ cs) w =
      serve_previews cs (stop_preview ops default_command max_lifetime user w)
  serve_previews (reap now ∷ cs) w =
      serve_previews cs (reap_expired ops default_command max_lifetime now w).1
  serve_previews (stop_everything ∷ cs) w =
      serve_previews cs (stop_all ops default_command max_lifetime w)

-- A row that is left where one user's may be gone.
left :
    (user v : ℕ) (o : Option PreviewRecord) (r : PreviewRecord)
    → (if user == v then none else o) ≡ some r
    → ((user == v) ≡ false) × (o ≡ some r)
left user v o r e = elim (Bool-cases (user == v)) [
  | inl h ↦ let clash : none ≡ some r = rw h at e in absurd (cc)
  | inr h ↦ (h, rw h at e)
]

module _ {S : Type 0} (ops : CabinOps S) (laws : CabinLaws ops) (default_command : String)
    (max_lifetime : ℕ) where
  -- What a loop that stops previews leaves: fewer rows, and of those that it saw only the `Kept`.
  abbrev IsThinned :
      (PreviewRecord → Type 0) → List (ℕ × PreviewRecord) → Previews S → Previews S → Type 0
  IsThinned Kept seen w w' =
      IsTracked ops laws w'
      × ((v : ℕ) (r : PreviewRecord)
          → lookup v w'.0 ≡ some r
          → (lookup v w.0 ≡ some r) × (lookup v seen ≡ some r → Kept r))

  reap_record-IsTracked :
      (now user : ℕ) (r : PreviewRecord) (w : Previews S) (old : Bool)
      → IsTracked ops laws w
      → is_old ops default_command max_lifetime now r ≡ old
      → IsThinned
          (λ q. is_old ops default_command max_lifetime now q ≡ false)
          ((user, r) ∷ [])
          w
          (reap_record ops default_command max_lifetime old user w)
  reap_record-IsTracked now user r w true tracked e =
      let (tracked', rows) =
        stop_preview-IsTracked ops laws default_command max_lifetime user w tracked in
      (
        tracked',
        λ v q found.
            let (other, before) = left user v (lookup v w.0) q (sym (rows v) ∙ found) in
            (before, λ seen. ground arith),
      )
  reap_record-IsTracked now user r w false tracked e =
      (tracked, λ v q found. (found, λ seen. ground arith))

  reap_records-IsThinned :
      (now : ℕ) (seen : List (ℕ × PreviewRecord)) (w : Previews S)
      → IsTracked ops laws w
      → IsThinned
          (λ q. is_old ops default_command max_lifetime now q ≡ false)
          seen
          w
          (reap_records ops default_command max_lifetime now seen w).1
  unfolding reap_records
  reap_records-IsThinned now [] w tracked = (tracked, λ v q found. (found, λ seen. cc))
  reap_records-IsThinned now ((user, r) ∷ seen) w tracked =
      let old = is_old ops default_command max_lifetime now r in
      let (tracked', one) = reap_record-IsTracked now user r w old tracked refl in
      let (tracked'', more) =
        reap_records-IsThinned now seen (reap_record ops default_command max_lifetime old user w)
          tracked' in
      (
        tracked'',
        λ v q found.
            let (middle, kept) = more v q found in
            let (before, first) = one v q middle in
            (
              before,
              λ e. elim (Bool-cases (user == v)) [
                | inl h ↦ first (rw h (rw h at e))
                | inr h ↦ kept (rw h at e)
              ],
            ),
      )

  stop_each-IsThinned :
      (seen : List (ℕ × PreviewRecord)) (w : Previews S)
      → IsTracked ops laws w
      → IsThinned (λ q. ⊥) seen w (stop_each ops default_command max_lifetime seen w)
  unfolding stop_each
  stop_each-IsThinned [] w tracked = (tracked, λ v q found. (found, λ seen. cc))
  stop_each-IsThinned ((user, r) ∷ seen) w tracked =
      let (tracked', rows) =
        stop_preview-IsTracked ops laws default_command max_lifetime user w tracked in
      let (tracked'', more) =
        stop_each-IsThinned seen (stop_preview ops default_command max_lifetime user w) tracked' in
      (
        tracked'',
        λ v q found.
            let (middle, kept) = more v q found in
            let (other, before) = left user v (lookup v w.0) q (sym (rows v) ∙ middle) in
            (before, λ e. kept (rw other at e)),
      )

  serve_previews-IsTracked :
      (cs : List PreviewCall) (w : Previews S)
      → IsTracked ops laws w
      → IsTracked ops laws (serve_previews ops default_command max_lifetime cs w)
  unfolding serve_previews reap_expired stop_all
  serve_previews-IsTracked [] w tracked = tracked
  serve_previews-IsTracked (start now user sid preview command ∷ cs) w tracked =
      serve_previews-IsTracked cs
        (start_preview ops default_command max_lifetime now user sid preview command w).1
        (start_preview-IsTracked ops laws default_command max_lifetime now user sid preview command
          w tracked)
  serve_previews-IsTracked (stop user ∷ cs) w tracked =
      serve_previews-IsTracked cs (stop_preview ops default_command max_lifetime user w)
        (stop_preview-IsTracked ops laws default_command max_lifetime user w tracked).0
  serve_previews-IsTracked (reap now ∷ cs) w tracked =
      serve_previews-IsTracked cs (reap_expired ops default_command max_lifetime now w).1
        (reap_records-IsThinned now w.0 w tracked).0
  serve_previews-IsTracked (stop_everything ∷ cs) w tracked =
      serve_previews-IsTracked cs (stop_all ops default_command max_lifetime w)
        (stop_each-IsThinned w.0 w tracked).0

  -- Where the Cabins keep their promise and nothing runs at first, then after every series of calls
  -- and one more of the reaper, all that runs for a user is the one preview of the registry, which
  -- is younger than the limit; and after `stop_all` nothing runs.
  pub serve_previews-reaped :
      (cs : List PreviewCall) (now : ℕ) (s : S)
      → ((v sid : ℕ) → laws.Runs s v sid → ⊥)
      → ((v sid : ℕ)
          → laws.Runs
              (reap_expired ops default_command max_lifetime now
                (serve_previews ops default_command max_lifetime cs ([], s))).1.1
              v
              sid
          → (r : PreviewRecord) × (lookup v
                (reap_expired ops default_command max_lifetime now
                  (serve_previews ops default_command max_lifetime cs ([], s))).1.0
              ≡ some r)
            × (r.service_id ≡ sid)
            × (is_old ops default_command max_lifetime now r ≡ false))
        × ((v sid : ℕ)
            → laws.Runs
                (stop_all ops default_command max_lifetime
                  (serve_previews ops default_command max_lifetime cs ([], s))).1
                v
                sid
            → ⊥)
  unfolding reap_expired stop_all
  serve_previews-reaped cs now s quiet =
      let w = serve_previews ops default_command max_lifetime cs ([], s) in
      let tracked = serve_previews-IsTracked cs ([], s) (λ v sid runs. absurd (quiet v sid runs)) in
      let (young, thinned) = reap_records-IsThinned now w.0 w tracked in
      let (none_left, emptied) = stop_each-IsThinned w.0 w tracked in
      (
        λ v sid runs.
            let (r, found, same) = young v sid runs in
            let (before, kept) = thinned v r found in (r, found, same, kept before),
        λ v sid runs.
            let (r, found, same) = none_left v sid runs in
            let (before, gone) = emptied v r found in gone before,
      )
