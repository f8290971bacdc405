-- ===== src/Services/Cabins/Laws.antt =====
-- The users of the registry are distinct, and the reaper takes exactly the expired Cabins.
use grand_line.Common.{
  ℕ, ◌≡◌, refl, sym, ◌∙◌, ap, String, Bool, true, false, not, ◌&&◌, ◌||◌, Option, none, some, List,
  [], ◌∷◌, ◌++◌, ◌==◌, ==_refl, arith, contains, keep, Bool-cases, inl, inr,
}
use grand_line.Services.Cabins.{
  CabinRecord, Answer, gives, fails, Work, CabinCall, CabinBackend, Cabins, pop_cabin, touch,
  called, ensure_cabin, ensure_with, stamp_ensured, stamp_worked, work_ensured, work_in_cabin,
  destroy_found, is_expired, reap_row, reap_each, reveal_all, materialized_kinds,
}

abbrev pub users : List (ℕ × CabinRecord) → List ℕ
users [] = []
users ((u, r) ∷ rows) = u ∷ users rows

abbrev pub distinct : List (ℕ × CabinRecord) → Bool
distinct [] = true
distinct ((u, r) ∷ rows) = not (contains u (users rows)) && distinct rows

users-touch :
    (now user v : ℕ) (rows : List (ℕ × CabinRecord))
    → contains v (users (touch now user rows)) ≡ (contains v (users rows) || (user == v))
users-touch now user v [] = ground arith
users-touch now user v ((u, r) ∷ rows) = ground (arith, users-touch now user v rows)

distinct-touch :
    (now user : ℕ) (rows : List (ℕ × CabinRecord))
    → distinct rows ≡ true
    → distinct (touch now user rows) ≡ true
distinct-touch now user [] h = refl
distinct-touch now user ((u, r) ∷ rows) h =
    ground (arith, distinct-touch now user rows, users-touch now user u rows)

users-pop :
    (user v : ℕ) (rows : List (ℕ × CabinRecord))
    → contains v (users rows) ≡ false
    → contains v (users (pop_cabin user rows)) ≡ false
users-pop user v [] h = refl
users-pop user v ((u, r) ∷ rows) h = ground (arith, users-pop user v rows)

distinct-pop :
    (user : ℕ) (rows : List (ℕ × CabinRecord))
    → distinct rows ≡ true
    → distinct (pop_cabin user rows) ≡ true
distinct-pop user [] h = refl
distinct-pop user ((u, r) ∷ rows) h = ground (arith, distinct-pop user rows, users-pop user u rows)

contains-users :
    (v : ℕ) (ks rows : List (ℕ × CabinRecord))
    → contains v (users (ks ++ rows)) ≡ (contains v (users ks) || contains v (users rows))
contains-users v [] rows = refl
contains-users v ((k, q) ∷ ks) rows = ground (arith, contains-users v ks rows)

distinct-middle :
    (ks rows : List (ℕ × CabinRecord)) (u : ℕ) (r : CabinRecord)
    → distinct (ks ++ (u, r) ∷ rows) ≡ true
    → contains u (users ks) ≡ false
distinct-middle [] rows u r h = refl
distinct-middle ((k, q) ∷ ks) rows u r h =
    ground (arith, distinct-middle ks rows u r, contains-users k ks ((u, r) ∷ rows))

pop-middle :
    (ks rows : List (ℕ × CabinRecord)) (u : ℕ) (r : CabinRecord)
    → contains u (users ks) ≡ false
    → pop_cabin u (ks ++ (u, r) ∷ rows) ≡ ks ++ rows
pop-middle [] rows u r h = ground (arith, ==_refl u)
pop-middle ((k, q) ∷ ks) rows u r h = ground (arith, pop-middle ks rows u r)

++-snoc :
    (ks : List (ℕ × CabinRecord)) (k : ℕ × CabinRecord) (rows : List (ℕ × CabinRecord))
    → (ks ++ k ∷ []) ++ rows ≡ ks ++ k ∷ rows
++-snoc [] k rows = refl
++-snoc (j ∷ ks) k rows = ap (λ js. j ∷ js) (++-snoc ks k rows)

++-nil : (ks : List (ℕ × CabinRecord)) → ks ++ [] ≡ ks
++-nil [] = refl
++-nil (k ∷ ks) = ap (λ js. k ∷ js) (++-nil ks)

module _ (backend : CabinBackend) (idle_limit max_lifetime : ℕ) where
  abbrev pub is_dead : ℕ → ℕ × CabinRecord → Bool
  is_dead now row = is_expired backend idle_limit max_lifetime now row.1

  abbrev pub is_alive : ℕ → ℕ × CabinRecord → Bool
  is_alive now row = not (is_dead now row)

  pub reap_each-users :
      (now : ℕ) (rows : List (ℕ × CabinRecord)) (s : Cabins)
      → (reap_each backend idle_limit max_lifetime now rows s).0 ≡ users (keep (is_dead now) rows)
  unfolding reap_each
  reap_each-users now [] s = refl
  reap_each-users now ((u, r) ∷ rows) s = elim (Bool-cases (is_dead now (u, r))) [
    | inl e ↦ rw e (ap (λ us. u ∷ us) (reap_each-users now rows _))
    | inr e ↦ rw e (reap_each-users now rows s)
  ]

  pub reap_each-rows :
      (now : ℕ) (rows ks : List (ℕ × CabinRecord)) (s : Cabins)
      → s.rows ≡ ks ++ rows
      → distinct (ks ++ rows) ≡ true
      → (reap_each backend idle_limit max_lifetime now rows s).1.rows
        ≡ ks ++ keep (is_alive now) rows
  unfolding reap_each
  reap_each-rows now [] ks s e h = e
  reap_each-rows now ((u, r) ∷ rows) ks s e h =
      let popped = pop-middle ks rows u r (distinct-middle ks rows u r h) in
      elim (Bool-cases (is_dead now (u, r))) [
        | inl d ↦ rw d (
            reap_each-rows now rows ks
              (called (CabinCall.destroyed u) (record s { rows = pop_cabin u s.rows }))
              (ap (pop_cabin u) e ∙ popped)
              (ap distinct (sym popped) ∙ distinct-pop u (ks ++ (u, r) ∷ rows) h))
        | inr d ↦ rw d (
            reap_each-rows now rows (ks ++ (u, r) ∷ []) s (e ∙ sym (++-snoc ks (u, r) rows))
              (ap distinct (++-snoc ks (u, r) rows) ∙ h)
            ∙ ++-snoc ks (u, r) (keep (is_alive now) rows))
      ]

  stamp_ensured-distinct :
      (now user : ℕ) (a : Answer Unit) (s : Cabins)
      → distinct s.rows ≡ true
      → distinct (stamp_ensured backend idle_limit max_lifetime now user a s).1.rows ≡ true
  stamp_ensured-distinct now user (fails e) s h = h
  stamp_ensured-distinct now user (gives u) s h = distinct-touch now user s.rows h

  ensure_with-distinct :
      (now user : ℕ) (a : Answer (List (String × String))) (s : Cabins)
      → distinct s.rows ≡ true
      → distinct (ensure_with backend idle_limit max_lifetime now user a s).1.rows ≡ true
  ensure_with-distinct now user (fails e) s h = h
  ensure_with-distinct now user (gives secrets) s h =
      stamp_ensured-distinct now user (backend.ensure s.calls user)
        (called (CabinCall.ensured user secrets) s) h

  pub ensure_cabin-distinct :
      (now user : ℕ) (s : Cabins)
      → distinct s.rows ≡ true
      → distinct (ensure_cabin backend idle_limit max_lifetime now user s).1.rows ≡ true
  unfolding ensure_cabin
  ensure_cabin-distinct now user s h =
      ensure_with-distinct now user
        (reveal_all backend idle_limit max_lifetime user materialized_kinds) s h

  stamp_worked-distinct :
      (now user : ℕ) (a : Answer String) (s : Cabins)
      → distinct s.rows ≡ true
      → distinct (stamp_worked backend idle_limit max_lifetime now user a s).1.rows ≡ true
  stamp_worked-distinct now user (fails e) s h = h
  stamp_worked-distinct now user (gives out) s h = distinct-touch now user s.rows h

  work_ensured-distinct :
      (now user : ℕ) (w : Work) (a : Answer String) (s : Cabins)
      → distinct s.rows ≡ true
      → distinct (work_ensured backend idle_limit max_lifetime now user w (a, s)).1.rows ≡ true
  work_ensured-distinct now user w (fails e) s h = h
  work_ensured-distinct now user w (gives status) s h =
      stamp_worked-distinct now user (backend.work s.calls user w)
        (called (CabinCall.worked user w) s) h

  pub work_in_cabin-distinct :
      (now later user : ℕ) (w : Work) (s : Cabins)
      → distinct s.rows ≡ true
      → distinct (work_in_cabin backend idle_limit max_lifetime now later user w s).1.rows ≡ true
  unfolding work_in_cabin
  work_in_cabin-distinct now later user w s h =
      let (a, s') = ensure_cabin backend idle_limit max_lifetime now user s in
      work_ensured-distinct later user w a s' (ensure_cabin-distinct now user s h)

  pub destroy_found-distinct :
      (user : ℕ) (o : Option CabinRecord) (s : Cabins)
      → distinct s.rows ≡ true
      → distinct (destroy_found backend idle_limit max_lifetime user o s).1.rows ≡ true
  destroy_found-distinct user none s h = h
  destroy_found-distinct user (some r) s h = distinct-pop user s.rows h

  reap_row-distinct :
      (b : Bool) (user : ℕ) (s : Cabins)
      → distinct s.rows ≡ true
      → distinct (reap_row backend idle_limit max_lifetime b user s).rows ≡ true
  reap_row-distinct false user s h = h
  reap_row-distinct true user s h = distinct-pop user s.rows h

  pub reap_each-distinct :
      (now : ℕ) (rows : List (ℕ × CabinRecord)) (s : Cabins)
      → distinct s.rows ≡ true
      → distinct (reap_each backend idle_limit max_lifetime now rows s).1.rows ≡ true
  unfolding reap_each
  reap_each-distinct now [] s h = h
  reap_each-distinct now ((u, r) ∷ rows) s h =
      let dead = is_dead now (u, r) in
      reap_each-distinct now rows (reap_row backend idle_limit max_lifetime dead u s)
        (reap_row-distinct dead u s h)
