-- ===== src/Cabin/Preview/Promise.antt =====
-- The contract of the preview service for the null backend of cabin/null_backend.py.
use grand_line.Common.{
  ℕ, ◌≡◌, refl, ap, ◌∙◌, sym, Bool, true, false, Option, none, some, List, [], String, ◌==◌, Text,
  ◌⊎◌, inl, inr, arith, Bool-cases, lookup, lookup-store, store,
}
use grand_line.Cabin.Null.{
  NullCabin, NullCabins, NullService, ServiceHandle, running, stopped, kinds_of, null_ensure,
  null_start_service, null_stop_service, service_of, ensured_cabin, start_found, stop_found,
  stop_in, add_service, bound_port, active_at,
}
use grand_line.Cabin.Preview.{
  CabinFailure, Outcome, ok, raise, PreviewRecord, is_old, reap_expired, stop_all,
}
use grand_line.Cabin.Preview.Series.{PreviewCall, serve_previews, serve_previews-reaped}
use grand_line.Cabin.Preview.Laws.{CabinLaws}
use grand_line.Cabin.Preview.OverNull.{
  Chest, ensure_secrets, ensure_null, handle_of, start_if_ensured, start_null, null_ops, runs_now,
  RunsNull,
}

ensured-services :
    (now sid : ℕ) (kinds allow : List Text) (o : Option NullCabin)
    → service_of sid (some (ensured_cabin now kinds allow o)) ≡ service_of sid o
ensured-services now sid kinds allow none = refl
ensured-services now sid kinds allow (some c) = refl

-- What runs after a row was stored runs in that row, or ran before.
stored-RunsNull :
    (u : ℕ) (c : NullCabin) (s : NullCabins) (v sid : ℕ)
    → RunsNull (store u c s) v sid
    → ((u ≡ v) × (runs_now (lookup sid c.services) ≡ true))
      ⊎ (((u == v) ≡ false) × RunsNull s v sid)
stored-RunsNull u c s v sid runs = elim (Bool-cases (u == v)) [
  | inl h ↦ inl (ground arith, rw (lookup-store v u c s, h) at runs)
  | inr h ↦ inr (h, rw (lookup-store v u c s, h) at runs)
]

null_ensure-RunsNull :
    (now u : ℕ) (secrets : List (Text × Text)) (allow : List Text) (s : NullCabins) (v sid : ℕ)
    → RunsNull (null_ensure now u secrets allow s).1 v sid
    → RunsNull s v sid
unfolding null_ensure
null_ensure-RunsNull now u secrets allow s v sid runs =
    elim (stored-RunsNull u (ensured_cabin now (kinds_of secrets) allow (lookup u s)) s v sid
      runs) [
        | inl (same, r) ↦
            ap (λ k. runs_now (service_of sid (lookup k s))) (sym same)
            ∙ ap runs_now (sym (ensured-services now sid (kinds_of secrets) allow (lookup u s)))
            ∙ r
        | inr (_, r) ↦ r
      ]

ensure_secrets-RunsNull :
    (chest : Chest) (allow : List Text) (now u : ℕ) (o : Outcome CabinFailure (List (Text × Text)))
    (s : NullCabins) (v sid : ℕ)
    → RunsNull (ensure_secrets chest allow now u o s).1 v sid
    → RunsNull s v sid
ensure_secrets-RunsNull chest allow now u (raise e) s v sid runs = runs
ensure_secrets-RunsNull chest allow now u (ok secrets) s v sid runs =
    null_ensure-RunsNull now u secrets allow s v sid runs

ensure_null-RunsNull :
    (chest : Chest) (allow : List Text) (now u : ℕ) (s : NullCabins) (v sid : ℕ)
    → RunsNull (ensure_null chest allow now u s).1 v sid
    → RunsNull s v sid
unfolding ensure_null
ensure_null-RunsNull chest allow now u s = ensure_secrets-RunsNull chest allow now u (chest u) s

-- A service that runs is the one that was started, or ran before.
abbrev IsNewOr : Outcome CabinFailure ServiceHandle × NullCabins → ℕ → NullCabins → ℕ → ℕ → Type 0
IsNewOr res u s v sid =
    RunsNull s v sid ⊎ ((h : ServiceHandle) × (res.0 ≡ ok h) × (u ≡ v) × (h.service_id ≡ sid))

start_found-RunsNull :
    (chest : Chest) (allow : List Text) (now u id : ℕ) (o : Option NullCabin) (s : NullCabins)
    (v sid : ℕ)
    → lookup u s ≡ o
    → RunsNull (handle_of chest allow (start_found now u id none o s)).1 v sid
    → IsNewOr (handle_of chest allow (start_found now u id none o s)) u s v sid
start_found-RunsNull chest allow now u id none s v sid e runs = inl runs
start_found-RunsNull chest allow now u id (some c) s v sid e runs =
    elim (stored-RunsNull u (add_service id (bound_port none c) (active_at now c)) s v sid runs) [
      | inl (same, r) ↦ elim (Bool-cases (id == sid)) [
        | inl h ↦ inr (_, refl, same, ground arith)
        | inr h ↦ inl (
            ap (λ k. runs_now (service_of sid (lookup k s))) (sym same)
            ∙ ap (λ o. runs_now (service_of sid o)) e
            ∙ (rw
                (
                  lookup-store sid id (record { port = bound_port none c; status = running })
                      c.services,
                  h,
                )
                at r))
      ]
      | inr (_, r) ↦ inl r
    ]

start_if_ensured-RunsNull :
    (chest : Chest) (allow : List Text) (now id u : ℕ) (command : String)
    (o : Outcome CabinFailure Unit) (s : NullCabins) (v sid : ℕ)
    → RunsNull (start_if_ensured chest allow now id u command (o, s)).1 v sid
    → IsNewOr (start_if_ensured chest allow now id u command (o, s)) u s v sid
unfolding null_start_service
start_if_ensured-RunsNull chest allow now id u command (raise e) s v sid runs = inl runs
start_if_ensured-RunsNull chest allow now id u command (ok _) s v sid runs =
    start_found-RunsNull chest allow now u id (lookup u s) s v sid refl runs

start_null-RunsNull :
    (chest : Chest) (allow : List Text) (now id u : ℕ) (command : String) (s : NullCabins)
    (v sid : ℕ)
    → RunsNull (start_null chest allow now id u command s).1 v sid
    → IsNewOr (start_null chest allow now id u command s) u s v sid
unfolding start_null
start_null-RunsNull chest allow now id u command s v sid runs =
    let (o, s') = ensure_null chest allow now u s in
    elim (start_if_ensured-RunsNull chest allow now id u command o s' v sid runs) [
      | inl r ↦ inl (ensure_null-RunsNull chest allow now u s v sid r)
      | inr n ↦ inr n
    ]

differ : (b : Bool) → b ≡ true → b ≡ false → ⊥
differ b h k = cc

-- A service that runs in a Cabin after one was stopped ran before, and is another one.
stop_in-runs :
    (id : ℕ) (c : NullCabin) (o : Option NullService) (sid : ℕ)
    → lookup id c.services ≡ o
    → runs_now (lookup sid (stop_in id o c).services) ≡ true
    → (runs_now (lookup sid c.services) ≡ true) × ((id == sid) ≡ false)
stop_in-runs id c none sid e runs = elim (Bool-cases (id == sid)) [
  | inl h ↦
      let same : id ≡ sid = ground arith in
      let clash : false ≡ true =
        ap runs_now (sym e) ∙ ap (λ k. runs_now (lookup k c.services)) same ∙ runs in
      absurd (cc)
  | inr h ↦ (runs, h)
]
stop_in-runs id c (some x) sid e runs =
    let halted = record x { status = stopped } in
    elim (Bool-cases (id == sid)) [
      | inl h ↦
          let clash : false ≡ true = rw (lookup-store sid id halted c.services, h) at runs in
          absurd (cc)
      | inr h ↦ (rw (lookup-store sid id halted c.services, h) at runs, h)
    ]

stop_found-RunsNull :
    (u id : ℕ) (o : Option NullCabin) (s : NullCabins) (v sid : ℕ)
    → lookup u s ≡ o
    → RunsNull (stop_found u id o s) v sid
    → RunsNull s v sid × (((u == v) ≡ true) → ((id == sid) ≡ true) → ⊥)
stop_found-RunsNull u id none s v sid e runs = (
  runs,
  λ h k.
      let same : u ≡ v = ground arith in
      let clash : false ≡ true =
        ap (λ o. runs_now (service_of sid o)) (sym e)
        ∙ ap (λ k. runs_now (service_of sid (lookup k s))) same
        ∙ runs in
      absurd (cc),
)
stop_found-RunsNull u id (some c) s v sid e runs =
    elim (stored-RunsNull u (stop_in id (lookup id c.services) c) s v sid runs) [
      | inl (same, r) ↦
          let (before, other) = stop_in-runs id c (lookup id c.services) sid refl r in
          (
            ap (λ k. runs_now (service_of sid (lookup k s))) (sym same)
                ∙ ap (λ o. runs_now (service_of sid o)) e
                ∙ before,
            λ h k. absurd (differ (id == sid) k other),
          )
      | inr (h, r) ↦ (r, λ k _. absurd (differ (u == v) k h))
    ]

-- The null backend keeps the promise, whatever the Sea Chest answers.
unfoldable null_laws : (chest : Chest) (allow : List Text) → CabinLaws (null_ops chest allow)
unfolding null_stop_service
null_laws chest allow = record {
  Runs = RunsNull;
  ensure-Runs = ensure_null-RunsNull chest allow;
  start-Runs = start_null-RunsNull chest allow;
  stop-Runs = λ u id s v sid. stop_found-RunsNull u id (lookup u s) s v sid refl;
}

-- Over the null backend, from empty registries, after every series of calls of the preview service and
-- one more of its reaper, all that runs for a user is the one preview of the registry, which is
-- younger than the limit; and `stop_all` after the series leaves nothing running.
pub null_previews-reaped :
    (chest : Chest) (allow : List Text) (default_command : String) (max_lifetime : ℕ)
    (cs : List PreviewCall) (now : ℕ)
    → ((v sid : ℕ)
        → RunsNull
            (reap_expired
              (null_ops chest allow)
              default_command
              max_lifetime
              now
              (serve_previews (null_ops chest allow) default_command max_lifetime cs ([], []))).1.1
            v
            sid
        → (r : PreviewRecord) × (lookup v
              (reap_expired (null_ops chest allow) default_command max_lifetime now (
                serve_previews (null_ops chest allow) default_command max_lifetime cs ([], []))).1.0
            ≡ some r)
          × (r.service_id ≡ sid)
          × (is_old (null_ops chest allow) default_command max_lifetime now r ≡ false))
      × ((v sid : ℕ)
          → RunsNull
              (stop_all
                (null_ops chest allow)
                default_command
                max_lifetime
                (serve_previews (null_ops chest allow) default_command max_lifetime cs ([], []))).1
              v
              sid
          → ⊥)
unfolding null_laws
null_previews-reaped chest allow default_command max_lifetime cs now =
    serve_previews-reaped (null_ops chest allow) (null_laws chest allow) default_command
      max_lifetime cs now [] (λ v sid runs. absurd (cc))
