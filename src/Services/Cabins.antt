-- ===== src/Services/Cabins.antt =====
-- services/cabin_service.py: the registry of the users' Cabins, its timestamps and the reaper. The
-- backend is a parameter: what it answers may depend on the calls that it got. Times are seconds.
pub mod Laws
pub mod Reaping
pub mod Tests
use grand_line.Common.{
  ℕ, ◌+◌, String, Bool, true, false, not, ◌||◌, Option, none, some, List, [], ◌∷◌, ◌++◌, ◌==◌, leb,
  if◌then◌else◌,
}

-- `_CabinRecord`, for the user of its row.
pub record CabinRecord : Type 0 where
  pub created_at : ℕ
  pub last_active : ℕ

pub data Answer (A : Type 0) : Type 0 where
  gives : A → Answer A
  fails : String → Answer A

-- What runs in a Cabin behind `ensure`: a command, a long-running service or a terminal.
pub data Work : Type 0 where
  one_shot : String → ℕ → Work
  service : String → Work
  terminal : ℕ → ℕ → Work

pub data CabinCall : Type 0 where
  ensured : ℕ → List (String × String) → CabinCall
  worked : ℕ → Work → CabinCall
  asked : ℕ → CabinCall
  destroyed : ℕ → CabinCall

-- The backend, and the Sea Chest with the secrets of a user by their kinds.
pub record CabinBackend : Type 0 where
  pub ensure : List CabinCall → ℕ → Answer Unit
  pub work : List CabinCall → ℕ → Work → Answer String
  pub status : List CabinCall → ℕ → Answer String
  pub destroy : List CabinCall → ℕ → Answer Unit
  pub reveal : ℕ → String → Answer (Option String)

pub record Cabins : Type 0 where
  pub rows : List (ℕ × CabinRecord)
  pub calls : List CabinCall

-- `self._cabins.get`
abbrev pub find_cabin : ℕ → List (ℕ × CabinRecord) → Option CabinRecord
find_cabin user [] = none
find_cabin user ((u, r) ∷ rows) =
    let rest = find_cabin user rows in if u == user then some r else rest

-- `self._cabins.pop(user, None)`
abbrev pub pop_cabin : ℕ → List (ℕ × CabinRecord) → List (ℕ × CabinRecord)
pop_cabin user [] = []
pop_cabin user ((u, r) ∷ rows) =
    let rest = pop_cabin user rows in if u == user then rows else (u, r) ∷ rest

-- `_touch`, on the rows: the row of the user is stamped, or made at the end.
abbrev pub touch : ℕ → ℕ → List (ℕ × CabinRecord) → List (ℕ × CabinRecord)
touch now user [] = (user, record { created_at = now; last_active = now }) ∷ []
touch now user ((u, r) ∷ rows) =
    let rest = touch now user rows in
    if u == user then (u, record r { last_active = now }) ∷ rows else (u, r) ∷ rest

abbrev pub called : CabinCall → Cabins → Cabins
called c s = record s { calls = s.calls ++ c ∷ [] }

abbrev pub touched : ℕ → ℕ → Cabins → Cabins
touched now user s = record s { rows = touch now user s.rows }

-- `_MATERIALIZED_KINDS`
abbrev pub materialized_kinds : List String
materialized_kinds = "claude_code" ∷ "github" ∷ []

abbrev pub with_secret :
    String
    → Answer (Option String)
    → Answer (List (String × String))
    → Answer (List (String × String))
with_secret kind (fails e) rest = fails e
with_secret kind (gives none) rest = rest
with_secret kind (gives (some secret)) (gives secrets) = gives ((kind, secret) ∷ secrets)
with_secret kind (gives (some secret)) (fails e) = fails e

module _ (backend : CabinBackend) (idle_limit max_lifetime : ℕ) where
  abbrev pub reveal_all : ℕ → List String → Answer (List (String × String))
  reveal_all user [] = gives []
  reveal_all user (kind ∷ kinds) =
      with_secret kind (backend.reveal user kind) (reveal_all user kinds)

  -- `ensure` behind the secrets and behind the backend; the status is asked for at the end.
  abbrev pub stamp_ensured : ℕ → ℕ → Answer Unit → Cabins → Answer String × Cabins
  stamp_ensured now user (fails e) s = (fails e, s)
  stamp_ensured now user (gives u) s =
      let s' = touched now user s in (backend.status s'.calls user, called (asked user) s')

  abbrev pub ensure_with : ℕ → ℕ → Answer (List (String × String)) → Cabins → Answer String × Cabins
  ensure_with now user (fails e) s = (fails e, s)
  ensure_with now user (gives secrets) s =
      stamp_ensured now user (backend.ensure s.calls user) (called (ensured user secrets) s)

  unfoldable pub ensure_cabin : ℕ → ℕ → Cabins → Answer String × Cabins
  ensure_cabin now user s = ensure_with now user (reveal_all user materialized_kinds) s

  -- `run`, `start_service` and `open_terminal`: the stamp behind the work is left out when it raises.
  abbrev pub stamp_worked : ℕ → ℕ → Answer String → Cabins → Answer String × Cabins
  stamp_worked now user (fails e) s = (fails e, s)
  stamp_worked now user (gives out) s = (gives out, touched now user s)

  abbrev pub work_ensured : ℕ → ℕ → Work → Answer String × Cabins → Answer String × Cabins
  work_ensured now user w (fails e, s) = (fails e, s)
  work_ensured now user w (gives status, s) =
      stamp_worked now user (backend.work s.calls user w) (called (worked user w) s)

  -- The work ends at the time `later`.
  unfoldable pub work_in_cabin : ℕ → ℕ → ℕ → Work → Cabins → Answer String × Cabins
  unfolding ensure_cabin
  work_in_cabin now later user w s = work_ensured later user w (ensure_cabin now user s)

  abbrev pub destroy_found : ℕ → Option CabinRecord → Cabins → Answer Unit × Cabins
  destroy_found user none s = (fails "NOT_FOUND", s)
  destroy_found user (some r) s = (
    backend.destroy s.calls user,
    called (destroyed user) (record s { rows = pop_cabin user s.rows }),
  )

  unfoldable pub destroy_cabin : ℕ → Cabins → Answer Unit × Cabins
  destroy_cabin user s = destroy_found user (find_cabin user s.rows) s

  -- `idle_for >= idle_limit or age >= max_lifetime`, also for a clock that runs back.
  abbrev pub is_expired : ℕ → CabinRecord → Bool
  is_expired now r = leb (r.last_active + idle_limit) now || leb (r.created_at + max_lifetime) now

  -- One row of the loop of `reap_idle`; an error of the backend is logged and dropped.
  abbrev pub reap_row : Bool → ℕ → Cabins → Cabins
  reap_row false user s = s
  reap_row true user s = called (destroyed user) (record s { rows = pop_cabin user s.rows })

  abbrev pub add_reaped : Bool → ℕ → List ℕ → List ℕ
  add_reaped false user reaped = reaped
  add_reaped true user reaped = user ∷ reaped

  -- The loop goes over the rows as they were at its start.
  unfoldable pub reap_each : ℕ → List (ℕ × CabinRecord) → Cabins → List ℕ × Cabins
  reap_each now [] s = ([], s)
  reap_each now ((user, r) ∷ rows) s =
      let (reaped, s') = reap_each now rows (reap_row (is_expired now r) user s) in
      (add_reaped (is_expired now r) user reaped, s')

  unfoldable pub reap_idle : ℕ → Cabins → List ℕ × Cabins
  unfolding reap_each
  reap_idle now s = reap_each now s.rows s

  unfoldable pub destroy_all : List (ℕ × CabinRecord) → Cabins → Cabins
  destroy_all [] s = s
  destroy_all ((user, r) ∷ rows) s = destroy_all rows (called (destroyed user) s)

  unfoldable pub cleanup_cabins : Cabins → Cabins
  unfolding destroy_all
  cleanup_cabins s = record (destroy_all s.rows s) { rows = [] }
