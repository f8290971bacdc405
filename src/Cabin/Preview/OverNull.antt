-- ===== src/Cabin/Preview/OverNull.antt =====
-- The preview service over the null backend: `CabinService` reveals the secrets of the user and ensures
-- the Cabin before it starts a service, and passes the other calls on.
use grand_line.Common.{ℕ, ◌≡◌, Bool, true, false, Option, none, some, List, String, Text, lookup}
use grand_line.Cabin.Null.{
  shell_line, NullCabins, NullService, ServiceHandle, running, starting, stopped, failed, Found,
  found, not_found, null_ensure, null_start_service, null_stop_service, service_of,
}
use grand_line.Cabin.Preview.{CabinFailure, cabin_error, Outcome, ok, raise, CabinOps}

-- The secrets of a user, or what their decryption raises.
abbrev pub Chest : Type 0
Chest = ℕ → Outcome CabinFailure (List (Text × Text))

module _ (chest : Chest) (allow : List Text) where
  abbrev pub ensure_secrets :
      ℕ
      → ℕ
      → Outcome CabinFailure (List (Text × Text))
      → NullCabins
      → Outcome CabinFailure Unit × NullCabins
  ensure_secrets now user (raise e) s = (raise e, s)
  ensure_secrets now user (ok secrets) s = (ok tt, (null_ensure now user secrets allow s).1)

  unfoldable pub ensure_null : ℕ → ℕ → NullCabins → Outcome CabinFailure Unit × NullCabins
  ensure_null now user s = ensure_secrets now user (chest user) s

  abbrev pub handle_of :
      Found ServiceHandle × NullCabins → Outcome CabinFailure ServiceHandle × NullCabins
  handle_of (not_found, s) = (raise (cabin_error "No cabin for user"), s)
  handle_of (found h, s) = (ok h, s)

  abbrev pub start_if_ensured :
      ℕ
      → ℕ
      → ℕ
      → String
      → Outcome CabinFailure Unit × NullCabins
      → Outcome CabinFailure ServiceHandle × NullCabins
  start_if_ensured now sid user command (raise e, s) = (raise e, s)
  start_if_ensured now sid user command (ok u, s) =
      handle_of (null_start_service now user sid (shell_line command) none none s)

  unfoldable pub start_null :
      ℕ → ℕ → ℕ → String → NullCabins → Outcome CabinFailure ServiceHandle × NullCabins
  unfolding ensure_null
  start_null now sid user command s = start_if_ensured now sid user command (ensure_null now user s)

  abbrev pub null_ops : CabinOps NullCabins
  null_ops = record {
    ensure = ensure_null;
    start_service = start_null;
    stop_service = λ user sid s. (ok tt, null_stop_service user sid s);
  }

abbrev pub runs_now : Option NullService → Bool
runs_now none = false
runs_now (some v) = elim v.status [
  | starting ↦ false
  | running ↦ true
  | stopped ↦ false
  | failed ↦ false
]

abbrev pub RunsNull : NullCabins → ℕ → ℕ → Type 0
RunsNull s v sid = runs_now (service_of sid (lookup v s)) ≡ true
