-- ===== src/Cabin/Preview.antt =====
-- services/preview_service.py: one preview for each user, over the Cabins as an interface. Times and
-- fresh ids are parameters of a call.
pub mod Laws
pub mod Series
pub mod OverNull
pub mod Promise
use grand_line.Common.{
  ℕ, ◌+◌, Bool, true, false, Option, none, some, List, [], ◌∷◌, String, leb, lookup, store, erase,
  str_eq, if◌then◌else◌,
}
use grand_line.Cabin.Null.{ServiceHandle, ServiceStatus}

-- What a call of the Cabins raises: a `CabinError` with its message, or another exception.
pub data CabinFailure : Type 0 where
  cabin_error : String → CabinFailure
  other_exception : CabinFailure

pub data Outcome (E A : Type 0) : Type 0 where
  ok : A → Outcome E A
  raise : E → Outcome E A

pub data PreviewError : Type 0 where
  cabin_unavailable : String → PreviewError
  start_failed : PreviewError

-- The calls of `CabinService` that a preview makes, with the time and a fresh id where they need them.
pub record CabinOps (S : Type 0) : Type 0 where
  pub ensure : ℕ → ℕ → S → Outcome CabinFailure Unit × S
  pub start_service : ℕ → ℕ → ℕ → String → S → Outcome CabinFailure ServiceHandle × S
  pub stop_service : ℕ → ℕ → S → Outcome CabinFailure Unit × S

-- `_PreviewRecord`; the URL is that of the port.
pub record PreviewRecord : Type 0 where
  pub preview_id : ℕ
  pub service_id : ℕ
  pub port : ℕ
  pub status : ServiceStatus
  pub started_at : ℕ

-- `PreviewInfo`
pub record PreviewInfo : Type 0 where
  pub info_id : ℕ
  pub info_port : ℕ
  pub info_status : ServiceStatus

abbrev pub info_of : PreviewRecord → PreviewInfo
info_of r = record { info_id = r.preview_id; info_port = r.port; info_status = r.status }

-- The registry, and the state of the Cabins.
abbrev pub Previews : Type 0 → Type 0
Previews S = List (ℕ × PreviewRecord) × S

module _ {S : Type 0} (ops : CabinOps S) (default_command : String) (max_lifetime : ℕ) where
  -- `stop`: the row goes first, and an exception of the Cabin is dropped.
  abbrev pub stop_record : ℕ → Option PreviewRecord → Previews S → Previews S
  stop_record user none w = w
  stop_record user (some r) (rows, s) = (erase user rows, (ops.stop_service user r.service_id s).1)

  unfoldable pub stop_preview : ℕ → Previews S → Previews S
  stop_preview user w = stop_record user (lookup user w.0) w

  -- `command or self._settings.preview_default_command`
  abbrev pub resolved_command : Option String → String
  resolved_command none = default_command
  resolved_command (some command) = if str_eq command "" then default_command else command

  abbrev pub preview_error : CabinFailure → PreviewError
  preview_error (cabin_error message) = cabin_unavailable message
  preview_error other_exception = start_failed

  abbrev pub record_of : ℕ → ℕ → ServiceHandle → PreviewRecord
  record_of now preview h = record {
    preview_id = preview;
    service_id = h.service_id;
    port = h.handle_port;
    status = h.handle_status;
    started_at = now;
  }

  abbrev pub started :
      ℕ
      → ℕ
      → ℕ
      → List (ℕ × PreviewRecord)
      → Outcome CabinFailure ServiceHandle × S
      → Outcome PreviewError PreviewInfo × Previews S
  started now user preview rows (raise e, s) = (raise (preview_error e), (rows, s))
  started now user preview rows (ok h, s) =
      (ok (info_of (record_of now preview h)), (store user (record_of now preview h) rows, s))

  abbrev pub start_ensured :
      ℕ
      → ℕ
      → ℕ
      → ℕ
      → String
      → List (ℕ × PreviewRecord)
      → Outcome CabinFailure Unit × S
      → Outcome PreviewError PreviewInfo × Previews S
  start_ensured now user sid preview command rows (raise e, s) =
      (raise (preview_error e), (rows, s))
  start_ensured now user sid preview command rows (ok u, s) =
      started now user preview rows (ops.start_service now sid user command s)

  -- `start`: the preview that the user had is stopped first.
  unfoldable pub start_preview :
      ℕ → ℕ → ℕ → ℕ → Option String → Previews S → Outcome PreviewError PreviewInfo × Previews S
  unfolding stop_preview
  start_preview now user sid preview command w =
      let (rows, s) = stop_preview user w in
      start_ensured now user sid preview (resolved_command command) rows (ops.ensure now user s)

  abbrev pub info_found : Option PreviewRecord → Option PreviewInfo
  info_found none = none
  info_found (some r) = some (info_of r)

  unfoldable pub preview_status : ℕ → Previews S → Option PreviewInfo
  preview_status user w = info_found (lookup user w.0)

  abbrev pub is_old : ℕ → PreviewRecord → Bool
  is_old now r = leb (r.started_at + max_lifetime) now

  abbrev pub reap_record : Bool → ℕ → Previews S → Previews S
  reap_record false user w = w
  reap_record true user w = stop_preview user w

  abbrev pub add_id : Bool → ℕ → List ℕ → List ℕ
  add_id false preview ids = ids
  add_id true preview ids = preview ∷ ids

  -- The loop goes over the rows as they were at its start.
  unfoldable pub reap_records : ℕ → List (ℕ × PreviewRecord) → Previews S → List ℕ × Previews S
  unfolding stop_preview
  reap_records now [] w = ([], w)
  reap_records now ((user, r) ∷ rows) w =
      let (ids, w') = reap_records now rows (reap_record (is_old now r) user w) in
      (add_id (is_old now r) r.preview_id ids, w')

  unfoldable pub reap_expired : ℕ → Previews S → List ℕ × Previews S
  unfolding reap_records
  reap_expired now w = reap_records now w.0 w

  unfoldable pub stop_each : List (ℕ × PreviewRecord) → Previews S → Previews S
  unfolding stop_preview
  stop_each [] w = w
  stop_each ((user, r) ∷ rows) w = stop_each rows (stop_preview user w)

  unfoldable pub stop_all : Previews S → Previews S
  unfolding stop_each
  stop_all w = stop_each w.0 w
