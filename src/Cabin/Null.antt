-- ===== src/Cabin/Null.antt =====
-- `NullCabinBackend` of cabin/null_backend.py: the Cabins of the users, each with its services. Times
-- and the fresh id of a service are parameters of a call; the id of a Cabin is that of its user.
pub mod Laws
pub mod Secrets
use grand_line.Common.{
  ℕ, ◌+◌, Bool, Option, none, some, List, [], ◌∷◌, map, ◌==◌, leb, if◌then◌else◌, length, Text,
  String, last_n, ◌&&◌, ◌||◌, ltb, true, false, lookup, store, erase,
}

pub data ServiceStatus : Type 0 where
  starting running stopped failed : ServiceStatus

-- `_NullService`
pub record NullService : Type 0 where
  pub port : ℕ
  pub status : ServiceStatus

-- `_NullCabin`, for the user of its row.
pub record NullCabin : Type 0 where
  pub materialized_kinds : List Text
  pub network_allow : List Text
  pub created_at : ℕ
  pub last_active : ℕ
  pub services : List (ℕ × NullService)

abbrev pub NullCabins : Type 0
NullCabins = List (ℕ × NullCabin)

-- `CabinError("NOT_FOUND", ...)` is the one error of this backend.
pub data Found (A : Type 0) : Type 0 where
  found : A → Found A
  not_found : Found A

-- The order of Python on texts.
abbrev pub text_leb : Text → Text → Bool
text_leb [] ys = true
text_leb (x ∷ xs) [] = false
text_leb (x ∷ xs) (y ∷ ys) = let rest = text_leb xs ys in ltb x y || ((x == y) && rest)

abbrev pub insert_text : Text → List Text → List Text
insert_text t [] = t ∷ []
insert_text t (x ∷ xs) =
    let rest = insert_text t xs in if text_leb t x then t ∷ x ∷ xs else x ∷ rest

abbrev pub sorted_texts : List Text → List Text
sorted_texts [] = []
sorted_texts (x ∷ xs) = insert_text x (sorted_texts xs)

-- `sorted(secrets.keys())`
abbrev pub kinds_of : List (Text × Text) → List Text
kinds_of secrets = sorted_texts (map (λ (s : Text × Text). s.0) secrets)

-- `CabinInfo`, behind the id, the user and the state "running".
pub record CabinInfo : Type 0 where
  pub kinds : List Text
  pub allow : List Text

abbrev pub ensured_cabin : ℕ → List Text → List Text → Option NullCabin → NullCabin
ensured_cabin now kinds allow none = record {
  materialized_kinds = kinds;
  network_allow = allow;
  created_at = now;
  last_active = now;
  services = [];
}
ensured_cabin now kinds allow (some c) = record c {
  materialized_kinds = kinds;
  network_allow = allow;
  last_active = now;
}

unfoldable pub null_ensure :
    ℕ → ℕ → List (Text × Text) → List Text → NullCabins → CabinInfo × NullCabins
null_ensure now user secrets allow s = (
  record { kinds = kinds_of secrets; allow = allow },
  store user (ensured_cabin now (kinds_of secrets) allow (lookup user s)) s,
)

-- A command: a line for a shell, or a program with its arguments.
pub data CommandLine : Type 0 where
  shell_line : String → CommandLine
  arguments : List String → CommandLine

-- `env`, with its values.
abbrev pub Environment : Type 0
Environment = Option (List (Text × Text))

abbrev pub active_at : ℕ → NullCabin → NullCabin
active_at now c = record c { last_active = now }

-- `run`: exit code 0 and no output, whatever the command is.
abbrev pub run_found : ℕ → ℕ → Option NullCabin → NullCabins → Found ℕ × NullCabins
run_found now user none s = (not_found, s)
run_found now user (some c) s = (found 0, store user (active_at now c) s)

unfoldable pub null_run : ℕ → ℕ → CommandLine → NullCabins → Found ℕ × NullCabins
null_run now user command s = run_found now user (lookup user s) s

-- `CabinStatus`: the row of the Cabin without its services.
abbrev pub status_found : Option NullCabin → Found NullCabin
status_found none = not_found
status_found (some c) = found (record c { services = [] })

unfoldable pub null_status : ℕ → NullCabins → Found NullCabin
null_status user s = status_found (lookup user s)

unfoldable pub null_destroy : ℕ → NullCabins → NullCabins
null_destroy user s = erase user s

-- `ServiceHandle`: the URL is that of the port on the local host.
pub record ServiceHandle : Type 0 where
  pub service_id : ℕ
  pub handle_port : ℕ
  pub handle_status : ServiceStatus

-- `_NULL_BASE_PORT + len(cabin.services)` where no port is asked for.
abbrev pub bound_port : Option ℕ → NullCabin → ℕ
bound_port none c = 8000 + length c.services
bound_port (some port) c = port

abbrev pub add_service : ℕ → ℕ → NullCabin → NullCabin
add_service sid port c = record c {
  services = store sid (record { port = port; status = running }) c.services;
}

abbrev pub start_found :
    ℕ → ℕ → ℕ → Option ℕ → Option NullCabin → NullCabins → Found ServiceHandle × NullCabins
start_found now user sid port none s = (not_found, s)
start_found now user sid port (some c) s = (
  found (record { service_id = sid; handle_port = bound_port port c; handle_status = running }),
  store user (add_service sid (bound_port port c) (active_at now c)) s,
)

-- The command and the environment are not stored.
unfoldable pub null_start_service :
    ℕ → ℕ → ℕ → CommandLine → Environment → Option ℕ → NullCabins → Found ServiceHandle × NullCabins
null_start_service now user sid command env port s = start_found now user sid port (lookup user s) s

abbrev pub service_of : ℕ → Option NullCabin → Option NullService
service_of sid none = none
service_of sid (some c) = lookup sid c.services

pub data LogLine : Type 0 where
  line_starting : ℕ → LogLine
  line_listening : ℕ → LogLine
  line_ready : LogLine

-- `lines[-tail:]` of the three lines: `lines[-0:]` is all of them.
abbrev pub tail_lines : ℕ → ℕ → ℕ → List LogLine
tail_lines tail sid port =
    if tail == 1
    then line_ready ∷ []
    else if tail == 2
    then line_listening port ∷ line_ready ∷ []
    else line_starting sid ∷ line_listening port ∷ line_ready ∷ []

abbrev pub logs_found : ℕ → ℕ → Option NullService → Found (List LogLine)
logs_found sid tail none = not_found
logs_found sid tail (some v) = found (tail_lines tail sid v.port)

unfoldable pub null_service_logs : ℕ → ℕ → ℕ → NullCabins → Found (List LogLine)
null_service_logs user sid tail s = logs_found sid tail (service_of sid (lookup user s))

abbrev pub service_status_found : Option NullService → Found ServiceStatus
service_status_found none = not_found
service_status_found (some v) = found v.status

unfoldable pub null_service_status : ℕ → ℕ → NullCabins → Found ServiceStatus
null_service_status user sid s = service_status_found (service_of sid (lookup user s))

abbrev pub stop_in : ℕ → Option NullService → NullCabin → NullCabin
stop_in sid none c = c
stop_in sid (some v) c = record c {
  services = store sid (record v { status = stopped }) c.services;
}

abbrev pub stop_found : ℕ → ℕ → Option NullCabin → NullCabins → NullCabins
stop_found user sid none s = s
stop_found user sid (some c) s = store user (stop_in sid (lookup sid c.services) c) s

unfoldable pub null_stop_service : ℕ → ℕ → NullCabins → NullCabins
null_stop_service user sid s = stop_found user sid (lookup user s) s

-- `open_terminal`: the terminal itself is a state of its own.
abbrev pub open_found : ℕ → ℕ → Option NullCabin → NullCabins → Found Unit × NullCabins
open_found now user none s = (not_found, s)
open_found now user (some c) s = (found tt, store user (active_at now c) s)

unfoldable pub null_open_terminal : ℕ → ℕ → NullCabins → Found Unit × NullCabins
null_open_terminal now user s = open_found now user (lookup user s) s
