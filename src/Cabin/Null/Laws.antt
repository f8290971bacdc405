-- ===== src/Cabin/Null/Laws.antt =====
-- Series of calls on the backend of cabin/null_backend.py, and one Cabin on its own.
use grand_line.Common.{
  ℕ, ◌≡◌, refl, ap, ◌∙◌, sym, Option, none, some, List, [], ◌∷◌, ◌==◌, arith, if◌then◌else◌, inl,
  inr, Bool-cases, Text, lookup, store, lookup-store, lookup-erase,
}
use grand_line.Cabin.Null.{
  CommandLine, Environment, NullCabin, NullCabins, Found, found, not_found, CabinInfo,
  ServiceHandle, ServiceStatus, LogLine, kinds_of, null_ensure, null_run, null_status, null_destroy,
  null_start_service, null_service_logs, null_service_status, null_stop_service, null_open_terminal,
  ensured_cabin, run_found, start_found, stop_found, open_found, status_found, bound_port, running,
  logs_found, service_of, service_status_found, active_at, add_service, stop_in,
}

-- A call of the backend, with the time or the fresh id that it takes.
pub data NullCall : Type 0 where
  ensure : ℕ → List (Text × Text) → List Text → NullCall
  run : ℕ → CommandLine → NullCall
  status : NullCall
  destroy : NullCall
  start_service : ℕ → ℕ → CommandLine → Environment → Option ℕ → NullCall
  service_logs : ℕ → ℕ → NullCall
  service_status : ℕ → NullCall
  stop_service : ℕ → NullCall
  open_terminal : ℕ → NullCall

pub data NullAnswer : Type 0 where
  info : CabinInfo → NullAnswer
  exit : Found ℕ → NullAnswer
  row : Found NullCabin → NullAnswer
  handle : Found ServiceHandle → NullAnswer
  logs : Found (List LogLine) → NullAnswer
  state : Found ServiceStatus → NullAnswer
  opened : Found Unit → NullAnswer
  done : NullAnswer

-- A call for a user.
unfoldable pub null_call : ℕ → NullCall → NullCabins → NullAnswer × NullCabins
unfolding null_ensure null_run null_status null_destroy null_start_service null_service_logs
    null_service_status null_stop_service null_open_terminal
null_call user (ensure now secrets allow) s =
    let (i, s') = null_ensure now user secrets allow s in (info i, s')
null_call user (run now command) s = let (r, s') = null_run now user command s in (exit r, s')
null_call user status s = (row (null_status user s), s)
null_call user destroy s = (done, null_destroy user s)
null_call user (start_service now sid command env port) s =
    let (h, s') = null_start_service now user sid command env port s in (handle h, s')
null_call user (service_logs sid tail) s = (logs (null_service_logs user sid tail s), s)
null_call user (service_status sid) s = (state (null_service_status user sid s), s)
null_call user (stop_service sid) s = (done, null_stop_service user sid s)
null_call user (open_terminal now) s = let (o, s') = null_open_terminal now user s in (opened o, s')

-- A series of calls: the answers that one user gets.
unfoldable pub answers_to : ℕ → List (ℕ × NullCall) → NullCabins → List NullAnswer
unfolding null_call
answers_to me [] s = []
answers_to me ((user, c) ∷ cs) s =
    let (a, s') = null_call user c s in
    let rest = answers_to me cs s' in if user == me then a ∷ rest else rest

abbrev pub own_calls : ℕ → List (ℕ × NullCall) → List NullCall
own_calls me [] = []
own_calls me ((user, c) ∷ cs) = let rest = own_calls me cs in if user == me then c ∷ rest else rest

-- One Cabin on its own, as an automaton: what a call answers in a state, and the state after it.
abbrev pub row_answer : NullCall → Option NullCabin → NullAnswer
row_answer (ensure now secrets allow) o = info (record { kinds = kinds_of secrets; allow = allow })
row_answer (run now command) none = exit not_found
row_answer (run now command) (some c) = exit (found 0)
row_answer status o = row (status_found o)
row_answer destroy o = done
row_answer (start_service now sid command env port) none = handle not_found
row_answer (start_service now sid command env port) (some c) =
    handle (
      found (record { service_id = sid; handle_port = bound_port port c; handle_status = running }))
row_answer (service_logs sid tail) o = logs (logs_found sid tail (service_of sid o))
row_answer (service_status sid) o = state (service_status_found (service_of sid o))
row_answer (stop_service sid) o = done
row_answer (open_terminal now) none = opened not_found
row_answer (open_terminal now) (some c) = opened (found tt)

abbrev pub row_after : NullCall → Option NullCabin → Option NullCabin
row_after (ensure now secrets allow) o = some (ensured_cabin now (kinds_of secrets) allow o)
row_after (run now command) none = none
row_after (run now command) (some c) = some (active_at now c)
row_after status o = o
row_after destroy o = none
row_after (start_service now sid command env port) none = none
row_after (start_service now sid command env port) (some c) =
    some (add_service sid (bound_port port c) (active_at now c))
row_after (service_logs sid tail) o = o
row_after (service_status sid) o = o
row_after (stop_service sid) none = none
row_after (stop_service sid) (some c) = some (stop_in sid (lookup sid c.services) c)
row_after (open_terminal now) none = none
row_after (open_terminal now) (some c) = some (active_at now c)

abbrev pub row_answers : List NullCall → Option NullCabin → List NullAnswer
row_answers [] o = []
row_answers (c ∷ cs) o = row_answer c o ∷ row_answers cs (row_after c o)

-- The row of a user, and all others as they were.
abbrev IsRow : ℕ → Option NullCabin → NullCabins → NullCabins → Type 0
IsRow user o s s' = (me : ℕ) → lookup me s' ≡ (if user == me then o else lookup me s)

unchanged :
    (user : ℕ) (o : Option NullCabin) (s : NullCabins) → lookup user s ≡ o → IsRow user o s s
unchanged user o s e me = elim (Bool-cases (user == me)) [
  | inl h ↦ let same : user ≡ me = ground arith in rw h (ap (λ k. lookup k s) (sym same) ∙ e)
  | inr h ↦ rw h refl
]

stored : (user : ℕ) (c : NullCabin) (s : NullCabins) → IsRow user (some c) s (store user c s)
stored user c s me = lookup-store me user c s

run_found-row :
    (now user : ℕ) (command : CommandLine) (o : Option NullCabin) (s : NullCabins)
    → lookup user s ≡ o
    → ((exit (run_found now user o s).0) ≡ row_answer (run now command) o)
      × IsRow user (row_after (run now command) o) s (run_found now user o s).1
run_found-row now user command none s e = (refl, unchanged user none s e)
run_found-row now user command (some c) s e = (refl, stored user (active_at now c) s)

start_found-row :
    (now user sid : ℕ) (command : CommandLine) (env : Environment) (port : Option ℕ)
    (o : Option NullCabin) (s : NullCabins)
    → lookup user s ≡ o
    → (handle (start_found now user sid port o s).0
        ≡ row_answer (start_service now sid command env port) o)
      × IsRow user
          (row_after (start_service now sid command env port) o)
          s
          (start_found now user sid port o s).1
start_found-row now user sid command env port none s e = (refl, unchanged user none s e)
start_found-row now user sid command env port (some c) s e =
    (refl, stored user (add_service sid (bound_port port c) (active_at now c)) s)

stop_found-row :
    (user sid : ℕ) (o : Option NullCabin) (s : NullCabins)
    → lookup user s ≡ o
    → IsRow user (row_after (stop_service sid) o) s (stop_found user sid o s)
stop_found-row user sid none s e = unchanged user none s e
stop_found-row user sid (some c) s e = stored user (stop_in sid (lookup sid c.services) c) s

open_found-row :
    (now user : ℕ) (o : Option NullCabin) (s : NullCabins)
    → lookup user s ≡ o
    → (opened (open_found now user o s).0 ≡ row_answer (open_terminal now) o)
      × IsRow user (row_after (open_terminal now) o) s (open_found now user o s).1
open_found-row now user none s e = (refl, unchanged user none s e)
open_found-row now user (some c) s e = (refl, stored user (active_at now c) s)

null_call-row :
    (user : ℕ) (c : NullCall) (s : NullCabins)
    → ((null_call user c s).0 ≡ row_answer c (lookup user s))
      × IsRow user (row_after c (lookup user s)) s (null_call user c s).1
unfolding null_call null_ensure null_run null_status null_destroy null_start_service
    null_service_logs null_service_status null_stop_service null_open_terminal
null_call-row user (ensure now secrets allow) s =
    (refl, stored user (ensured_cabin now (kinds_of secrets) allow (lookup user s)) s)
null_call-row user (run now command) s = run_found-row now user command (lookup user s) s refl
null_call-row user status s = (refl, unchanged user (lookup user s) s refl)
null_call-row user destroy s = (refl, λ me. lookup-erase me user s)
null_call-row user (start_service now sid command env port) s =
    start_found-row now user sid command env port (lookup user s) s refl
null_call-row user (service_logs sid tail) s = (refl, unchanged user (lookup user s) s refl)
null_call-row user (service_status sid) s = (refl, unchanged user (lookup user s) s refl)
null_call-row user (stop_service sid) s = (refl, stop_found-row user sid (lookup user s) s refl)
null_call-row user (open_terminal now) s = open_found-row now user (lookup user s) s refl

-- In every series of calls for any users, each user gets the answers of one Cabin on its own that
-- takes this user's calls alone: the null backend implements one automaton for each user.
pub answers_to-row :
    (me : ℕ) (cs : List (ℕ × NullCall)) (s : NullCabins)
    → answers_to me cs s ≡ row_answers (own_calls me cs) (lookup me s)
unfolding answers_to
answers_to-row me [] s = refl
answers_to-row me ((user, c) ∷ cs) s =
    let (a, after) = null_call-row user c s in
    let ih = answers_to-row me cs (null_call user c s).1 in
    elim (Bool-cases (user == me)) [
      | inl h ↦
          let same : user ≡ me = ground arith in
          rw (h, ih, after me, h, a)
            (ap
              (λ k.
                row_answer c (lookup k s)
                ∷ row_answers (own_calls me cs) (row_after c (lookup k s)))
              same)
      | inr h ↦ rw (h, ih, after me, h) refl
    ]
