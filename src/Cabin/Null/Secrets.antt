-- ===== src/Cabin/Null/Secrets.antt =====
-- Calls of the null backend with the values of secrets and environments, and the commands, blanked out.
use grand_line.Common.{◌≡◌, refl, ap, ℕ, none, some, List, [], ◌∷◌, map, Text}
use grand_line.Cabin.Null.{shell_line, Environment, NullCabins, sorted_texts, null_ensure}
use grand_line.Cabin.Null.Laws.{
  NullCall, ensure, run, status, destroy, start_service, service_logs, service_status, stop_service,
  open_terminal, NullAnswer, null_call,
}

-- Every value replaced by the empty text.
abbrev pub blanked : List (Text × Text) → List (Text × Text)
blanked secrets = map (λ (s : Text × Text). (s.0, [])) secrets

abbrev pub blanked_env : Environment → Environment
blanked_env none = none
blanked_env (some env) = some (blanked env)

-- The values of the secrets and of the environment are blanked out, and each command is replaced by an
-- empty line.
abbrev pub without_values : NullCall → NullCall
without_values (ensure now secrets allow) = ensure now (blanked secrets) allow
without_values (run now command) = run now (shell_line "")
without_values status = status
without_values destroy = destroy
without_values (start_service now sid command env port) =
    start_service now sid (shell_line "") (blanked_env env) port
without_values (service_logs sid tail) = service_logs sid tail
without_values (service_status sid) = service_status sid
without_values (stop_service sid) = stop_service sid
without_values (open_terminal now) = open_terminal now

-- A series of calls for any users: all answers, and the state after it.
unfoldable pub serve_calls : List (ℕ × NullCall) → NullCabins → List NullAnswer × NullCabins
unfolding null_call
serve_calls [] s = ([], s)
serve_calls ((user, c) ∷ cs) s =
    let (a, s') = null_call user c s in let (rest, after) = serve_calls cs s' in (a ∷ rest, after)

abbrev pub blank_calls : List (ℕ × NullCall) → List (ℕ × NullCall)
blank_calls [] = []
blank_calls ((user, c) ∷ cs) = (user, without_values c) ∷ blank_calls cs

keys_blanked :
    (secrets : List (Text × Text))
    → map (λ (s : Text × Text). s.0) (blanked secrets) ≡ map (λ (s : Text × Text). s.0) secrets
keys_blanked [] = refl
keys_blanked (s ∷ secrets) = ap (λ ks. s.0 ∷ ks) (keys_blanked secrets)

null_call-without_values :
    (user : ℕ) (c : NullCall) (s : NullCabins)
    → null_call user (without_values c) s ≡ null_call user c s
unfolding null_call null_ensure
null_call-without_values user (ensure now secrets allow) s =
    rw (ap sorted_texts (keys_blanked secrets)) refl
null_call-without_values user (run now command) s = refl
null_call-without_values user status s = refl
null_call-without_values user destroy s = refl
null_call-without_values user (start_service now sid command env port) s = refl
null_call-without_values user (service_logs sid tail) s = refl
null_call-without_values user (service_status sid) s = refl
null_call-without_values user (stop_service sid) s = refl
null_call-without_values user (open_terminal now) s = refl

-- With the values of all secrets and of the environments of all services blanked out, and each command
-- replaced by an empty line, every series of calls gets the same answers and leaves the same state.
pub serve_calls-secret :
    (cs : List (ℕ × NullCall)) (s : NullCabins) → serve_calls (blank_calls cs) s ≡ serve_calls cs s
unfolding serve_calls
serve_calls-secret [] s = refl
serve_calls-secret ((user, c) ∷ cs) s =
    rw (null_call-without_values user c s, serve_calls-secret cs (null_call user c s).1) refl
