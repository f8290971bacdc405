-- ===== src/Cabin/Tests.antt =====
-- Concrete Cabins, terminals and previews, and the theorems at them.
use grand_line.Common.{ℕ, ◌≡◌, refl, false, none, some, List, [], ◌∷◌, ◌++◌, codes, Text, lookup}
use grand_line.Cabin.Null.{
  shell_line, arguments, running, stopped, found, null_ensure, null_start_service,
  null_stop_service,
}
use grand_line.Cabin.Null.Laws.{
  NullCall, ensure, start_service, service_status, stop_service, destroy, run, info, handle, state,
  done, answers_to, own_calls, row_answers, answers_to-row,
}
use grand_line.Cabin.Null.Secrets.{blank_calls, serve_calls, serve_calls-secret}
use grand_line.Cabin.Terminal.{
  read, write, resize, close, use_terminal, open_null_terminal, joined, typed_into,
  use_terminal-typed, prompt, TerminalCall,
}
use grand_line.Cabin.Preview.{ok, PreviewRecord, is_old, reap_expired, stop_all}
use grand_line.Cabin.Preview.Series.{start, stop, PreviewCall, serve_previews}
use grand_line.Cabin.Preview.OverNull.{Chest, null_ops, ensure_null, start_null, RunsNull}
use grand_line.Cabin.Preview.Promise.{null_previews-reaped}

abbrev secrets : List (Text × Text)
secrets = (codes "github", codes "ghp") ∷ (codes "claude_code", codes "key") ∷ []

-- Two users, one after the other: the second never had a Cabin.
abbrev calls : List (ℕ × NullCall)
calls =
    (1, ensure 10 secrets [])
    ∷ (2, run 11 (arguments ("ls" ∷ [])))
    ∷ (1, start_service 12 70 (shell_line "npm start") (some secrets) none)
    ∷ (2, destroy)
    ∷ (1, service_status 70)
    ∷ (1, stop_service 70)
    ∷ (1, service_status 70)
    ∷ []

calls_answered :
    answers_to 1 calls []
    ≡ info (record { kinds = codes "claude_code" ∷ codes "github" ∷ []; allow = [] })
      ∷ handle (found (record { service_id = 70; handle_port = 8000; handle_status = running }))
      ∷ state (found running)
      ∷ done
      ∷ state (found stopped)
      ∷ []
unfolding answers_to
calls_answered = refl

answers_to-row_example : answers_to 1 calls [] ≡ row_answers (own_calls 1 calls) none
answers_to-row_example = answers_to-row 1 calls []

serve_calls-secret_example : serve_calls (blank_calls calls) [] ≡ serve_calls calls []
serve_calls-secret_example = serve_calls-secret calls []

abbrev session : List TerminalCall
session =
    read
    ∷ write (codes "ls")
    ∷ resize 100 30
    ∷ read
    ∷ write (codes "pwd")
    ∷ close
    ∷ write (codes "x")
    ∷ []

use_terminal-typed_example :
    (use_terminal session (open_null_terminal 80 24)).0
      ++ joined (use_terminal session (open_null_terminal 80 24)).1.queue
    ≡ joined (open_null_terminal 80 24).queue
      ++ typed_into (open_null_terminal 80 24).closed session
use_terminal-typed_example = use_terminal-typed session (open_null_terminal 80 24)

session_echoed : (use_terminal session (open_null_terminal 80 24)).0 ≡ prompt ++ codes "ls"
unfolding use_terminal open_null_terminal
session_echoed = refl

abbrev chest : Chest
chest user = ok secrets

abbrev previews : List PreviewCall
previews =
    start 10 1 70 5 none ∷ start 20 1 71 6 (some "npm run dev") ∷ start 25 2 72 7 none ∷ stop 2 ∷ []

previews_tracked :
    (lookup 1 (serve_previews (null_ops chest []) "npm start" 100 previews ([], [])).0
      ≡ some (record {
        preview_id = 6;
        service_id = 71;
        port = 8001;
        status = running;
        started_at = 20;
      }))
    × (RunsNull (serve_previews (null_ops chest []) "npm start" 100 previews ([], [])).1 1 71)
unfolding serve_previews ensure_null start_null null_start_service null_ensure null_stop_service
previews_tracked = (refl, refl)

null_previews-reaped_example :
    ((v sid : ℕ)
      → RunsNull
          (reap_expired
            (null_ops chest [])
            "npm start"
            100
            50
            (serve_previews (null_ops chest []) "npm start" 100 previews ([], []))).1.1
          v
          sid
      → (r : PreviewRecord) × (lookup v
            (reap_expired
              (null_ops chest [])
              "npm start"
              100
              50
              (serve_previews (null_ops chest []) "npm start" 100 previews ([], []))).1.0
          ≡ some r)
        × (r.service_id ≡ sid)
        × (is_old (null_ops chest []) "npm start" 100 50 r ≡ false))
    × ((v sid : ℕ)
        → RunsNull
            (stop_all
              (null_ops chest [])
              "npm start"
              100
              (serve_previews (null_ops chest []) "npm start" 100 previews ([], []))).1
            v
            sid
        → ⊥)
null_previews-reaped_example = null_previews-reaped chest [] "npm start" 100 previews 50
