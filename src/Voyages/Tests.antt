-- ===== src/Voyages/Tests.antt =====
-- Concrete orders, webhooks and reports, and the theorems at them.
use grand_line.Common.{
  ℕ, String, ◌≡◌, ◌↔◌, ◌⊎◌, refl, Bool, true, false, Option, none, some, List, [], ◌∷◌, ◌++◌,
}
use grand_line.Model.Voyage.{VoyageStatus, completed}
use grand_line.Services.LogBook.{recall}
use grand_line.Voyages.Rows.{Origin, VoyageRow, VoyageTables}
use grand_line.Voyages.Orders.{StandingOrder, OrderFields, order_raise, order_not_found}
use grand_line.Voyages.Orders.Laws.{
  OrderCall, create, update, delete, get, row, order_answers, own_order_calls, order_answers-own,
}
use grand_line.Voyages.Triggers.{
  GithubIssueWebhook, User, TriggerSettings, github_trigger, charted_voyage_id, ingest_github_issue,
}
use grand_line.Voyages.Triggers.Laws.{IsAccepted, github_trigger_iff}
use grand_line.Voyages.Bottle.{
  BottleSettings, Posted, HttpAnswer, http_status, http_raises, BottleResult, Outreach, report,
  build_summary,
}
use grand_line.Voyages.Bottle.Laws.{comment_on}
use grand_line.Voyages.Bottle.Legs.{report-legs}
use grand_line.Voyages.Bottle.Replies.{report-issue_voyage, issue_voyage, summary_entry}

abbrev bugfix : ℕ → StandingOrder String
bugfix id = record {
  order_id = id;
  owner = 0;
  name = "bugfix";
  description = none;
  target_repo = some "crew/ship";
  dial_config = none;
  plan_skeleton = none;
  injected_context = some "Be quick.";
  created_at = id;
}

abbrev renamed : OrderFields String
renamed = record {
  set_name = some (some "mine");
  set_description = none;
  set_target_repo = none;
  set_dial_config = none;
  set_plan_skeleton = none;
  set_injected_context = none;
}

-- The second user tries to rename and to delete the order of the first.
abbrev order_calls : List (ℕ × OrderCall String)
order_calls =
    (1, create (bugfix 7))
    ∷ (2, update 7 renamed)
    ∷ (2, delete 7)
    ∷ (1, get 7)
    ∷ (2, create (bugfix 8))
    ∷ (1, update 7 renamed)
    ∷ []

second_refused :
    order_answers 2 (((1, create (bugfix 7)) ∷ (2, update 7 renamed) ∷ [])) []
    ≡ row (order_raise order_not_found) ∷ []
unfolding order_answers
second_refused = refl

order_answers-own_example :
    order_answers 1 order_calls [] ≡ order_answers 1 (own_order_calls 1 order_calls) []
order_answers-own_example = order_answers-own 1 order_calls []

abbrev event : GithubIssueWebhook
event = record {
  action = "labeled";
  issue = record {
    number = 12;
    title = "The mast creaks";
    body = none;
    html_url = "https://github.com/crew/ship/issues/12";
    labels = "bug" ∷ "grandline" ∷ [];
  };
  full_name = "crew/ship";
  clone_url = some "https://github.com/crew/ship.git";
  login = "nami";
}

abbrev hmac : String → String → String
hmac key raw = "d1"

abbrev parse : String → Option GithubIssueWebhook
parse raw = some event

abbrev trigger_settings : TriggerSettings
trigger_settings = record {
  webhook_secret = some "s";
  trigger_label = "grandline";
  default_user_email = some "luffy@sea";
}

abbrev users : List User
users = record { user_id = 4; email = "luffy@sea" } ∷ []

abbrev no_tables : VoyageTables String
no_tables = record { voyages = []; dial_configs = [] }

event_charted :
    github_trigger "default" hmac parse trigger_settings users 100 9 "body"
      (some "sha256=d1")
      no_tables
    ≡ (
      charted_voyage_id 9,
      (ingest_github_issue "default" 100 9 event
          (record { user_id = 4; email = "luffy@sea" })
          no_tables).1,
    )
unfolding github_trigger
event_charted = refl

github_trigger_iff_example :
    (((github_trigger "default" hmac parse trigger_settings users 100 9 "body"
          (some "sha256=d1")
          no_tables).0
        ≡ charted_voyage_id 9)
      ↔ ((p : GithubIssueWebhook) × (user : User) × IsAccepted hmac trigger_settings users "body"
            (some "sha256=d1")
            (parse "body")
            p
            user))
    × (((github_trigger "default" hmac parse trigger_settings users 100 9 "body"
            (some "sha256=d1")
            no_tables).1
          ≡ no_tables)
        ⊎ ((p : GithubIssueWebhook) × (user : User) × IsAccepted hmac trigger_settings users "body"
              (some "sha256=d1")
              (parse "body")
              p
              user
            × (github_trigger "default" hmac parse trigger_settings users 100 9 "body"
                  (some "sha256=d1")
                  no_tables
                ≡ (charted_voyage_id 9, (ingest_github_issue "default" 100 9 p user no_tables).1))))
github_trigger_iff_example =
    github_trigger_iff "default" trigger_settings users 100 9 hmac parse "body" (some "sha256=d1")
      no_tables (λ key. refl)

abbrev bottle_settings : BottleSettings
bottle_settings = record { api_token = "ghp"; api_base_url = "https://api.github.com/" }

abbrev show : ℕ → String
show n = "12"

abbrev value : VoyageStatus → String
value s = "COMPLETED"

abbrev before : Outreach
before = record {
  posted = [];
  entries =
      record {
        repo = "crew/ship";
        author = "captain";
        kind = "note";
        content = "old";
        created_at = 50;
      }
      ∷ [];
}

abbrev accepting : Posted → HttpAnswer
accepting r = http_status 201

abbrev reported : VoyageTables String → Bool → (Posted → HttpAnswer) → BottleResult × Outreach
reported t up http =
    report show show value http bottle_settings up 200
      (issue_voyage "default" 100 9 event (record { user_id = 4; email = "luffy@sea" }) t completed)
      none none none before

comment_sent :
    (reported no_tables true accepting).1.posted
    ≡ record {
      url = "https://api.github.com/repos/crew/ship/issues/12/comments";
      token = "ghp";
      comment =
          build_summary show show value
            (issue_voyage "default" 100 9 event
              (record { user_id = 4; email = "luffy@sea" })
              no_tables
              completed)
            none
            none
            none;
    }
      ∷ []
unfolding report ingest_github_issue
comment_sent = refl

abbrev failing : Posted → HttpAnswer
failing r = http_raises

abbrev ship_voyage : VoyageStatus → VoyageRow
ship_voyage s =
    issue_voyage "default" 100 9 event (record { user_id = 4; email = "luffy@sea" }) no_tables s

abbrev ship_summary : String
ship_summary = build_summary show show value (ship_voyage completed) none none none

report-legs_example :
    ((reported no_tables true failing).0.log_book_recorded
      ≡ (reported no_tables true accepting).0.log_book_recorded)
    × ((reported no_tables true failing).1.entries ≡ (reported no_tables true accepting).1.entries)
    × ((reported no_tables true failing).0.issue_commented
        ≡ (reported no_tables false failing).0.issue_commented)
    × (((reported no_tables true failing).1.posted ≡ [])
        ⊎ ((g : Origin) × (r : String) × (n : ℕ) × ((ship_voyage completed).origin ≡ some g)
            × (g.repo ≡ some r)
            × (g.issue_number ≡ some n)
            × ((reported no_tables true failing).1.posted
                ≡ [] ++ comment_on show show value bottle_settings r n ship_summary ∷ [])))
report-legs_example =
    report-legs show show value bottle_settings 200 (ship_voyage completed) none none none before
      failing accepting true false

report-issue_voyage_example :
    (reported no_tables true accepting ≡ (
      record { issue_commented = true; log_book_recorded = true },
      record {
        posted = [] ++ comment_on show show value bottle_settings "crew/ship" 12 ship_summary ∷ [];
        entries =
            before.entries
            ++ summary_entry 200 "https://github.com/crew/ship.git" ship_summary ∷ [];
      },
    ))
    × (recall "https://github.com/crew/ship.git" 5 [] (reported no_tables true accepting).1.entries
        ≡ summary_entry 200 "https://github.com/crew/ship.git" ship_summary
          ∷ recall "https://github.com/crew/ship.git" 4 [] before.entries)
report-issue_voyage_example =
    report-issue_voyage show show value "default" bottle_settings accepting 100 200 9 4 event
      (record { user_id = 4; email = "luffy@sea" }) no_tables completed none none none before refl
      refl refl (λ r. refl) (refl, tt)
