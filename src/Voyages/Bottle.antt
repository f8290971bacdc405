-- ===== src/Voyages/Bottle.antt =====
-- services/return_bottle_service.py and api/v1/return_bottle.py. The HTTP client is a parameter, and so
-- is the wording of numbers and durations.
pub mod Laws
pub mod Legs
pub mod Replies
use Prim.Native.Char.{code}
use Prim.Native.String.{◌++◌ as ◌+s+◌}
use grand_line.Common.{
  ℕ, String, Bool, true, false, not, ◌&&◌, ◌||◌, Option, none, some, List, [], ◌∷◌, ◌++◌, ◌==◌,
  if◌then◌else◌, str_eq, leb, ltb,
}
use grand_line.Model.Voyage.{VoyageStatus, completed}
use grand_line.Services.LogBook.{LogBookEntry, record_entry}
use grand_line.Voyages.Rows.{Origin, VoyageRow}

pub record BottleSettings : Type 0 where
  pub api_token : String
  pub api_base_url : String

-- A request that was sent: the URL, the token in its header, and the comment.
pub record Posted : Type 0 where
  pub url : String
  pub token : String
  pub comment : String

-- The status of the answer, or an exception of the client.
pub data HttpAnswer : Type 0 where
  http_status : ℕ → HttpAnswer
  http_raises : HttpAnswer

pub record BottleResult : Type 0 where
  pub issue_commented : Bool
  pub log_book_recorded : Bool

-- What a report leaves behind: the requests and the entries of the Log Book.
pub record Outreach : Type 0 where
  pub posted : List Posted
  pub entries : List LogBookEntry

abbrev pub has_slash : String → Bool
has_slash String.[] = false
has_slash (String.◌∷◌ c s) = (code c == 47) || has_slash s

-- `owner, _, name = repo.partition("/")`
abbrev pub before_slash : String → String
before_slash String.[] = String.[]
before_slash (String.◌∷◌ c s) =
    let rest = before_slash s in if code c == 47 then String.[] else String.◌∷◌ c rest

abbrev pub behind_slash : String → String
behind_slash String.[] = String.[]
behind_slash (String.◌∷◌ c s) = let rest = behind_slash s in if code c == 47 then s else rest

-- `base.rstrip("/")`
abbrev pub rstrip_slash : String → String
rstrip_slash String.[] = String.[]
rstrip_slash (String.◌∷◌ c s) =
    let rest = rstrip_slash s in
    if (code c == 47) && str_eq rest "" then String.[] else String.◌∷◌ c rest

abbrev pub lines : List String → String
lines [] = ""
lines (l ∷ []) = l
lines (l ∷ m ∷ ls) = l +s+ "\n" +s+ lines (m ∷ ls)

abbrev pub title_or : String → String
title_or title = if str_eq title "" then "(untitled voyage)" else title

abbrev pub url_line : Option String → List String
url_line none = []
url_line (some url) = if str_eq url "" then [] else ("- **Deployed to**: " +s+ url) ∷ []

-- The repository and the number of an origin that has both.
abbrev pub issue_of : Option String → Option ℕ → Option (String × ℕ)
issue_of none number = none
issue_of (some repo) none = none
issue_of (some repo) (some number) = if has_slash repo then some (repo, number) else none

abbrev pub is_success : ℕ → Bool
is_success status = leb 200 status && ltb status 300

abbrev pub answered : HttpAnswer → Option Bool
answered http_raises = none
answered (http_status status) = some (is_success status)

abbrev pub flag : Option Bool → Bool
flag none = false
flag (some b) = b

-- The leg of the Log Book; `up` tells whether the database takes the entry.
abbrev pub report_log_book : Bool → ℕ → Option String → String → Outreach → Bool × Outreach
report_log_book up now none summary o = (false, o)
report_log_book up now (some repo) summary o =
    if not (str_eq repo "") && up
    then (
      true,
      record o {
        entries =
            record_entry
              (record {
                repo = repo;
                author = "return-bottle";
                kind = "summary";
                content = summary;
                created_at = now;
              })
              o.entries;
      },
    )
    else (false, o)

-- `POST /{voyage_id}/return-bottle`: nothing, with 409, for a voyage that is not COMPLETED.
abbrev pub send_if :
    VoyageStatus → (Outreach → BottleResult × Outreach) → Outreach → Option BottleResult × Outreach
send_if completed send o = let (r, o') = send o in (some r, o')
send_if status send o = (none, o)

module _ (show : ℕ → String) (show_seconds : ℕ → String)
    (status_value : VoyageStatus → String) where
  abbrev pub count_line : Option ℕ → List String
  count_line none = []
  count_line (some n) = ("- **Phases charted**: " +s+ show n) ∷ []

  abbrev pub duration_line : Option ℕ → List String
  duration_line none = []
  duration_line (some d) = ("- **Voyage duration**: " +s+ show_seconds d +s+ "s") ∷ []

  unfoldable pub build_summary : VoyageRow → Option String → Option ℕ → Option ℕ → String
  build_summary v url duration phases = lines (
      ("🍶 **The crew has returned!**"
        ∷ ""
        ∷ ("The voyage **" +s+ title_or v.title +s+ "** has reached port.")
        ∷ ""
        ∷ ("- **Status**: " +s+ status_value v.status)
        ∷ [])
      ++ count_line phases
      ++ duration_line duration
      ++ url_line url
      ++ ("" ∷ "Fair winds — the Log Pose held, and the deed is done. ⚓" ∷ []))

  abbrev pub comment_url : String → String → ℕ → String
  comment_url base repo number =
      rstrip_slash base
      +s+ ("/repos/"
          +s+ (before_slash repo
              +s+ ("/" +s+ (behind_slash repo +s+ ("/issues/" +s+ (show number +s+ "/comments"))))))

  abbrev pub post_comment :
      (Posted → HttpAnswer)
      → BottleSettings
      → Option (String × ℕ)
      → String
      → Outreach
      → Option Bool × Outreach
  post_comment http settings none body o = (some false, o)
  post_comment http settings (some (repo, number)) body o =
      let request : Posted = record {
        url = comment_url settings.api_base_url repo number;
        token = settings.api_token;
        comment = body;
      } in
      (answered (http request), record o { posted = o.posted ++ request ∷ [] })

  -- No value is returned where the client raises.
  unfoldable pub post_to_github_issue :
      (Posted → HttpAnswer) → BottleSettings → Origin → String → Outreach → Option Bool × Outreach
  post_to_github_issue http settings origin body o =
      if str_eq settings.api_token ""
      then (some false, o)
      else post_comment http settings (issue_of origin.repo origin.issue_number) body o

  -- The leg of the issue: an exception is logged and leaves the flag as it was.
  abbrev pub report_issue :
      (Posted → HttpAnswer) → BottleSettings → Option Origin → String → Outreach → Bool × Outreach
  report_issue http settings none summary o = (false, o)
  report_issue http settings (some origin) summary o =
      let (sent, o') = post_to_github_issue http settings origin summary o in
      if str_eq origin.type "github_issue" then (flag sent, o') else (false, o)

  unfoldable pub report :
      (Posted → HttpAnswer)
      → BottleSettings
      → Bool
      → ℕ
      → VoyageRow
      → Option String
      → Option ℕ
      → Option ℕ
      → Outreach
      → BottleResult × Outreach
  unfolding post_to_github_issue build_summary
  report http settings up now v url duration phases o =
      let summary = build_summary v url duration phases in
      let (commented, o') = report_issue http settings v.origin summary o in
      let (recorded, o'') = report_log_book up now v.target_repo summary o' in
      (record { issue_commented = commented; log_book_recorded = recorded }, o'')

  unfoldable pub send_return_bottle :
      (Posted → HttpAnswer)
      → BottleSettings
      → Bool
      → ℕ
      → VoyageRow
      → Outreach
      → Option BottleResult × Outreach
  unfolding report
  send_return_bottle http settings up now v o =
      send_if v.status (report http settings up now v none none none) o
