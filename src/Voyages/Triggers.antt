-- ===== src/Voyages/Triggers.antt =====
-- services/trigger_service.py and api/v1/triggers.py: the signed webhook that charts a voyage from an
-- issue. HMAC and the JSON parser are parameters, as are fresh ids and times.
pub mod Laws
use Prim.Native.Char.{code}
use text.Mathlib.Text.{starts_with}
use grand_line.Common.{
  ℕ, zero, suc, String, Bool, true, false, ◌&&◌, ◌||◌, Option, none, some, List, [], ◌∷◌,
  if◌then◌else◌, str_eq, leb, ltb, any_by,
}
use grand_line.Voyages.Rows.{
  Origin, VoyageRow, VoyageTables, charted_voyage, add_voyage, default_dial_config,
}

pub record GithubIssue : Type 0 where
  pub number : ℕ
  pub title : String
  pub body : Option String
  pub html_url : String
  pub labels : List String

pub record GithubIssueWebhook : Type 0 where
  pub action : String
  pub issue : GithubIssue
  pub full_name : String
  pub clone_url : Option String
  pub login : String

pub record User : Type 0 where
  pub user_id : ℕ
  pub email : String

pub record TriggerSettings : Type 0 where
  pub webhook_secret : Option String
  pub trigger_label : String
  pub default_user_email : Option String

-- `hmac.compare_digest` raises a TypeError on a text that is not ASCII.
pub data Digest : Type 0 where
  digest_says : Bool → Digest
  type_error : Digest

abbrev pub is_ascii : String → Bool
is_ascii String.[] = true
is_ascii (String.◌∷◌ c s) = ltb (code c) 128 && is_ascii s

abbrev pub compare_digest : String → String → Digest
compare_digest a b = if is_ascii a && is_ascii b then digest_says (str_eq a b) else type_error

-- `s[n:]` and `s[:n]`
abbrev pub from_char : ℕ → String → String
from_char zero s = s
from_char (suc n) String.[] = String.[]
from_char (suc n) (String.◌∷◌ c s) = from_char n s

abbrev pub to_char : ℕ → String → String
to_char zero s = String.[]
to_char (suc n) String.[] = String.[]
to_char (suc n) (String.◌∷◌ c s) = String.◌∷◌ c (to_char n s)

-- The digest in the header, behind `sha256=`.
abbrev pub digest_of : Option String → Option String
digest_of none = none
digest_of (some header) = if starts_with header "sha256=" then some (from_char 7 header) else none

abbrev pub check_digest : String → Option String → Digest
check_digest computed none = digest_says false
check_digest computed (some expected) = compare_digest computed expected

module _ (hmac : String → String → String) where
  unfoldable pub verify_github_signature : String → Option String → Option String → Digest
  verify_github_signature raw header none = digest_says false
  verify_github_signature raw header (some secret) =
      check_digest (hmac secret raw) (digest_of header)

abbrev pub is_among : String → List String → Bool
is_among s xs = any_by (λ x. str_eq x s) xs

unfoldable pub should_trigger : String → GithubIssueWebhook → Bool
should_trigger label p =
    is_among p.action ("opened" ∷ "labeled" ∷ []) && is_among label p.issue.labels

pub data TriggerError : Type 0 where
  user_unconfigured user_not_found : TriggerError

pub data Resolved : Type 0 where
  resolved : User → Resolved
  unresolved : TriggerError → Resolved

abbrev pub user_by_email : String → List User → Resolved
user_by_email email [] = unresolved user_not_found
user_by_email email (u ∷ us) =
    let rest = user_by_email email us in if str_eq u.email email then resolved u else rest

unfoldable pub resolve_trigger_user : Option String → List User → Resolved
resolve_trigger_user none users = unresolved user_unconfigured
resolve_trigger_user (some email) users =
    if str_eq email "" then unresolved user_unconfigured else user_by_email email users

abbrev pub origin_of : ℕ → GithubIssueWebhook → Origin
origin_of now p = record {
  type = "github_issue";
  repo = some p.full_name;
  issue_number = some p.issue.number;
  issue_url = p.issue.html_url;
  issue_title = p.issue.title;
  sender = p.login;
  received_at = now;
}

-- `repo.clone_url or repo.full_name`
abbrev pub repo_of : Option String → String → String
repo_of none full_name = full_name
repo_of (some url) full_name = if str_eq url "" then full_name else url

pub data TriggerResponse : Type 0 where
  invalid_signature : TriggerResponse
  ignored : TriggerResponse
  trigger_failed : TriggerError → TriggerResponse
  charted_voyage_id : ℕ → TriggerResponse
  server_error : TriggerResponse

module _ {J : Type 0} (mapping : J) where
  unfoldable pub ingest_github_issue :
      ℕ → ℕ → GithubIssueWebhook → User → VoyageTables J → VoyageRow × VoyageTables J
  ingest_github_issue now id p user t =
      let v =
        charted_voyage id user.user_id (to_char 255 p.issue.title) p.issue.body
          (some (repo_of p.clone_url p.full_name)) (some (origin_of now p)) in
      (v, add_voyage v (default_dial_config mapping id) t)

  -- The handler behind the signature, the parser, the gate and the user.
  abbrev pub chart_for :
      ℕ → ℕ → GithubIssueWebhook → Resolved → VoyageTables J → TriggerResponse × VoyageTables J
  chart_for now id p (unresolved e) t = (trigger_failed e, t)
  chart_for now id p (resolved user) t =
      (charted_voyage_id id, (ingest_github_issue now id p user t).1)

  -- A body that is no such webhook raises a ValidationError, for which there is no handler.
  abbrev pub trigger_parsed :
      TriggerSettings
      → List User
      → ℕ
      → ℕ
      → Option GithubIssueWebhook
      → VoyageTables J
      → TriggerResponse × VoyageTables J
  trigger_parsed settings users now id none t = (server_error, t)
  trigger_parsed settings users now id (some p) t =
      if should_trigger settings.trigger_label p
      then chart_for now id p (resolve_trigger_user settings.default_user_email users) t
      else (ignored, t)

  abbrev pub trigger_verified :
      TriggerSettings
      → List User
      → ℕ
      → ℕ
      → Option GithubIssueWebhook
      → Digest
      → VoyageTables J
      → TriggerResponse × VoyageTables J
  trigger_verified settings users now id p type_error t = (server_error, t)
  trigger_verified settings users now id p (digest_says false) t = (invalid_signature, t)
  trigger_verified settings users now id p (digest_says true) t =
      trigger_parsed settings users now id p t

  unfoldable pub github_trigger :
      (String → String → String)
      → (String → Option GithubIssueWebhook)
      → TriggerSettings
      → List User
      → ℕ
      → ℕ
      → String
      → Option String
      → VoyageTables J
      → TriggerResponse × VoyageTables J
  unfolding verify_github_signature should_trigger resolve_trigger_user ingest_github_issue
  github_trigger hmac parse settings users now id raw header t =
      trigger_verified settings users now id (parse raw)
        (verify_github_signature hmac raw header settings.webhook_secret) t
