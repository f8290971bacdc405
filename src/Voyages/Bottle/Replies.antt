-- ===== src/Voyages/Bottle/Replies.antt =====
-- From services/trigger_service.py to services/return_bottle_service.py and services/log_book_service.py.
use text.Mathlib.TextPositions.{eq_refl}
use grand_line.Common.{
  ℕ, suc, String, ◌≡◌, refl, ap, ◌∙◌, Bool, true, false, ◌&&◌, Option, some, List, [], ◌∷◌, ◌++◌,
  inl, inr, str_eq, Bool-cases, ltb, keep, All,
}
use grand_line.Model.Voyage.{VoyageStatus}
use grand_line.Services.LogBook.{LogBookEntry, insert_newest, newest_first, is_of_kinds, recall}
use grand_line.Voyages.Rows.{VoyageRow, VoyageTables}
use grand_line.Voyages.Triggers.{GithubIssueWebhook, User, repo_of, ingest_github_issue}
use grand_line.Voyages.Bottle.{
  BottleSettings, Posted, HttpAnswer, BottleResult, Outreach, has_slash, answered, report,
  build_summary, post_to_github_issue,
}
use grand_line.Voyages.Bottle.Laws.{comment_on, comment_url-issue_url_at}

-- The newest row comes first.
insert_newest-last :
    (e f : LogBookEntry) (fs : List LogBookEntry)
    → ltb f.created_at e.created_at ≡ true
    → insert_newest f (e ∷ fs) ≡ e ∷ insert_newest f fs
insert_newest-last e f fs h = rw h refl

newest_first-last :
    (es : List LogBookEntry) (e : LogBookEntry)
    → All (λ (f : LogBookEntry). ltb f.created_at e.created_at ≡ true) es
    → newest_first (es ++ e ∷ []) ≡ e ∷ newest_first es
newest_first-last [] e h = refl
newest_first-last (f ∷ es) e (older, rest) =
    rw (newest_first-last es e rest) (insert_newest-last e f (newest_first es) older)

keep-last :
    (p : LogBookEntry → Bool) (es : List LogBookEntry) (e : LogBookEntry)
    → p e ≡ true
    → keep p (es ++ e ∷ []) ≡ keep p es ++ e ∷ []
keep-last p [] e h = rw h refl
keep-last p (f ∷ es) e h = elim (Bool-cases (p f)) [
  | inl k ↦ rw (k, keep-last p es e h) refl
  | inr k ↦ rw (k, keep-last p es e h) refl
]

keep-older :
    (p : LogBookEntry → Bool) (es : List LogBookEntry) (e : LogBookEntry)
    → All (λ (f : LogBookEntry). ltb f.created_at e.created_at ≡ true) es
    → All (λ (f : LogBookEntry). ltb f.created_at e.created_at ≡ true) (keep p es)
keep-older p [] e h = tt
keep-older p (f ∷ es) e (older, rest) = elim (Bool-cases (p f)) [
  | inl k ↦ rw k (older, keep-older p es e rest)
  | inr k ↦ rw k (keep-older p es e rest)
]

-- An entry that is newer than all others is the first that its repository recalls.
recall-newest :
    (limit : ℕ) (es : List LogBookEntry) (e : LogBookEntry)
    → All (λ (f : LogBookEntry). ltb f.created_at e.created_at ≡ true) es
    → recall e.repo (suc limit) [] (es ++ e ∷ []) ≡ e ∷ recall e.repo limit [] es
unfolding recall
recall-newest limit es e older =
    let own = λ (f : LogBookEntry). str_eq f.repo e.repo && is_of_kinds [] f in
    let mine : own e ≡ true = rw (eq_refl e.repo) refl in
    rw (keep-last own es e mine, newest_first-last (keep own es) e (keep-older own es e older)) refl

-- The voyage of an issue, in any status.
abbrev pub issue_voyage :
    {J : Type 0} → J → ℕ → ℕ → GithubIssueWebhook → User → VoyageTables J → VoyageStatus → VoyageRow
issue_voyage mapping now id p user t s = record (ingest_github_issue mapping now id p user t).0 {
  status = s;
}

abbrev pub summary_entry : ℕ → String → String → LogBookEntry
summary_entry now repo summary = record {
  repo = repo;
  author = "return-bottle";
  kind = "summary";
  content = summary;
  created_at = now;
}

module _ (show : ℕ → String) (show_seconds : ℕ → String)
    (status_value : VoyageStatus → String) where
  report-answered :
      {J : Type 0} (mapping : J) (settings : BottleSettings) (http : Posted → HttpAnswer)
      (received now id : ℕ) (p : GithubIssueWebhook) (user : User) (t : VoyageTables J)
      (s : VoyageStatus) (url : Option String) (duration phases : Option ℕ) (o : Outreach)
      → str_eq settings.api_token "" ≡ false
      → has_slash p.full_name ≡ true
      → str_eq (repo_of p.clone_url p.full_name) "" ≡ false
      → ((r : Posted) → answered (http r) ≡ some true)
      → report show show_seconds status_value http settings true now
          (issue_voyage mapping received id p user t s)
          url
          duration
          phases
          o
        ≡ (
          record { issue_commented = true; log_book_recorded = true },
          record {
            posted =
                o.posted
                ++ comment_on show show_seconds status_value settings p.full_name p.issue.number (
                    build_summary show show_seconds status_value
                      (issue_voyage mapping received id p user t s)
                      url
                      duration
                      phases)
                  ∷ [];
            entries =
                o.entries
                ++ summary_entry now (repo_of p.clone_url p.full_name) (
                    build_summary show show_seconds status_value
                      (issue_voyage mapping received id p user t s)
                      url
                      duration
                      phases)
                  ∷ [];
          },
        )
  unfolding report post_to_github_issue ingest_github_issue
  report-answered mapping settings http received now id p user t s url duration phases o token slash
        target taken =
      let url_eq =
        comment_url-issue_url_at show show_seconds status_value settings.api_base_url p.full_name
          p.issue.number slash in
      rw (token, slash, url_eq, taken _, target) refl

  -- A voyage that an issue charted, reported with a token, where GitHub takes the comment and the
  -- Log Book the entry: the comment stands on that issue, and the next voyage of the repository
  -- recalls the same summary first, if no entry of the Log Book is as new.
  pub report-issue_voyage :
      {J : Type 0} (mapping : J) (settings : BottleSettings) (http : Posted → HttpAnswer)
      (received now id limit : ℕ) (p : GithubIssueWebhook) (user : User) (t : VoyageTables J)
      (s : VoyageStatus) (url : Option String) (duration phases : Option ℕ) (o : Outreach)
      → str_eq settings.api_token "" ≡ false
      → has_slash p.full_name ≡ true
      → str_eq (repo_of p.clone_url p.full_name) "" ≡ false
      → ((r : Posted) → answered (http r) ≡ some true)
      → All (λ (f : LogBookEntry). ltb f.created_at now ≡ true) o.entries
      → (report show show_seconds status_value http settings true now
            (issue_voyage mapping received id p user t s)
            url
            duration
            phases
            o
          ≡ (
            record { issue_commented = true; log_book_recorded = true },
            record {
              posted =
                  o.posted
                  ++ comment_on show show_seconds status_value settings p.full_name p.issue.number (
                      build_summary show show_seconds status_value
                        (issue_voyage mapping received id p user t s)
                        url
                        duration
                        phases)
                    ∷ [];
              entries =
                  o.entries
                  ++ summary_entry now (repo_of p.clone_url p.full_name) (
                      build_summary show show_seconds status_value
                        (issue_voyage mapping received id p user t s)
                        url
                        duration
                        phases)
                    ∷ [];
            },
          ))
        × (recall
              (repo_of p.clone_url p.full_name)
              (suc limit)
              []
              (report show show_seconds status_value http settings true now
                (issue_voyage mapping received id p user t s)
                url
                duration
                phases
                o).1.entries
            ≡ summary_entry now (repo_of p.clone_url p.full_name) (
                build_summary show show_seconds status_value
                  (issue_voyage mapping received id p user t s)
                  url
                  duration
                  phases)
              ∷ recall (repo_of p.clone_url p.full_name) limit [] o.entries)
  report-issue_voyage mapping settings http received now id limit p user t s url duration phases o
        token slash target taken older =
      let v = issue_voyage mapping received id p user t s in
      let summary = build_summary show show_seconds status_value v url duration phases in
      let repo = repo_of p.clone_url p.full_name in
      let whole =
        report-answered mapping settings http received now id p user t s url duration phases o token
          slash target taken in
      (
        whole,
        ap (λ (r : BottleResult × Outreach). recall repo (suc limit) [] r.1.entries) whole
            ∙ recall-newest limit o.entries (summary_entry now repo summary) older,
      )
