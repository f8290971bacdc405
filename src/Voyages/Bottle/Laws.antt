-- ===== src/Voyages/Bottle/Laws.antt =====
-- The comment and the Log Book entry of services/return_bottle_service.py, one leg at a time.
use Prim.Native.Char.{code, Char}
use Prim.Native.String.{◌++◌ as ◌+s+◌}
use text.Mathlib.TextLemmas.{nil-append, cons-append, append_assoc as string_assoc}
use text.Mathlib.TextEquality.{Char-path}
use grand_line.Common.{
  ℕ, String, ◌≡◌, refl, ap, sym, ◌∙◌, Bool, true, not, ◌&&◌, ◌==◌, Option, none, some, [], ◌∷◌,
  ◌++◌, inl, inr, ◌⊎◌, str_eq, arith, Bool-cases,
}
use grand_line.Model.Voyage.{VoyageStatus}
use grand_line.Voyages.Rows.{Origin}
use grand_line.Voyages.Bottle.{
  BottleSettings, Posted, HttpAnswer, Outreach, has_slash, before_slash, behind_slash, rstrip_slash,
  comment_url, issue_of, post_comment, post_to_github_issue, report_issue, report_log_book,
}

abbrev slash : Char
slash = "/"

slash_joined : (s : String) → "/" +s+ s ≡ String.◌∷◌ slash s
slash_joined s = cons-append slash "" s ∙ ap (λ r. String.◌∷◌ slash r) (nil-append s)

-- The owner, the slash and the name are the repository again.
partition_joined :
    (s : String) → has_slash s ≡ true → before_slash s +s+ ("/" +s+ behind_slash s) ≡ s
partition_joined String.[] h = cc
partition_joined (String.◌∷◌ c s) h = elim (Bool-cases (code c == 47)) [
  | inl e ↦
      let same : c ≡ slash = Char-path c slash (ground arith) in
      rw (e, nil-append ("/" +s+ s)) (slash_joined s ∙ ap (λ k. String.◌∷◌ k s) (sym same))
  | inr e ↦
      rw
        (
          e,
          cons-append c (before_slash s) ("/" +s+ behind_slash s),
          partition_joined s (ground arith),
        )
        refl
]

module _ (show : ℕ → String) (show_seconds : ℕ → String)
    (status_value : VoyageStatus → String) where
  -- The URL of the comments of an issue, under the configured host.
  abbrev pub issue_url_at : String → String → ℕ → String
  issue_url_at base repo number =
      rstrip_slash base
      +s+ ("/repos/" +s+ (repo +s+ ("/issues/" +s+ (show number +s+ "/comments"))))

  pub comment_url-issue_url_at :
      (base repo : String) (number : ℕ)
      → has_slash repo ≡ true
      → comment_url show show_seconds status_value base repo number ≡ issue_url_at base repo number
  comment_url-issue_url_at base repo number h =
      ap (λ r. rstrip_slash base +s+ ("/repos/" +s+ r))
        (ap (λ r. before_slash repo +s+ r)
            (sym
              (string_assoc "/" (behind_slash repo) ("/issues/" +s+ (show number +s+ "/comments"))))
          ∙ sym (
              string_assoc (before_slash repo) ("/" +s+ behind_slash repo)
                ("/issues/" +s+ (show number +s+ "/comments")))
          ∙ ap (λ r. r +s+ ("/issues/" +s+ (show number +s+ "/comments")))
              (partition_joined repo h))

  -- The one request that a report may send.
  abbrev pub comment_on : BottleSettings → String → ℕ → String → Posted
  comment_on settings repo number body = record {
    url = issue_url_at settings.api_base_url repo number;
    token = settings.api_token;
    comment = body;
  }

  post_comment-cases :
      (http : Posted → HttpAnswer) (settings : BottleSettings) (repo : Option String)
      (number : Option ℕ) (body : String) (o : Outreach)
      → ((post_comment show show_seconds status_value http settings (issue_of repo number) body o).1
          ≡ o)
        ⊎ ((r : String) × (n : ℕ) × (repo ≡ some r)
            × (number ≡ some n)
            × ((post_comment show show_seconds status_value http settings
                  (issue_of repo number)
                  body
                  o).1
                ≡ record o { posted = o.posted ++ comment_on settings r n body ∷ [] }))
  post_comment-cases http settings none number body o = inl refl
  post_comment-cases http settings (some r) none body o = inl refl
  post_comment-cases http settings (some r) (some n) body o = elim (Bool-cases (has_slash r)) [
    | inl e ↦
        inr (r, n, refl, refl, rw (e, comment_url-issue_url_at settings.api_base_url r n e) refl)
    | inr e ↦ inl (rw e refl)
  ]

  abbrev pub IsSent :
      (Posted → HttpAnswer) → BottleSettings → Option Origin → String → Outreach → Outreach → Type 0
  IsSent http settings origin summary o o' =
      (o' ≡ o)
      ⊎ ((g : Origin) × (r : String) × (n : ℕ) × (origin ≡ some g)
          × (g.repo ≡ some r)
          × (g.issue_number ≡ some n)
          × (o' ≡ record o { posted = o.posted ++ comment_on settings r n summary ∷ [] }))

  pub report_issue-IsSent :
      (http : Posted → HttpAnswer) (settings : BottleSettings) (origin : Option Origin)
      (summary : String) (o : Outreach)
      → IsSent http settings origin summary o
          (report_issue show show_seconds status_value http settings origin summary o).1
  unfolding post_to_github_issue
  report_issue-IsSent http settings none summary o = inl refl
  report_issue-IsSent http settings (some g) summary o =
      elim (Bool-cases (str_eq g.type "github_issue")) [
        | inr other ↦ inl (rw other refl)
        | inl typed ↦ elim (Bool-cases (str_eq settings.api_token "")) [
          | inl empty ↦ inl (rw (typed, empty) refl)
          | inr token ↦ elim (post_comment-cases http settings g.repo g.issue_number summary o) [
            | inl same ↦ inl (rw (typed, token) same)
            | inr (r, n, repo, number, sent) ↦
                inr (g, r, n, refl, repo, number, rw (typed, token) sent)
          ]
        ]
      ]

pub log_book-posted :
    (up : Bool) (now : ℕ) (repo : Option String) (summary : String) (o : Outreach)
    → (report_log_book up now repo summary o).1.posted ≡ o.posted
log_book-posted up now none summary o = refl
log_book-posted up now (some r) summary o = elim (Bool-cases (not (str_eq r "") && up)) [
  | inl e ↦ rw e refl
  | inr e ↦ rw e refl
]

pub log_book-entries :
    (up : Bool) (now : ℕ) (repo : Option String) (summary : String) (o o' : Outreach)
    → o.entries ≡ o'.entries
    → ((report_log_book up now repo summary o).1.entries
        ≡ (report_log_book up now repo summary o').1.entries)
      × ((report_log_book up now repo summary o).0 ≡ (report_log_book up now repo summary o').0)
log_book-entries up now none summary o o' h = (h, refl)
log_book-entries up now (some r) summary o o' h = elim (Bool-cases (not (str_eq r "") && up)) [
  | inl e ↦ (rw (e, h) refl, rw e refl)
  | inr e ↦ (rw e h, rw e refl)
]
