-- ===== src/Voyages/Bottle/Legs.antt =====
-- `report` of services/return_bottle_service.py with its two legs.
use grand_line.Common.{
  ℕ, String, ◌≡◌, refl, ap, sym, ◌∙◌, Bool, Option, some, [], ◌∷◌, ◌++◌, inl, inr, ◌⊎◌,
}
use grand_line.Model.Voyage.{VoyageStatus}
use grand_line.Voyages.Rows.{Origin, VoyageRow}
use grand_line.Voyages.Bottle.{
  BottleSettings, Posted, HttpAnswer, Outreach, report_issue, report, build_summary,
}
use grand_line.Voyages.Bottle.Laws.{
  comment_on, IsSent, report_issue-IsSent, log_book-posted, log_book-entries,
}

module _ (show : ℕ → String) (show_seconds : ℕ → String)
    (status_value : VoyageStatus → String) where
  sent_entries :
      (http : Posted → HttpAnswer) (settings : BottleSettings) (origin : Option Origin)
      (summary : String) (o o' : Outreach)
      → IsSent show show_seconds status_value http settings origin summary o o'
      → o'.entries ≡ o.entries
  sent_entries http settings origin summary o o' (inl same) = ap (λ (x : Outreach). x.entries) same
  sent_entries http settings origin summary o o' (inr (g, r, n, _, _, _, same)) =
      ap (λ (x : Outreach). x.entries) same

  -- Whatever the HTTP client answers or raises, the Log Book is written and reported in the same way,
  -- and whatever becomes of the Log Book, the issue is; and a report sends nothing, or one comment, on
  -- the issue of the voyage's origin, at the configured host with the configured token.
  pub report-legs :
      (settings : BottleSettings) (now : ℕ) (v : VoyageRow) (url : Option String)
      (duration phases : Option ℕ) (o : Outreach) (http http' : Posted → HttpAnswer) (up up' : Bool)
      → ((report show show_seconds status_value http settings up now v url duration phases
            o).0.log_book_recorded
          ≡ (report show show_seconds status_value http' settings up now v url duration phases
              o).0.log_book_recorded)
        × ((report show show_seconds status_value http settings up now v url duration phases
              o).1.entries
            ≡ (report show show_seconds status_value http' settings up now v url duration phases
                o).1.entries)
        × ((report show show_seconds status_value http settings up now v url duration phases
              o).0.issue_commented
            ≡ (report show show_seconds status_value http settings up' now v url duration phases
                o).0.issue_commented)
        × (((report show show_seconds status_value http settings up now v url duration phases
                o).1.posted
              ≡ o.posted)
            ⊎ ((g : Origin) × (r : String) × (n : ℕ) × (v.origin ≡ some g)
                × (g.repo ≡ some r)
                × (g.issue_number ≡ some n)
                × ((report show show_seconds status_value http settings up now v url duration phases
                      o).1.posted
                    ≡ o.posted
                      ++ comment_on show show_seconds status_value settings r n
                          (build_summary show show_seconds status_value v url duration phases)
                        ∷ [])))
  unfolding report
  report-legs settings now v url duration phases o http http' up up' =
      let summary = build_summary show show_seconds status_value v url duration phases in
      let leg = (report_issue show show_seconds status_value http settings v.origin summary o).1 in
      let leg' =
        (report_issue show show_seconds status_value http' settings v.origin summary o).1 in
      let sent =
        report_issue-IsSent show show_seconds status_value http settings v.origin summary o in
      let sent' =
        report_issue-IsSent show show_seconds status_value http' settings v.origin summary o in
      let same =
        sent_entries http settings v.origin summary o leg sent
        ∙ sym (sent_entries http' settings v.origin summary o leg' sent') in
      let book = log_book-entries up now v.target_repo summary leg leg' same in
      (
        book.1,
        book.0,
        refl,
        elim sent [
          | inl kept ↦ inl (
              log_book-posted up now v.target_repo summary leg
              ∙ ap (λ (x : Outreach). x.posted) kept)
          | inr (g, r, n, origin, repo, number, added) ↦ inr (
            g,
            r,
            n,
            origin,
            repo,
            number,
            log_book-posted up now v.target_repo summary leg
                ∙ ap (λ (x : Outreach). x.posted) added,
          )
        ],
      )
