-- ===== src/Git/Laws/Cleaning.antt =====
-- The two cleanups.
use grand_line.Common.{
  ℕ, ◌≡◌, refl, sym, ◌∙◌, ap, true, false, ◌||◌, Option, none, some, List, [], ◌∷◌, ◌++◌, ◌==◌,
  ==_iff, arith, Text, contains, inl, inr,
}
use grand_line.Git.Checks.{ParsedUrl}
use grand_line.Git.Desk.{destroy_call, Backend, Desk, called, lookup, without}
use grand_line.Git.History.{destroy_taken, cleanup_branches, destroy_each, cleanup_all}
use grand_line.Git.Laws.Frames.{created_in, ended_in}
use grand_line.Git.Laws.Accounting.{
  registered, is_kept, all_kept, Tracked, all_by-weaken, created_in-destroy_call,
  ended_in-destroy_call, contains-last, contains-snoc, is_taken, registered-without, without_key,
  keys-without,
}
use grand_line.Git.Laws.Cloning.{or-cases, or-left, or-right}

-- The row is gone, and a destroy of its sandbox is tried if it had one.
abbrev emptied : ℕ → Desk → Desk
emptied v d = record d { repos = without v d.repos; repo_urls = without v d.repo_urls }

never : false ≡ true → ⊥
never h = ground arith

is_taken_iff : (t s : ℕ) → is_taken t (some s) ≡ true → s ≡ t
is_taken_iff t s h = (==_iff s t).0 h

module _ (backend : Backend) (urlparse : Text → ParsedUrl) (decimal : ℕ → Text) where
  destroy_taken-Tracked :
      (v : ℕ) (o : Option ℕ) (d : Desk)
      → ((t : ℕ)
          → registered t d.repos ≡ true
          → (registered t (without v d.repos) || is_taken t o) ≡ true)
      → Tracked d
      → Tracked (destroy_taken backend urlparse decimal o (emptied v d)).1
  destroy_taken-Tracked v none d k (h, e) = (
    all_by-weaken (is_kept d.repos (ended_in d.calls)) _ (created_in d.calls)
        (λ t p. elim (or-cases (registered t d.repos) (contains t (ended_in d.calls)) p) [
          | inl r ↦ elim (or-cases (registered t (without v d.repos)) false (k t r)) [
            | inl q ↦ or-left _ _ q
            | inr q ↦ absurd (never q)
          ]
          | inr r ↦ or-right _ _ r
        ])
        h,
    keys-without v d.repos ∙ ap (without_key v) e ∙ sym (keys-without v d.repo_urls),
  )
  destroy_taken-Tracked v (some s) d k (h, e) = (
    rw
        (
          created_in-destroy_call (backend.destroy d.calls s) d.calls s,
          ended_in-destroy_call (backend.destroy d.calls s) d.calls s,
        )
        (all_by-weaken (is_kept d.repos (ended_in d.calls)) _ (created_in d.calls)
          (λ t p. elim (or-cases (registered t d.repos) (contains t (ended_in d.calls)) p) [
            | inl r ↦
                elim (or-cases (registered t (without v d.repos)) (is_taken t (some s)) (k t r)) [
                  | inl q ↦ or-left _ _ q
                  | inr q ↦ or-right _ _ (
                      ap (λ u. contains u (ended_in d.calls ++ s ∷ [])) (sym (is_taken_iff t s q))
                      ∙ contains-last (ended_in d.calls) s)
                ]
            | inr r ↦ or-right _ _ (contains-snoc (ended_in d.calls) s t r)
          ])
          h),
    keys-without v d.repos ∙ ap (without_key v) e ∙ sym (keys-without v d.repo_urls),
  )

  pub cleanup_branches-Tracked :
      (v : ℕ) (d : Desk) → Tracked d → Tracked (cleanup_branches backend urlparse decimal v d).1
  unfolding cleanup_branches
  cleanup_branches-Tracked v d h =
      destroy_taken-Tracked v (lookup v d.repos) d (λ t r. registered-without v t d.repos r) h

  -- Behind the rows that were destroyed, every sandbox is one of the rest, or its destroy was tried.
  destroy_each-kept :
      (rows : List (ℕ × ℕ)) (d : Desk)
      → all_kept rows (ended_in d.calls) (created_in d.calls) ≡ true
      → all_kept []
          (ended_in (destroy_each backend urlparse decimal rows d).calls)
          (created_in (destroy_each backend urlparse decimal rows d).calls)
        ≡ true
  unfolding destroy_each
  destroy_each-kept [] d h = h
  destroy_each-kept ((v, s) ∷ rows) d h =
      destroy_each-kept rows (called (destroy_call (backend.destroy d.calls s) s) d) (
        rw
          (
            created_in-destroy_call (backend.destroy d.calls s) d.calls s,
            ended_in-destroy_call (backend.destroy d.calls s) d.calls s,
          )
          (all_by-weaken (is_kept ((v, s) ∷ rows) (ended_in d.calls)) _ (created_in d.calls)
            (λ t p.
              elim (or-cases (registered t ((v, s) ∷ rows)) (contains t (ended_in d.calls)) p) [
                | inl r ↦ elim (or-cases (s == t) (registered t rows) r) [
                  | inl q ↦ or-right _ _ (
                      ap (λ u. contains u (ended_in d.calls ++ s ∷ [])) (sym ((==_iff s t).0 q))
                      ∙ contains-last (ended_in d.calls) s)
                  | inr q ↦ or-left _ _ q
                ]
                | inr r ↦ or-right _ _ (contains-snoc (ended_in d.calls) s t r)
              ])
            h))

  pub cleanup_all-Tracked :
      (d : Desk) → Tracked d → Tracked (cleanup_all backend urlparse decimal d).1
  unfolding cleanup_all
  cleanup_all-Tracked d (h, e) = (destroy_each-kept d.repos d h, refl)
