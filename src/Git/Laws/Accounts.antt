-- ===== src/Git/Laws/Accounts.antt =====
-- The sandboxes that were destroyed, and those whose destroy raised.
use grand_line.Common.{
  ℕ, ◌≡◌, refl, sym, ◌∙◌, Bool, true, ◌||◌, List, [], ◌∷◌, arith, all_by, contains,
}
use grand_line.Git.Desk.{Call, created, executed, destroyed, destroy_raised, Desk}
use grand_line.Git.Laws.Frames.{created_in, ended_in}
use grand_line.Git.Laws.Accounting.{registered, is_kept, keys, Tracked, all_by-weaken}

-- The sandboxes whose destroy returned.
abbrev pub destroyed_in : List Call → List ℕ
destroyed_in [] = []
destroyed_in (created s ∷ cs) = destroyed_in cs
destroyed_in (executed s command files ∷ cs) = destroyed_in cs
destroyed_in (destroyed s ∷ cs) = s ∷ destroyed_in cs
destroyed_in (destroy_raised s ∷ cs) = destroyed_in cs

-- The sandboxes whose destroy raised.
abbrev pub lost_in : List Call → List ℕ
lost_in [] = []
lost_in (created s ∷ cs) = lost_in cs
lost_in (executed s command files ∷ cs) = lost_in cs
lost_in (destroyed s ∷ cs) = lost_in cs
lost_in (destroy_raised s ∷ cs) = s ∷ lost_in cs

abbrev is_accounted : Desk → ℕ → Bool
is_accounted d s =
    registered s d.repos || (contains s (destroyed_in d.calls) || contains s (lost_in d.calls))

-- Each sandbox that was created is that of a voyage, or was destroyed, or is one whose destroy raised,
-- and the voyages with a sandbox are those with a URL.
abbrev pub Accounted : Desk → Type 0
Accounted d =
    (all_by (is_accounted d) (created_in d.calls) ≡ true) × (keys d.repos ≡ keys d.repo_urls)

contains-ended_in :
    (s : ℕ) (cs : List Call)
    → contains s (ended_in cs) ≡ (contains s (destroyed_in cs) || contains s (lost_in cs))
contains-ended_in s [] = ground arith
contains-ended_in s (created t ∷ cs) = contains-ended_in s cs
contains-ended_in s (executed t command files ∷ cs) = contains-ended_in s cs
contains-ended_in s (destroyed t ∷ cs) = ground (arith, contains-ended_in s cs)
contains-ended_in s (destroy_raised t ∷ cs) = ground (arith, contains-ended_in s cs)

is_kept-is_accounted : (d : Desk) (s : ℕ) → is_kept d.repos (ended_in d.calls) s ≡ is_accounted d s
is_kept-is_accounted d s = rw (contains-ended_in s d.calls) refl

pub Tracked-Accounted : (d : Desk) → Tracked d → Accounted d
Tracked-Accounted d (h, k) = (
  all_by-weaken (is_kept d.repos (ended_in d.calls)) (is_accounted d) (created_in d.calls)
      (λ s e. sym (is_kept-is_accounted d s) ∙ e) h,
  k,
)

pub Accounted-Tracked : (d : Desk) → Accounted d → Tracked d
Accounted-Tracked d (h, k) = (
  all_by-weaken (is_accounted d) (is_kept d.repos (ended_in d.calls)) (created_in d.calls)
      (λ s e. is_kept-is_accounted d s ∙ e) h,
  k,
)
