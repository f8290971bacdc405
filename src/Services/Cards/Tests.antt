-- ===== src/Services/Cards/Tests.antt =====
-- Two concrete checkpoints with the theorem at them, and a cleanup.
use grand_line.Common.{
  keep, not, ℕ, String, ◌≡◌, refl, true, none, some, List, [], ◌∷◌, ◌==◌, Bool, if◌then◌else◌,
}
use grand_line.Model.Exec.{ok}
use grand_line.Services.Cards.{diff, difference}
use grand_line.Services.Cards.Cleaning.{StoredCard, cleanup_cards, all_ids, first_ids}
use grand_line.Services.Cards.Listing.{list_cards, restore_card, checkpoint_card}
use grand_line.Services.Cards.Remaining.{cleanup_cards-kept}
use grand_line.Services.Cards.Laws.{Leads, difference-Leads}

abbrev before : List (String × ℕ)
before = ("iteration", 1) ∷ ("exit_code", 1) ∷ ("phase", 4) ∷ []

abbrev after : List (String × ℕ)
after = ("phase", 4) ∷ ("iteration", 2) ∷ ("passed", 7) ∷ []

diff_run :
    diff ◌==◌ (some before) (some after)
    ≡ ok (record {
      added = ("passed", 7) ∷ [];
      removed = ("exit_code", 1) ∷ [];
      changed = ("iteration", (1, 2)) ∷ [];
    })
unfolding diff
diff_run = refl

-- The numbers and the truth values of JSON, which Python's equality does not tell apart.
data Atom : Type 0 where
  number : ℕ → Atom
  boolean : Bool → Atom

abbrev as_number : Atom → ℕ
as_number (number n) = n
as_number (boolean b) = if b then 1 else 0

abbrev equal_atoms : Atom → Atom → Bool
equal_atoms x y = as_number x == as_number y

abbrev atoms_before : List (String × Atom)
atoms_before = ("passed", number 1) ∷ ("phase", number 4) ∷ []

abbrev atoms_after : List (String × Atom)
atoms_after = ("passed", boolean true) ∷ ("phase", number 5) ∷ []

difference-Leads_example : Leads equal_atoms "passed" atoms_before atoms_after
difference-Leads_example = difference-Leads equal_atoms "passed" atoms_before atoms_after

-- No difference is seen between 1 and true.
difference_run :
    difference equal_atoms atoms_before atoms_after
    ≡ record { added = []; removed = []; changed = ("phase", (number 4, number 5)) ∷ [] }
unfolding difference
difference_run = refl

abbrev stored : ℕ → ℕ → String → ℕ → StoredCard
stored id voyage member time = record {
  id = id;
  voyage_id = voyage;
  crew_member = member;
  created_at = time;
}

-- Of three cards of the doctor the oldest goes, and the card of another voyage stays.
cleanup_cards_run :
    cleanup_cards 1 2 (
      stored 10 1 "doctor" 5
      ∷ stored 11 1 "doctor" 9
      ∷ stored 12 2 "doctor" 1
      ∷ stored 13 1 "captain" 2
      ∷ stored 14 1 "doctor" 7
      ∷ [])
    ≡ record {
      total_deleted = 1;
      total_kept = 3;
      cards =
          stored 11 1 "doctor" 9
          ∷ stored 12 2 "doctor" 1
          ∷ stored 13 1 "captain" 2
          ∷ stored 14 1 "doctor" 7
          ∷ [];
    }
unfolding cleanup_cards
cleanup_cards_run = refl

abbrev cards : List StoredCard
cards =
    stored 10 1 "doctor" 5
    ∷ stored 11 1 "doctor" 9
    ∷ stored 12 2 "doctor" 1
    ∷ stored 14 1 "doctor" 7
    ∷ []

cleanup_cards-kept_example :
    ((k : String) → all_ids 1 k (cleanup_cards 1 2 cards).cards ≡ first_ids 2 (all_ids 1 k cards))
    × (keep (λ (c : StoredCard). not (c.voyage_id == 1)) (cleanup_cards 1 2 cards).cards
        ≡ keep (λ (c : StoredCard). not (c.voyage_id == 1)) cards)
cleanup_cards-kept_example = cleanup_cards-kept 1 2 cards (refl, (refl, (refl, (refl, tt))))

cards_listed :
    (list_cards 1 (some "doctor") 2 1 cards
      ≡ (stored 14 1 "doctor" 7 ∷ stored 10 1 "doctor" 5 ∷ [], 3))
    × (restore_card 12 1 cards ≡ none)
    × ((checkpoint_card 20 30 1 "captain" []).1 ≡ stored 20 1 "captain" 30 ∷ [])
unfolding list_cards restore_card checkpoint_card
cards_listed = (refl, refl, refl)
