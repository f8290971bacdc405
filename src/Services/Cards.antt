-- ===== src/Services/Cards.antt =====
-- services/vivre_card_service.py: the shallow difference of two checkpoints. The state of a card is
-- the list of its keys with their values.
pub mod Laws
pub mod Cleaning
pub mod Kept
pub mod Cleaned
pub mod Remaining
pub mod Listing
mod Tests
use grand_line.Common.{
  String, Bool, not, Option, none, some, List, [], ◌∷◌, str_eq, if◌then◌else◌, keep,
}
use grand_line.Model.Exec.{Result, ok, raise}
use grand_line.Model.World.{other}

module _ {ℓ} {A : Type ℓ} where
  abbrev pub find : String → List (String × A) → Option A
  find k [] = none
  find k ((j, v) ∷ m) = let rest = find k m in if str_eq j k then some v else rest

  abbrev pub has : String → List (String × A) → Bool
  has k m = elim (find k m) [ none ↦ Bool.false | some v ↦ Bool.true ]

-- The response of `diff`; a changed key has its value before and after.
pub record Difference (V : Type 0) : Type 0 where
  pub added : List (String × V)
  pub removed : List (String × V)
  pub changed : List (String × (V × V))

-- `same` is the equality of two values.
module _ {V : Type 0} (same : V → V → Bool) where
  -- The keys of both states whose values differ.
  abbrev pub changes : List (String × V) → List (String × V) → List (String × (V × V))
  changes [] b = []
  changes ((k, x) ∷ a) b =
      let rest = changes a b in
      elim (find k b) [ none ↦ rest | some y ↦ if same x y then rest else (k, (x, y)) ∷ rest ]

  unfoldable pub difference : List (String × V) → List (String × V) → Difference V
  difference a b = record {
    added = keep (λ e. not (has e.0 a)) b;
    removed = keep (λ e. not (has e.0 b)) a;
    changed = changes a b;
  }

  -- `diff`, from the states of the two cards that were found.
  unfoldable pub diff :
      Option (List (String × V)) → Option (List (String × V)) → Result (Difference V)
  unfolding difference
  diff none b = raise (other "CARD_NOT_FOUND")
  diff (some a) none = raise (other "CARD_NOT_FOUND")
  diff (some a) (some b) = ok (difference a b)
