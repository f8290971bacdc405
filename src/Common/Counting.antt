-- ===== src/Common/Counting.antt =====
-- How often a number stands in a list, and what the counts say of the lengths.
use Prim.Native.Nat.{ℕ, suc, ◌+◌, ◌-◌, ◌≤◌}
use mathlib.Core.Path.{◌≡◌}
use mathlib.Core.Bool.{Bool}
use mathlib.Core.List.{List, [], ◌∷◌, ◌++◌}
use native.Mathlib.Omega.{arith}
use mathlib.Core.Logic.{inl, inr}
use grand_line.Common.Tests.{Bool-cases, leb, ◌==◌, if◌then◌else◌}
use grand_line.Common.Lists.{length, keep}
use grand_line.Common.Members.{contains}

abbrev pub occurrences : ℕ → List ℕ → ℕ
occurrences u [] = 0
occurrences u (x ∷ xs) = (if x == u then 1 else 0) + occurrences u xs

pub contains-occurrences : (u : ℕ) (xs : List ℕ) → contains u xs ≡ leb 1 (occurrences u xs)
contains-occurrences u [] = ground arith
contains-occurrences u (x ∷ xs) = ground (arith, contains-occurrences u xs)

pub occurrences-append :
    (u : ℕ) (xs ys : List ℕ) → occurrences u (xs ++ ys) ≡ occurrences u xs + occurrences u ys
occurrences-append u [] ys = omega arith
occurrences-append u (x ∷ xs) ys = omega (arith, occurrences-append u xs ys)

pub occurrences-keep :
    (p : ℕ → Bool) (u : ℕ) (xs : List ℕ)
    → occurrences u (keep p xs) ≡ (if p u then occurrences u xs else 0)
occurrences-keep p u [] = ground arith
occurrences-keep p u (x ∷ xs) = ground (arith, occurrences-keep p u xs)

-- Without the first `v`.
abbrev remove : ℕ → List ℕ → List ℕ
remove v [] = []
remove v (x ∷ xs) = let rest = remove v xs in if x == v then xs else x ∷ rest

occurrences-remove :
    (v u : ℕ) (xs : List ℕ)
    → occurrences u (remove v xs) ≡ occurrences u xs - (if v == u then 1 else 0)
occurrences-remove v u [] = ground arith
occurrences-remove v u (x ∷ xs) = ground (arith, occurrences-remove v u xs)

length-remove :
    (v : ℕ) (xs : List ℕ) → 1 ≤ occurrences v xs → length xs ≡ suc (length (remove v xs))
length-remove v [] h = ground arith
length-remove v (x ∷ xs) h = ground (arith, length-remove v xs)

-- A list each of whose numbers stands in another as often is no longer than that one.
pub length-occurrences_le :
    (xs ys : List ℕ) → ((u : ℕ) → occurrences u xs ≤ occurrences u ys) → length xs ≤ length ys
length-occurrences_le [] ys h = omega arith
length-occurrences_le (x ∷ xs) ys h =
    let ih =
      length-occurrences_le xs (remove x ys)
        (λ u. ground (arith, h u, occurrences-remove x u ys)) in
    omega (arith, ih, length-remove x ys (ground (arith, h x)))

-- And one of the same length holds the same numbers.
pub occurrences_same :
    (xs ys : List ℕ)
    → ((u : ℕ) → occurrences u xs ≤ occurrences u ys)
    → length ys ≤ length xs
    → (u : ℕ) → occurrences u xs ≡ occurrences u ys
occurrences_same xs ys h len u = elim (Bool-cases (leb (occurrences u ys) (occurrences u xs))) [
  | inl e ↦ ground (arith, h u)
  | inr e ↦
      let longer = length-occurrences_le (u ∷ xs) ys (λ w. ground (arith, h w)) in
      absurd (omega arith)
]
