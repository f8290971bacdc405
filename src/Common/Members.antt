-- ===== src/Common/Members.antt =====
-- Membership of numbers as a Boolean test, with what filters, sums of lists and sorting do to it.
use Prim.Native.Nat.{ℕ, suc}
use mathlib.Core.Path.{◌≡◌, refl}
use mathlib.Core.Bool.{Bool, true, false, ◌&&◌, ◌||◌}
use mathlib.Core.List.{List, [], ◌∷◌, ◌++◌}
use native.Mathlib.Omega.{arith}
use grand_line.Common.Tests.{leb, ◌==◌, if◌then◌else◌}
use grand_line.Common.Lists.{length, keep, all_by}

abbrev pub contains : ℕ → List ℕ → Bool
contains n [] = false
contains n (x ∷ xs) = (x == n) || contains n xs

pub contains-append :
    (n : ℕ) (xs ys : List ℕ) → contains n (xs ++ ys) ≡ (contains n xs || contains n ys)
contains-append n [] ys = refl
contains-append n (x ∷ xs) ys = ground (arith, contains-append n xs ys)

pub contains-keep :
    (p : ℕ → Bool) (n : ℕ) (xs : List ℕ) → contains n (keep p xs) ≡ (p n && contains n xs)
contains-keep p n [] = ground arith
contains-keep p n (x ∷ xs) = ground (arith, contains-keep p n xs)

-- A test that holds of a whole list holds of each member.
pub all_by-contains :
    (p : ℕ → Bool) (xs : List ℕ) (n : ℕ) → all_by p xs ≡ true → contains n xs ≡ true → p n ≡ true
all_by-contains p [] n h m = ground arith
all_by-contains p (x ∷ xs) n h m = ground (arith, all_by-contains p xs n)

pub all_by-intro :
    (p : ℕ → Bool) (xs : List ℕ)
    → ((n : ℕ) → contains n xs ≡ true → p n ≡ true)
    → all_by p xs ≡ true
all_by-intro p [] h = refl
all_by-intro p (x ∷ xs) h = ground (arith, h x, all_by-intro p xs (λ n m. h n (ground arith)))

-- `sorted(...)` of numbers.
abbrev pub insert_sorted : ℕ → List ℕ → List ℕ
insert_sorted n [] = n ∷ []
insert_sorted n (x ∷ xs) = if leb n x then n ∷ x ∷ xs else x ∷ insert_sorted n xs

abbrev pub sorted : List ℕ → List ℕ
sorted [] = []
sorted (x ∷ xs) = insert_sorted x (sorted xs)

pub contains-insert_sorted :
    (n m : ℕ) (xs : List ℕ) → contains n (insert_sorted m xs) ≡ ((m == n) || contains n xs)
contains-insert_sorted n m [] = refl
contains-insert_sorted n m (x ∷ xs) = ground (arith, contains-insert_sorted n m xs)

pub contains-sorted : (n : ℕ) (xs : List ℕ) → contains n (sorted xs) ≡ contains n xs
contains-sorted n [] = refl
contains-sorted n (x ∷ xs) =
    ground (arith, contains-insert_sorted n x (sorted xs), contains-sorted n xs)

pub length-insert_sorted : (n : ℕ) (xs : List ℕ) → length (insert_sorted n xs) ≡ suc (length xs)
length-insert_sorted n [] = refl
length-insert_sorted n (x ∷ xs) = ground (arith, length-insert_sorted n xs)

pub length-sorted : (xs : List ℕ) → length (sorted xs) ≡ length xs
length-sorted [] = refl
length-sorted (x ∷ xs) = ground (arith, length-insert_sorted x (sorted xs), length-sorted xs)
