-- ===== src/Common/Dict.antt =====
-- A dictionary with numbers as keys: its rows in the order of insertion, each key once.
use Prim.Native.Nat.{ℕ}
use mathlib.Core.Path.{◌≡◌, refl}
use mathlib.Core.Option.{Option, none, some}
use mathlib.Core.List.{List, [], ◌∷◌}
use native.Mathlib.Omega.{arith}
use grand_line.Common.Tests.{◌==◌, if◌then◌else◌}

module _ {ℓ} {A : Type ℓ} where
  -- `d.get(k)`
  abbrev pub lookup : ℕ → List (ℕ × A) → Option A
  lookup k [] = none
  lookup k ((j, a) ∷ rows) = let rest = lookup k rows in if j == k then some a else rest

  -- `d[k] = a`
  abbrev pub store : ℕ → A → List (ℕ × A) → List (ℕ × A)
  store k a [] = (k, a) ∷ []
  store k a ((j, b) ∷ rows) =
      let rest = store k a rows in if j == k then (j, a) ∷ rows else (j, b) ∷ rest

  -- `d.pop(k, None)`
  abbrev pub erase : ℕ → List (ℕ × A) → List (ℕ × A)
  erase k [] = []
  erase k ((j, b) ∷ rows) = let rest = erase k rows in if j == k then rest else (j, b) ∷ rest

  pub lookup-store :
      (j k : ℕ) (a : A) (rows : List (ℕ × A))
      → lookup j (store k a rows) ≡ (if k == j then some a else lookup j rows)
  lookup-store j k a [] = refl
  lookup-store j k a ((i, b) ∷ rows) = ground (arith, lookup-store j k a rows)

  pub lookup-erase :
      (j k : ℕ) (rows : List (ℕ × A))
      → lookup j (erase k rows) ≡ (if k == j then none else lookup j rows)
  lookup-erase j k [] = ground arith
  lookup-erase j k ((i, b) ∷ rows) = ground (arith, lookup-erase j k rows)
