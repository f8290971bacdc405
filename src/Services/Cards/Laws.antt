-- ===== src/Services/Cards/Laws.antt =====
-- A difference leads from the first state to the second.
use grand_line.Common.{
  String, Bool, true, not, ◌≡◌, ap, Option, none, some, List, [], ◌∷◌, str_eq, eq_iff,
  if◌then◌else◌, keep, Bool-cases, Option-cases, inl, inr, ◌⊎◌, arith,
}
use grand_line.Services.Cards.{find, has, Difference, changes, difference}

-- The value of a key after a difference, when it was `old` before.
abbrev pub patched : {V : Type 0} → Difference V → String → Option V → Option V
patched d k old = elim (find k d.added) [
  | some v ↦ some v
  | none ↦ elim (find k d.changed) [
    | some c ↦ some c.1
    | none ↦ if has k d.removed then none else old
  ]
]

key_of : (j k : String) → str_eq j k ≡ true → j ≡ k
key_of j k h = (eq_iff j k).0 h

find-keep :
    {V : Type 0} (p : String → Bool) (k : String) (m : List (String × V))
    → find k (keep (λ e. p e.0) m) ≡ (if p k then find k m else none)
find-keep p k [] = ground arith
find-keep p k ((j, v) ∷ m) = elim (Bool-cases (str_eq j k)) [
  | inl e ↦ let q = ap p (key_of j k e) in ground (arith, find-keep p k m, e, q)
  | inr e ↦ ground (arith, find-keep p k m, e)
]

module _ {V : Type 0} (same : V → V → Bool) where
  changes_after :
      (k : String) (a b : List (String × V)) (c : V × V)
      → find k (changes same a b) ≡ some c
      → find k b ≡ some c.1
  changes_after k [] b c h = ground arith
  changes_after k ((j, x) ∷ a) b c h = elim (Option-cases (find j b)) [
    | inl n ↦ ground (arith, changes_after k a b c, n)
    | inr (y, n) ↦ elim (Bool-cases (str_eq j k)) [
      | inl e ↦
          let q = ap (λ s. find s b) (key_of j k e) in
          ground (arith, changes_after k a b c, n, e, q)
      | inr e ↦ ground (arith, changes_after k a b c, n, e)
    ]
  ]

  changes_same :
      (k : String) (a b : List (String × V)) (x y : V)
      → find k (changes same a b) ≡ none
      → find k a ≡ some x
      → find k b ≡ some y
      → same x y ≡ true
  changes_same k [] b x y h i l = ground arith
  changes_same k ((j, z) ∷ a) b x y h i l = elim (Option-cases (find j b)) [
    | inl n ↦ elim (Bool-cases (str_eq j k)) [
      | inl e ↦ let q = ap (λ s. find s b) (key_of j k e) in ground (arith, n, q)
      | inr e ↦ ground (arith, changes_same k a b x y, n, e)
    ]
    | inr (u, n) ↦ elim (Bool-cases (str_eq j k)) [
      | inl e ↦
          let q = ap (λ s. find s b) (key_of j k e) in
          ground (arith, changes_same k a b x y, n, e, q)
      | inr e ↦ ground (arith, changes_same k a b x y, n, e)
    ]
  ]

  -- The value of the key is that of the second state, or both states have the key, with values that the
  -- test takes for equal, and the value of the first stays.
  abbrev pub Leads : String → List (String × V) → List (String × V) → Type 0
  Leads k a b =
      (patched (difference same a b) k (find k a) ≡ find k b)
      ⊎ ((x : V) × (y : V) × (find k a ≡ some x)
          × (find k b ≡ some y)
          × (same x y ≡ true)
          × (patched (difference same a b) k (find k a) ≡ some x))

  -- Whatever test decides which values are equal: the difference that `diff` returns, applied to the
  -- first state, gives every key the value that it has in the second, and takes away the keys that only
  -- the first has; but where both states have the key, with values that the test takes for equal, it may
  -- leave the value of the first.
  pub difference-Leads : (k : String) (a b : List (String × V)) → Leads k a b
  unfolding difference
  difference-Leads k a b =
      let added = find-keep (λ j. not (has j a)) k b in
      let removed = find-keep (λ j. not (has j b)) k a in
      elim (Option-cases (find k (changes same a b))) [
        | inl n ↦ elim (Option-cases (find k a)) [
          | inl i ↦ inl (ground (arith, added, removed, n, i))
          | inr (x, i) ↦ elim (Option-cases (find k b)) [
            | inl l ↦ inl (ground (arith, added, removed, n, i, l))
            | inr (y, l) ↦
                inr (
                  x,
                  y,
                  i,
                  l,
                  changes_same k a b x y n i l,
                  ground (arith, added, removed, n, i, l),
                )
          ]
        ]
        | inr (c, n) ↦ elim (Option-cases (find k a)) [
          | inl i ↦ inl (ground (arith, added, removed, n, i, changes_after k a b c n))
          | inr (x, i) ↦ inl (ground (arith, added, removed, n, i, changes_after k a b c n))
        ]
      ]
