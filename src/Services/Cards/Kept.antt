-- ===== src/Services/Cards/Kept.antt =====
-- The order of the cards in `cleanup` of services/vivre_card_service.py, and their ids.
use grand_line.Common.{
  ℕ, zero, suc, ◌≡◌, refl, sym, ◌∙◌, Bool, false, ◌||◌, List, [], ◌∷◌, ◌==◌, keep, ltb, contains,
  if◌then◌else◌, All, arith, inl, inr, Bool-cases,
}
use grand_line.Services.Cards.Cleaning.{StoredCard, insert_card, by_newest, later_ids, ids_of}

-- Ids are unique.
abbrev pub IsKeyed : List StoredCard → Type 0
IsKeyed [] = Unit
IsKeyed (c ∷ cs) = (contains c.id (ids_of cs) ≡ false) × IsKeyed cs

abbrev IsNewest : List StoredCard → Type 0
IsNewest [] = Unit
IsNewest (c ∷ cs) = All (λ (d : StoredCard). ltb c.created_at d.created_at ≡ false) cs × IsNewest cs

All-insert_card {ℓ} :
    (P : StoredCard → Type ℓ) (c : StoredCard) (cs : List StoredCard)
    → P c
    → All P cs
    → All P (insert_card c cs)
All-insert_card P c [] p all = (p, tt)
All-insert_card P c (d ∷ ds) p (first, rest) = elim (Bool-cases (ltb c.created_at d.created_at)) [
  | inl e ↦ rw e (first, All-insert_card P c ds p rest)
  | inr e ↦ rw e (p, (first, rest))
]

All-older :
    (c d : StoredCard) (cs : List StoredCard)
    → ltb c.created_at d.created_at ≡ false
    → All (λ (x : StoredCard). ltb d.created_at x.created_at ≡ false) cs
    → All (λ (x : StoredCard). ltb c.created_at x.created_at ≡ false) cs
All-older c d [] h all = tt
All-older c d (x ∷ cs) h (first, rest) = (ground arith, All-older c d cs h rest)

insert_card-IsNewest :
    (c : StoredCard) (cs : List StoredCard) → IsNewest cs → IsNewest (insert_card c cs)
insert_card-IsNewest c [] sorted = (tt, tt)
insert_card-IsNewest c (d ∷ ds) (below, sorted) =
    elim (Bool-cases (ltb c.created_at d.created_at)) [
      | inl e ↦
          let later : ltb d.created_at c.created_at ≡ false = ground arith in
          rw e (All-insert_card _ c ds later below, insert_card-IsNewest c ds sorted)
      | inr e ↦ rw e ((e, All-older c d ds e below), (below, sorted))
    ]

by_newest-IsNewest : (cs : List StoredCard) → IsNewest (by_newest cs)
by_newest-IsNewest [] = tt
by_newest-IsNewest (c ∷ cs) = insert_card-IsNewest c (by_newest cs) (by_newest-IsNewest cs)

pub All-keep {ℓ} :
    (P : StoredCard → Type ℓ) (p : StoredCard → Bool) (cs : List StoredCard)
    → All P cs
    → All P (keep p cs)
All-keep P p [] all = tt
All-keep P p (c ∷ cs) (first, rest) = elim (Bool-cases (p c)) [
  | inl e ↦ rw e (first, All-keep P p cs rest)
  | inr e ↦ rw e (All-keep P p cs rest)
]

insert_card-first :
    (c : StoredCard) (cs : List StoredCard)
    → All (λ (d : StoredCard). ltb c.created_at d.created_at ≡ false) cs
    → insert_card c cs ≡ c ∷ cs
insert_card-first c [] all = refl
insert_card-first c (d ∷ ds) (first, rest) = rw first refl

keep-insert_card :
    (p : StoredCard → Bool) (c : StoredCard) (cs : List StoredCard)
    → IsNewest cs
    → keep p (insert_card c cs) ≡ (if p c then insert_card c (keep p cs) else keep p cs)
keep-insert_card p c [] sorted = refl
keep-insert_card p c (d ∷ ds) (below, sorted) = elim (Bool-cases (ltb c.created_at d.created_at)) [
  | inl e ↦ elim (Bool-cases (p d)) [
    | inl k ↦ elim (Bool-cases (p c)) [
      | inl h ↦ rw (e, k, h, e, keep-insert_card p c ds sorted, h) refl
      | inr h ↦ rw (e, k, h, keep-insert_card p c ds sorted, h) refl
    ]
    | inr k ↦ rw (e, k, keep-insert_card p c ds sorted) refl
  ]
  | inr e ↦ elim (Bool-cases (p c)) [
    | inl h ↦
        let late = All-keep _ p (d ∷ ds) (e, All-older c d ds e below) in
        rw (e, h) (sym (insert_card-first c (keep p (d ∷ ds)) late))
    | inr h ↦ rw (e, h) refl
  ]
]

pub by_newest-keep :
    (p : StoredCard → Bool) (cs : List StoredCard) → by_newest (keep p cs) ≡ keep p (by_newest cs)
by_newest-keep p [] = refl
by_newest-keep p (c ∷ cs) =
    let rest = keep-insert_card p c (by_newest cs) (by_newest-IsNewest cs) in
    elim (Bool-cases (p c)) [
      | inl h ↦ rw (h, rest, h, by_newest-keep p cs) refl
      | inr h ↦ rw (h, rest, h, by_newest-keep p cs) refl
    ]

pub keep-keep :
    (p q : StoredCard → Bool) (cs : List StoredCard) → keep p (keep q cs) ≡ keep q (keep p cs)
keep-keep p q [] = refl
keep-keep p q (c ∷ cs) = ground (arith, keep-keep p q cs)

-- Sorting keeps the ids.
contains-insert_card :
    (i : ℕ) (c : StoredCard) (cs : List StoredCard)
    → contains i (ids_of (insert_card c cs)) ≡ ((c.id == i) || contains i (ids_of cs))
contains-insert_card i c [] = refl
contains-insert_card i c (d ∷ ds) = ground (arith, contains-insert_card i c ds)

pub contains-by_newest :
    (i : ℕ) (cs : List StoredCard) → contains i (ids_of (by_newest cs)) ≡ contains i (ids_of cs)
contains-by_newest i [] = refl
contains-by_newest i (c ∷ cs) =
    ground (arith, contains-insert_card i c (by_newest cs), contains-by_newest i cs)

insert_card-IsKeyed :
    (c : StoredCard) (cs : List StoredCard)
    → contains c.id (ids_of cs) ≡ false
    → IsKeyed cs
    → IsKeyed (insert_card c cs)
insert_card-IsKeyed c [] fresh keyed = (fresh, tt)
insert_card-IsKeyed c (d ∷ ds) fresh (own, keyed) =
    elim (Bool-cases (ltb c.created_at d.created_at)) [
      | inl e ↦ rw e (
        ground (arith, contains-insert_card d.id c ds),
        insert_card-IsKeyed c ds (ground arith) keyed,
      )
      | inr e ↦ rw e (fresh, (own, keyed))
    ]

pub by_newest-IsKeyed : (cs : List StoredCard) → IsKeyed cs → IsKeyed (by_newest cs)
by_newest-IsKeyed [] keyed = tt
by_newest-IsKeyed (c ∷ cs) (fresh, keyed) =
    insert_card-IsKeyed c (by_newest cs) (contains-by_newest c.id cs ∙ fresh)
      (by_newest-IsKeyed cs keyed)

pub contains-keep_le :
    (p : StoredCard → Bool) (i : ℕ) (cs : List StoredCard)
    → contains i (ids_of cs) ≡ false
    → contains i (ids_of (keep p cs)) ≡ false
contains-keep_le p i [] h = h
contains-keep_le p i (c ∷ cs) h = ground (arith, contains-keep_le p i cs)

pub keep-IsKeyed : (p : StoredCard → Bool) (cs : List StoredCard) → IsKeyed cs → IsKeyed (keep p cs)
keep-IsKeyed p [] keyed = tt
keep-IsKeyed p (c ∷ cs) (fresh, keyed) = elim (Bool-cases (p c)) [
  | inl e ↦ rw e (contains-keep_le p c.id cs fresh, keep-IsKeyed p cs keyed)
  | inr e ↦ rw e (keep-IsKeyed p cs keyed)
]

pub contains-later :
    (i n : ℕ) (ids : List ℕ) → contains i ids ≡ false → contains i (later_ids n ids) ≡ false
contains-later i zero ids h = h
contains-later i (suc n) [] h = h
contains-later i (suc n) (j ∷ ids) h = contains-later i n ids (ground arith)
