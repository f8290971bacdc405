-- ===== src/Deck/Pages/Sorting.antt =====
-- The order of the rows in api/v1/observation_deck.py, and what stands behind a cursor.
use grand_line.Common.{
  ◌≡◌, refl, sym, Bool, true, false, List, [], ◌∷◌, ◌++◌, ◌==◌, if◌then◌else◌, arith, inl, inr,
  Bool-cases, keep, All,
}
use grand_line.Deck.Pages.{Cursor, DeckRow, is_behind, cursor_of, insert_row, descending}

abbrev pub follows : DeckRow → DeckRow → Bool
follows r q = is_behind (cursor_of r) q

-- Each row stands in front of all that are behind it.
abbrev pub IsDescending : List DeckRow → Type 0
IsDescending [] = Unit
IsDescending (r ∷ rs) = All (λ q. follows r q ≡ true) rs × IsDescending rs

-- Ids are unique.
abbrev pub IsKeyed : List DeckRow → Type 0
IsKeyed [] = Unit
IsKeyed (r ∷ rs) = All (λ (q : DeckRow). (r.id == q.id) ≡ false) rs × IsKeyed rs

All-insert_row {ℓ} :
    (P : DeckRow → Type ℓ) (r : DeckRow) (rs : List DeckRow)
    → P r
    → All P rs
    → All P (insert_row r rs)
All-insert_row P r [] p all = (p, tt)
All-insert_row P r (q ∷ qs) p (first, rest) = elim (Bool-cases (follows q r)) [
  | inl e ↦ rw e (first, All-insert_row P r qs p rest)
  | inr e ↦ rw e (p, (first, rest))
]

All-descending {ℓ} : (P : DeckRow → Type ℓ) (rs : List DeckRow) → All P rs → All P (descending rs)
All-descending P [] all = tt
All-descending P (r ∷ rs) (p, all) = All-insert_row P r (descending rs) p (All-descending P rs all)

follows_trans : (r q p : DeckRow) → follows r q ≡ true → follows q p ≡ true → follows r p ≡ true
follows_trans r q p h k = ground arith

All-follows :
    (r q : DeckRow) (rs : List DeckRow)
    → follows r q ≡ true
    → All (λ p. follows q p ≡ true) rs
    → All (λ p. follows r p ≡ true) rs
All-follows r q [] h all = tt
All-follows r q (p ∷ rs) h (first, rest) = (follows_trans r q p h first, All-follows r q rs h rest)

insert_row-IsDescending :
    (r : DeckRow) (rs : List DeckRow)
    → All (λ (q : DeckRow). (r.id == q.id) ≡ false) rs
    → IsDescending rs
    → IsDescending (insert_row r rs)
insert_row-IsDescending r [] ids sorted = (tt, tt)
insert_row-IsDescending r (q ∷ qs) (other, ids) (below, sorted) = elim (Bool-cases (follows q r)) [
  | inl e ↦ rw e (All-insert_row _ r qs e below, insert_row-IsDescending r qs ids sorted)
  | inr e ↦
      let before : follows r q ≡ true = ground arith in
      rw e ((before, All-follows r q qs before below), (below, sorted))
]

pub descending-IsDescending : (rs : List DeckRow) → IsKeyed rs → IsDescending (descending rs)
descending-IsDescending [] keyed = tt
descending-IsDescending (r ∷ rs) (ids, keyed) =
    insert_row-IsDescending r (descending rs) (All-descending _ rs ids)
      (descending-IsDescending rs keyed)

insert_row-first :
    (r : DeckRow) (rs : List DeckRow) → All (λ q. follows q r ≡ false) rs → insert_row r rs ≡ r ∷ rs
insert_row-first r [] all = refl
insert_row-first r (q ∷ qs) (first, rest) = rw first refl

All-late :
    (r q : DeckRow) (rs : List DeckRow)
    → follows q r ≡ false
    → All (λ p. follows q p ≡ true) rs
    → All (λ p. follows p r ≡ false) rs
All-late r q [] h all = tt
All-late r q (p ∷ rs) h (first, rest) = (ground arith, All-late r q rs h rest)

All-keep {ℓ} :
    (P : DeckRow → Type ℓ) (p : DeckRow → Bool) (rs : List DeckRow) → All P rs → All P (keep p rs)
All-keep P p [] all = tt
All-keep P p (r ∷ rs) (first, rest) = elim (Bool-cases (p r)) [
  | inl e ↦ rw e (first, All-keep P p rs rest)
  | inr e ↦ rw e (All-keep P p rs rest)
]

pub IsKeyed-keep : (p : DeckRow → Bool) (rs : List DeckRow) → IsKeyed rs → IsKeyed (keep p rs)
IsKeyed-keep p [] keyed = tt
IsKeyed-keep p (r ∷ rs) (ids, keyed) = elim (Bool-cases (p r)) [
  | inl e ↦ rw e (All-keep _ p rs ids, IsKeyed-keep p rs keyed)
  | inr e ↦ rw e (IsKeyed-keep p rs keyed)
]

keep-insert_row :
    (p : DeckRow → Bool) (r : DeckRow) (rs : List DeckRow)
    → IsDescending rs
    → keep p (insert_row r rs) ≡ (if p r then insert_row r (keep p rs) else keep p rs)
keep-insert_row p r [] sorted = refl
keep-insert_row p r (q ∷ qs) (below, sorted) = elim (Bool-cases (follows q r)) [
  | inl e ↦ elim (Bool-cases (p q)) [
    | inl k ↦ elim (Bool-cases (p r)) [
      | inl h ↦ rw (e, k, h, e, keep-insert_row p r qs sorted, h) refl
      | inr h ↦ rw (e, k, h, keep-insert_row p r qs sorted, h) refl
    ]
    | inr k ↦ rw (e, k, keep-insert_row p r qs sorted) refl
  ]
  | inr e ↦ elim (Bool-cases (p r)) [
    | inl h ↦
        let late = All-keep _ p (q ∷ qs) (e, All-late r q qs e below) in
        rw (e, h) (sym (insert_row-first r (keep p (q ∷ qs)) late))
    | inr h ↦ rw (e, h) refl
  ]
]

-- Sorting what has_asked_status a test gives what has_asked_status of the sorted rows.
pub descending-keep :
    (p : DeckRow → Bool) (rs : List DeckRow)
    → IsKeyed rs
    → descending (keep p rs) ≡ keep p (descending rs)
descending-keep p [] keyed = refl
descending-keep p (r ∷ rs) (ids, keyed) =
    let rest = keep-insert_row p r (descending rs) (descending-IsDescending rs keyed) in
    elim (Bool-cases (p r)) [
      | inl h ↦ rw (h, rest, h, descending-keep p rs keyed) refl
      | inr h ↦ rw (h, rest, h, descending-keep p rs keyed) refl
    ]

All-middle {ℓ} :
    (P : DeckRow → Type ℓ) (front_rows : List DeckRow) (a : DeckRow) (bs : List DeckRow)
    → All P (front_rows ++ a ∷ bs)
    → P a
All-middle P [] a bs (here, rest) = here
All-middle P (x ∷ front_rows) a bs (first, rest) = All-middle P front_rows a bs rest

keep_same :
    (c : Cursor) (rs : List DeckRow)
    → All (λ q. is_behind c q ≡ true) rs
    → keep (is_behind c) rs ≡ rs
keep_same c [] all = refl
keep_same c (r ∷ rs) (first, rest) = rw (first, keep_same c rs rest) refl

-- Behind the cursor of a row of a sorted list stand the rows that come after it.
pub keep-is_behind :
    (front_rows : List DeckRow) (a : DeckRow) (bs : List DeckRow)
    → IsDescending (front_rows ++ a ∷ bs)
    → keep (is_behind (cursor_of a)) (front_rows ++ a ∷ bs) ≡ bs
keep-is_behind [] a bs (below, sorted) =
    let e : follows a a ≡ false = ground arith in rw (e, keep_same (cursor_of a) bs below) refl
keep-is_behind (x ∷ front_rows) a bs (below, sorted) =
    let above : follows x a ≡ true = All-middle (λ q. follows x q ≡ true) front_rows a bs below in
    let e : follows a x ≡ false = ground arith in rw (e, keep-is_behind front_rows a bs sorted) refl
