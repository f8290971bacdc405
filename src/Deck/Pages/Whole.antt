-- ===== src/Deck/Pages/Whole.antt =====
-- A client that follows the cursors of api/v1/observation_deck.py.
use mathlib.Core.Path.{subst}
use mathlib.Core.List.{append_assoc}
use grand_line.Common.{
  ℕ, zero, suc, ◌<◌, ◌≤◌, ◌≡◌, refl, ap, sym, ◌∙◌, Bool, false, ◌&&◌, Option, none, some, List, [],
  ◌∷◌, ◌++◌, ◌==◌, arith, inl, inr, ◌⊎◌, Bool-cases, keep, length, length-append, length-keep_le,
}
use grand_line.Deck.Pages.{
  Cursor, DeckRow, StatusFilter, has_asked_status, is_behind, behind, cursor_of, descending,
  first_rows, last_row, next_of, page_rows, page, follow, list_voyages, list_crew_actions,
  insert_row,
}
use grand_line.Deck.Pages.Sorting.{
  IsDescending, IsKeyed, descending-IsDescending, IsKeyed-keep, descending-keep, keep-is_behind,
}

keep-and :
    (p q : DeckRow → Bool) (rs : List DeckRow) → keep (λ r. p r && q r) rs ≡ keep q (keep p rs)
keep-and p q [] = refl
keep-and p q (r ∷ rs) = elim (Bool-cases (p r)) [
  | inl e ↦ rw (e, keep-and p q rs) refl
  | inr e ↦ rw (e, keep-and p q rs) refl
]

keep_uncursored : (rs : List DeckRow) → keep (behind none) rs ≡ rs
keep_uncursored [] = refl
keep_uncursored (r ∷ rs) = ap (λ qs. r ∷ qs) (keep_uncursored rs)

abbrev later_rows : ℕ → List DeckRow → List DeckRow
later_rows zero rs = rs
later_rows (suc n) [] = []
later_rows (suc n) (r ∷ rs) = later_rows n rs

first-later : (n : ℕ) (rs : List DeckRow) → rs ≡ first_rows n rs ++ later_rows n rs
first-later zero rs = refl
first-later (suc n) [] = refl
first-later (suc n) (r ∷ rs) = ap (λ qs. r ∷ qs) (first-later n rs)

short_page :
    (n : ℕ) (rs : List DeckRow) → (length (first_rows n rs) == n) ≡ false → first_rows n rs ≡ rs
short_page zero rs h = absurd (cc)
short_page (suc n) [] h = refl
short_page (suc n) (r ∷ rs) h = ap (λ qs. r ∷ qs) (short_page n rs (ground arith))

last_split :
    (r : DeckRow) (rs : List DeckRow) → (q : List DeckRow) × (r ∷ rs ≡ q ++ last_row r rs ∷ [])
last_split r [] = ([], refl)
last_split r (q ∷ qs) = let (front, e) = last_split q qs in (r ∷ front, ap (λ t. r ∷ t) e)

-- A page that is the last one, or the row that the next one starts behind.
next_of-cases :
    (limit : ℕ) (rows : List DeckRow)
    → ((next_of limit rows ≡ none) × ((rows ≡ []) ⊎ ((length rows == limit) ≡ false)))
      ⊎ ((q : List DeckRow) × (a : DeckRow) × (next_of limit rows ≡ some (cursor_of a))
          × (rows ≡ q ++ a ∷ []))
next_of-cases limit [] = inl (refl, inl refl)
next_of-cases limit (r ∷ rs) = elim (Bool-cases (length (r ∷ rs) == limit)) [
  | inl e ↦ let (front, split) = last_split r rs in inr (front, last_row r rs, rw e refl, split)
  | inr e ↦ inl (rw e refl, inr e)
]

empty_page : (n : ℕ) (rs : List DeckRow) → first_rows (suc n) rs ≡ [] → first_rows (suc n) rs ≡ rs
empty_page n [] h = refl
empty_page n (r ∷ rs) h = cc

last_page :
    (m : ℕ) (rest : List DeckRow)
    → (first_rows (suc m) rest ≡ []) ⊎ ((length (first_rows (suc m) rest) == suc m) ≡ false)
    → first_rows (suc m) rest ≡ rest
last_page m rest (inl empty) = empty_page m rest empty
last_page m rest (inr short) = short_page (suc m) rest short

module _ (where_clause : DeckRow → Bool) (m : ℕ) (table : List DeckRow)
    (keyed : IsKeyed table) where
  abbrev whole : List DeckRow
  whole = descending (keep where_clause table)

  page_rows-behind :
      (cursor : Option Cursor)
      → page_rows where_clause (suc m) cursor table
        ≡ first_rows (suc m) (keep (behind cursor) whole)
  page_rows-behind cursor =
      ap (λ rs. first_rows (suc m) (descending rs)) (keep-and where_clause (behind cursor) table)
      ∙ ap (first_rows (suc m)) (
          descending-keep (behind cursor) (keep where_clause table)
            (IsKeyed-keep where_clause table keyed))

  follow_rest :
      (fuel : ℕ) (done rest : List DeckRow) (cursor : Option Cursor)
      → whole ≡ done ++ rest
      → keep (behind cursor) whole ≡ rest
      → length rest < fuel
      → follow (λ c. page where_clause (suc m) c table) fuel cursor ≡ some rest
  follow_rest zero done rest cursor split here enough = absurd (omega arith)
  follow_rest (suc fuel) done rest cursor split here enough =
      let rows = first_rows (suc m) rest in
      let e : page_rows where_clause (suc m) cursor table ≡ rows =
        page_rows-behind cursor ∙ ap (first_rows (suc m)) here in
      elim (next_of-cases (suc m) rows) [
        | inl (last, short) ↦ rw (e, last) (ap some (last_page m rest short))
        | inr (q, a, next, cut) ↦
            let left = later_rows (suc m) rest in
            let rest_split : rest ≡ q ++ a ∷ [] ++ left =
              first-later (suc m) rest ∙ ap (λ r. r ++ left) cut in
            let whole_split : whole ≡ (done ++ q) ++ a ∷ left =
              split
              ∙ ap (λ r. done ++ r) (rest_split ∙ append_assoc q (a ∷ []) left)
              ∙ sym (append_assoc done q (a ∷ left)) in
            let sorted = subst IsDescending whole_split (
              descending-IsDescending (keep where_clause table)
                (IsKeyed-keep where_clause table keyed)) in
            let behind_a : keep (behind (some (cursor_of a))) whole ≡ left =
              ap (keep (is_behind (cursor_of a))) whole_split
              ∙ keep-is_behind (done ++ q) a left sorted in
            let shorter : length left < fuel = omega (
              arith,
              ap length rest_split,
              length-append (q ++ a ∷ []) left,
              length-append q (a ∷ []),
            ) in
            let more =
              follow_rest fuel (done ++ (q ++ a ∷ [])) left (some (cursor_of a))
                (split
                  ∙ ap (λ r. done ++ r) rest_split
                  ∙ sym (append_assoc done (q ++ a ∷ []) left))
                behind_a shorter in
            rw (e, next, more) (ap some (sym (first-later (suc m) rest)))
      ]

  -- Enough requests: one more than the rows of the table.
  pub follow-whole :
      (fits : length whole ≤ length table)
      → follow (λ c. page where_clause (suc m) c table) (suc (length table)) none ≡ some whole
  follow-whole fits =
      follow_rest (suc (length table)) [] whole none refl (keep_uncursored whole) (omega arith)

length-insert_row : (r : DeckRow) (rs : List DeckRow) → length (insert_row r rs) ≡ suc (length rs)
length-insert_row r [] = refl
length-insert_row r (q ∷ qs) = ground (arith, length-insert_row r qs)

length-descending : (rs : List DeckRow) → length (descending rs) ≡ length rs
length-descending [] = refl
length-descending (r ∷ rs) =
    omega (arith, length-insert_row r (descending rs), length-descending rs)

whole_le :
    (p : DeckRow → Bool) (table : List DeckRow) → length (descending (keep p table)) ≤ length table
whole_le p table = omega (arith, length-descending (keep p table), length-keep_le p table)

-- With any limit from 1 and unique ids, a client that follows the cursors of `list_voyages` from the
-- start ends within one request more than there are rows, and has got exactly the rows of the
-- user with the asked status, each once, newest first; and so with `list_crew_actions` of a voyage.
pub follow_pages :
    (user m : ℕ) (status : Option StatusFilter) (table : List DeckRow)
    → IsKeyed table
    → (follow (λ c. list_voyages user status (suc m) c table) (suc (length table)) none
        ≡ some
            (descending (keep (λ r. (r.parent == user) && has_asked_status status r.status) table)))
      × (follow (λ c. list_crew_actions user (suc m) c table) (suc (length table)) none
          ≡ some (descending (keep (λ r. r.parent == user) table)))
unfolding list_voyages list_crew_actions
follow_pages user m status table keyed =
    let of_user = λ (r : DeckRow). (r.parent == user) && has_asked_status status r.status in
    let of_voyage = λ (r : DeckRow). r.parent == user in
    (
      follow-whole of_user m table keyed (whole_le of_user table),
      follow-whole of_voyage m table keyed (whole_le of_voyage table),
    )
