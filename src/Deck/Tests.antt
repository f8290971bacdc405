-- ===== src/Deck/Tests.antt =====
-- Concrete pages, a codec that keeps what the cursors rely on, and the theorems at them.
use grand_line.Common.{
  ℕ, zero, suc, ◌+◌, ◌-◌, ◌≡◌, refl, ap, false, ◌&&◌, Option, none, some, List, [], ◌∷◌, ◌++◌, ◌==◌,
  if◌then◌else◌, arith, Text, length, drop, keep,
}
use grand_line.Model.Voyage.{VoyageStatus, charted, completed}
use grand_line.Deck.Pages.{
  DeckRow, active, has_asked_status, descending, follow, list_voyages, list_crew_actions,
}
use grand_line.Deck.Pages.Whole.{follow_pages}
use grand_line.Deck.Cursors.{
  Codec, CodecLaws, decoded, encode_cursor, decode_cursor, decode-encode, rstrip_equals, equals,
  pad_len,
}

abbrev deck_row : ℕ → VoyageStatus → ℕ → DeckRow
deck_row id status time = record { id = id; parent = 1; status = status; at_time = time }

abbrev deck : List DeckRow
deck =
    deck_row 4 charted 10
    ∷ deck_row 7 completed 30
    ∷ deck_row 5 charted 20
    ∷ deck_row 6 charted 20
    ∷ []

deck_followed :
    follow (λ c. list_voyages 1 (some active) 2 c deck) 5 none
    ≡ some (deck_row 6 charted 20 ∷ deck_row 5 charted 20 ∷ deck_row 4 charted 10 ∷ [])
unfolding list_voyages
deck_followed = refl

follow_pages_example :
    (follow (λ c. list_voyages 1 (some active) 2 c deck) 5 none
      ≡ some (
          descending (keep (λ r. (r.parent == 1) && has_asked_status (some active) r.status) deck)))
    × (follow (λ c. list_crew_actions 1 2 c deck) 5 none
        ≡ some (descending (keep (λ r. r.parent == 1) deck)))
follow_pages_example =
    follow_pages 1 1 (some active) deck
      ((refl, (refl, (refl, tt))), ((refl, (refl, tt)), ((refl, tt), (tt, tt))))

-- A codec of lists of numbers: a number is one character, and every character is moved by 100.
abbrev raised : Text → Text
raised [] = []
raised (x ∷ xs) = (x + 100) ∷ raised xs

abbrev lowered : Text → Text
lowered [] = []
lowered (x ∷ xs) = let rest = lowered xs in if x == 61 then [] else (x - 100) ∷ rest

abbrev first_chars : ℕ → Text → Text
first_chars zero xs = []
first_chars (suc n) [] = []
first_chars (suc n) (x ∷ xs) = x ∷ first_chars n xs

abbrev read_pair : Text → Option (Option Text × Option Text)
read_pair [] = none
read_pair (n ∷ xs) = some (some (first_chars n xs), some (drop n xs))

abbrev read_one : Text → Option ℕ
read_one [] = none
read_one (x ∷ xs) = some x

abbrev listed : Codec
listed = record {
  dumps = λ ts id. length ts ∷ (ts ++ id);
  loads = read_pair;
  isoformat = λ t. t ∷ [];
  fromisoformat = read_one;
  str_uuid = λ i. i ∷ [];
  uuid = read_one;
  b64encode = λ x. raised x ++ equals (pad_len (raised x));
  b64decode = λ x. some (lowered x);
}

first_chars-append : (xs ys : Text) → first_chars (length xs) (xs ++ ys) ≡ xs
first_chars-append [] ys = refl
first_chars-append (x ∷ xs) ys = ap (λ r. x ∷ r) (first_chars-append xs ys)

drop-append : (xs ys : Text) → drop (length xs) (xs ++ ys) ≡ ys
drop-append [] ys = refl
drop-append (x ∷ xs) ys = drop-append xs ys

lowered-equals : (n : ℕ) → lowered (equals n) ≡ []
lowered-equals zero = refl
lowered-equals (suc n) = refl

lowered-raised : (xs : Text) (n : ℕ) → lowered (raised xs ++ equals n) ≡ xs
lowered-raised [] n = lowered-equals n
lowered-raised (x ∷ xs) n =
    let other : ((x + 100) == 61) ≡ false = ground arith in
    let back : x + 100 - 100 ≡ x = omega arith in rw (other, lowered-raised xs n, back) refl

raised_bare : (xs : Text) → rstrip_equals (raised xs) ≡ raised xs
raised_bare [] = refl
raised_bare (x ∷ xs) =
    let other : ((x + 100) == 61) ≡ false = ground arith in
    rw (other, raised_bare xs) (ground arith)

listed_laws : CodecLaws listed
listed_laws = record {
  loads-dumps = λ ts id. rw (first_chars-append ts id, drop-append ts id) refl;
  iso_back = λ t. refl;
  uuid_back = λ i. refl;
  b64_back = λ x. ap some (lowered-raised x (pad_len (raised x)));
  b64_groups = λ ts id. (
    length ts + 100,
    raised (ts ++ id),
    pad_len (raised (length ts ∷ (ts ++ id))),
    refl,
    raised_bare (length ts ∷ (ts ++ id)),
    omega arith,
    omega arith,
  );
}

decode-encode_example :
    decode_cursor listed (encode_cursor listed (record { ts = 30; row_id = 7 }))
    ≡ decoded (record { ts = 30; row_id = 7 })
decode-encode_example = decode-encode listed listed_laws (record { ts = 30; row_id = 7 })
