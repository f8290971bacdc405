-- ===== src/Services/Cards/Listing.antt =====
-- `checkpoint`, `restore` and `list_cards` of services/vivre_card_service.py, on the columns of a card
-- that are read; the fresh id and the time are parameters.
use grand_line.Common.{
  ℕ, zero, suc, String, Bool, ◌&&◌, Option, none, some, List, [], ◌∷◌, ◌++◌, ◌==◌, keep, length,
  if◌then◌else◌, str_eq,
}
use grand_line.Services.Cards.Cleaning.{StoredCard, by_newest}

unfoldable pub checkpoint_card : ℕ → ℕ → ℕ → String → List StoredCard → StoredCard × List StoredCard
checkpoint_card id now voyage member cards =
    let c : StoredCard = record {
      id = id;
      voyage_id = voyage;
      crew_member = member;
      created_at = now;
    } in
    (c, cards ++ c ∷ [])

-- No card is the error CARD_NOT_FOUND.
unfoldable pub restore_card : ℕ → ℕ → List StoredCard → Option StoredCard
restore_card id voyage [] = none
restore_card id voyage (c ∷ cards) =
    let rest = restore_card id voyage cards in
    if (c.id == id) && (c.voyage_id == voyage) then some c else rest

abbrev pub is_listed : ℕ → Option String → StoredCard → Bool
is_listed voyage none c = c.voyage_id == voyage
is_listed voyage (some member) c = (c.voyage_id == voyage) && str_eq c.crew_member member

-- `OFFSET n` and `LIMIT n`
abbrev pub skip_cards : ℕ → List StoredCard → List StoredCard
skip_cards zero cs = cs
skip_cards (suc n) [] = []
skip_cards (suc n) (c ∷ cs) = skip_cards n cs

abbrev pub limit_cards : ℕ → List StoredCard → List StoredCard
limit_cards zero cs = []
limit_cards (suc n) [] = []
limit_cards (suc n) (c ∷ cs) = c ∷ limit_cards n cs

unfoldable pub list_cards : ℕ → Option String → ℕ → ℕ → List StoredCard → List StoredCard × ℕ
list_cards voyage member limit offset cards =
    let found = keep (is_listed voyage member) cards in
    (limit_cards limit (skip_cards offset (by_newest found)), length found)
