-- ===== src/Services/Cards/Cleaning.antt =====
-- `cleanup` of services/vivre_card_service.py: for each crew member the newest cards stay. A card's
-- time tells its place; of equal times the later row of the table is the older one.
use grand_line.Common.{
  ℕ, zero, suc, ◌+◌, String, Bool, not, ◌&&◌, List, [], ◌∷◌, ◌==◌, map, keep, any_by, str_eq, ltb,
  contains, length, ◌-◌, if◌then◌else◌,
}

-- The columns of a `VivreCard` that are read here.
pub record StoredCard : Type 0 where
  pub id : ℕ
  pub voyage_id : ℕ
  pub crew_member : String
  pub created_at : ℕ

-- `select(distinct(VivreCard.crew_member)).where(...)`
abbrev pub members_of : ℕ → List StoredCard → List String
members_of voyage [] = []
members_of voyage (c ∷ cards) =
    let rest = members_of voyage cards in
    if (c.voyage_id == voyage) && not (any_by (λ m. str_eq m c.crew_member) rest)
    then c.crew_member ∷ rest
    else rest

abbrev pub is_of : ℕ → String → StoredCard → Bool
is_of voyage member c = (c.voyage_id == voyage) && str_eq c.crew_member member

abbrev pub insert_card : StoredCard → List StoredCard → List StoredCard
insert_card c [] = c ∷ []
insert_card c (d ∷ ds) =
    let rest = insert_card c ds in if ltb c.created_at d.created_at then d ∷ rest else c ∷ d ∷ ds

abbrev pub by_newest : List StoredCard → List StoredCard
by_newest [] = []
by_newest (c ∷ cs) = insert_card c (by_newest cs)

-- `all_ids[:n]` and `all_ids[n:]`
abbrev pub first_ids : ℕ → List ℕ → List ℕ
first_ids zero ids = []
first_ids (suc n) [] = []
first_ids (suc n) (i ∷ ids) = i ∷ first_ids n ids

abbrev pub later_ids : ℕ → List ℕ → List ℕ
later_ids zero ids = ids
later_ids (suc n) [] = []
later_ids (suc n) (i ∷ ids) = later_ids n ids

abbrev pub ids_of : List StoredCard → List ℕ
ids_of cards = map (λ (c : StoredCard). c.id) cards

-- `delete(VivreCard).where(VivreCard.id.in_(ids))`
abbrev pub without_ids : List ℕ → List StoredCard → List StoredCard
without_ids ids cards = keep (λ (c : StoredCard). not (contains c.id ids)) cards

-- The two totals, and the table.
pub record Cleanup : Type 0 where
  pub total_deleted : ℕ
  pub total_kept : ℕ
  pub cards : List StoredCard

abbrev pub all_ids : ℕ → String → List StoredCard → List ℕ
all_ids voyage member cards = ids_of (by_newest (keep (is_of voyage member) cards))

-- One turn of the loop; `rowcount` is the number of rows that are gone.
abbrev pub clean_member : ℕ → ℕ → String → Cleanup → Cleanup
clean_member voyage keep_last_n member s =
    let ids = all_ids voyage member s.cards in
    let left = without_ids (later_ids keep_last_n ids) s.cards in
    record {
      total_deleted = s.total_deleted + (length s.cards - length left);
      total_kept = s.total_kept + length (first_ids keep_last_n ids);
      cards = left;
    }

unfoldable pub clean_members : ℕ → ℕ → List String → Cleanup → Cleanup
clean_members voyage keep_last_n [] s = s
clean_members voyage keep_last_n (m ∷ ms) s =
    clean_members voyage keep_last_n ms (clean_member voyage keep_last_n m s)

unfoldable pub cleanup_cards : ℕ → ℕ → List StoredCard → Cleanup
unfolding clean_members
cleanup_cards voyage keep_last_n cards =
    clean_members voyage keep_last_n (members_of voyage cards)
      (record { total_deleted = 0; total_kept = 0; cards = cards })
