-- ===== src/Services/Cards/Remaining.antt =====
-- `cleanup` of services/vivre_card_service.py as a whole.
use grand_line.Common.{
  ℕ, String, ◌≡◌, refl, ap, sym, ◌∙◌, Bool, true, false, not, ◌&&◌, List, [], ◌∷◌, ◌==◌, keep,
  any_by, if◌then◌else◌, arith, inl, inr, Bool-cases, str_eq, eq_iff,
}
use grand_line.Services.Cards.Cleaning.{
  StoredCard, is_of, by_newest, first_ids, ids_of, all_ids, Cleanup, cleanup_cards, members_of,
}
use grand_line.Services.Cards.Kept.{IsKeyed}
use grand_line.Services.Cards.Cleaned.{first_none, clean_members-own, clean_members-other}

-- A name that a list with equal names for two names holds under the one is held under the other.
any_equal :
    (a b : String) (ms : List String)
    → a ≡ b
    → any_by (λ m. str_eq m a) ms ≡ any_by (λ m. str_eq m b) ms
any_equal a b ms h = ap (λ k. any_by (λ m. str_eq m k) ms) h

member_split :
    (cond : Bool) (m k : String) (rest : List String)
    → any_by (λ j. str_eq j k) (if cond then m ∷ rest else rest) ≡ false
    → (any_by (λ j. str_eq j k) rest ≡ false) × (cond ≡ true → str_eq m k ≡ false)
member_split true m k rest h = (ground arith, λ e. ground arith)
member_split false m k rest h = (h, λ e. cc)

-- A member that the query for the members does not find has no card.
members_of-none :
    (voyage : ℕ) (k : String) (cards : List StoredCard)
    → any_by (λ m. str_eq m k) (members_of voyage cards) ≡ false
    → keep (is_of voyage k) cards ≡ []
members_of-none voyage k [] h = refl
members_of-none voyage k (c ∷ cards) h =
    let rest = members_of voyage cards in
    let cond = (c.voyage_id == voyage) && not (any_by (λ m. str_eq m c.crew_member) rest) in
    let (free, first) = member_split cond c.crew_member k rest h in
    elim (Bool-cases (is_of voyage k c)) [
      | inr other ↦ rw other (members_of-none voyage k cards free)
      | inl own ↦
          let same : c.crew_member ≡ k = (eq_iff c.crew_member k).0 (ground arith) in
          let unlisted : any_by (λ m. str_eq m c.crew_member) rest ≡ false =
            any_equal c.crew_member k rest same ∙ free in
          let listed : cond ≡ true = rw unlisted (ground arith) in
          let clash : str_eq c.crew_member k ≡ false = first listed in absurd (ground arith)
    ]

-- If ids are unique, a cleanup of a voyage leaves for each name of a crew member exactly the newest
-- cards of the voyage, up to the given number, and all cards of other voyages.
pub cleanup_cards-kept :
    (voyage n : ℕ) (cards : List StoredCard)
    → IsKeyed cards
    → ((k : String)
        → all_ids voyage k (cleanup_cards voyage n cards).cards
          ≡ first_ids n (all_ids voyage k cards))
      × (keep (λ (c : StoredCard). not (c.voyage_id == voyage)) (cleanup_cards voyage n cards).cards
          ≡ keep (λ (c : StoredCard). not (c.voyage_id == voyage)) cards)
unfolding cleanup_cards
cleanup_cards-kept voyage n cards keyed =
    let start : Cleanup = record { total_deleted = 0; total_kept = 0; cards = cards } in
    (
      λ k.
          let own = clean_members-own voyage n (members_of voyage cards) start k keyed in
          elim (Bool-cases (any_by (λ m. str_eq m k) (members_of voyage cards))) [
            | inl e ↦ own ∙ rw e refl
            | inr e ↦
                let empty : all_ids voyage k cards ≡ [] =
                  ap (λ cs. ids_of (by_newest cs)) (members_of-none voyage k cards e) in
                own ∙ rw (e, empty) (sym (first_none n))
          ],
      clean_members-other voyage n (members_of voyage cards) start keyed,
    )
