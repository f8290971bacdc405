-- ===== src/Services/Cards/Cleaned.antt =====
-- `cleanup` of services/vivre_card_service.py, one crew member after the other.
use mathlib.Core.Path.{subst}
use grand_line.Common.{
  ℕ, zero, suc, String, ◌≡◌, refl, ap, sym, ◌∙◌, Bool, true, false, not, List, [], ◌∷◌, ◌==◌, keep,
  any_by, contains, if◌then◌else◌, All, arith, inl, inr, Bool-cases, str_eq, eq_iff,
}
use grand_line.Services.Cards.Cleaning.{
  StoredCard, is_of, by_newest, first_ids, later_ids, ids_of, without_ids, all_ids, Cleanup,
  clean_member, clean_members,
}
use grand_line.Services.Cards.Kept.{
  IsKeyed, All-keep, by_newest-keep, keep-keep, contains-by_newest, by_newest-IsKeyed,
  contains-keep_le, keep-IsKeyed, contains-later,
}

All-imp {ℓ} :
    (P Q : StoredCard → Type ℓ) (cs : List StoredCard)
    → ((c : StoredCard) → P c → Q c)
    → All P cs
    → All Q cs
All-imp P Q [] h all = tt
All-imp P Q (c ∷ cs) h (first, rest) = (h c first, All-imp P Q cs h rest)

All-own : (cs : List StoredCard) → All (λ (c : StoredCard). contains c.id (ids_of cs) ≡ true) cs
All-own [] = tt
All-own (c ∷ cs) = (
  ground arith,
  All-imp (λ (d : StoredCard). contains d.id (ids_of cs) ≡ true)
      (λ (d : StoredCard). contains d.id (ids_of (c ∷ cs)) ≡ true) cs (λ d h. ground arith)
      (All-own cs),
)

keep-none :
    (ids : List ℕ) (cs : List StoredCard)
    → All (λ (c : StoredCard). contains c.id ids ≡ true) cs
    → without_ids ids cs ≡ []
keep-none ids [] all = refl
keep-none ids (c ∷ cs) (first, rest) = rw (first, keep-none ids cs rest) refl

keep-every :
    (ids : List ℕ) (cs : List StoredCard)
    → All (λ (c : StoredCard). contains c.id ids ≡ false) cs
    → without_ids ids cs ≡ cs
keep-every ids [] all = refl
keep-every ids (c ∷ cs) (first, rest) = rw (first, keep-every ids cs rest) refl

-- Without the later ones of its ids a list has the first ones.
without_later :
    (n : ℕ) (cs : List StoredCard)
    → IsKeyed cs
    → ids_of (without_ids (later_ids n (ids_of cs)) cs) ≡ first_ids n (ids_of cs)
without_later zero cs keyed = ap ids_of (keep-none (ids_of cs) cs (All-own cs))
without_later (suc n) [] keyed = refl
without_later (suc n) (c ∷ cs) (fresh, keyed) =
    rw (contains-later c.id n (ids_of cs) fresh) (ap (λ ids. c.id ∷ ids) (without_later n cs keyed))

All-fresh :
    (i : ℕ) (cs : List StoredCard)
    → contains i (ids_of cs) ≡ false
    → All (λ (c : StoredCard). (i == c.id) ≡ false) cs
All-fresh i [] h = tt
All-fresh i (c ∷ cs) h = (ground arith, All-fresh i cs (ground arith))

All-add :
    (i : ℕ) (ids : List ℕ) (cs : List StoredCard)
    → All (λ (c : StoredCard). (i == c.id) ≡ false) cs
    → All (λ (c : StoredCard). contains c.id ids ≡ false) cs
    → All (λ (c : StoredCard). contains c.id (i ∷ ids) ≡ false) cs
All-add i ids [] new old = tt
All-add i ids (c ∷ cs) (first, rest) (first', rest') = (ground arith, All-add i ids cs rest rest')

-- The cards that pass one test have other ids than those that pass a test that excludes it.
apart :
    (p r : StoredCard → Bool) (cs : List StoredCard)
    → ((c : StoredCard) → p c ≡ true → r c ≡ false)
    → IsKeyed cs
    → All (λ (c : StoredCard). contains c.id (ids_of (keep r cs)) ≡ false) (keep p cs)
apart p r [] h keyed = tt
apart p r (c ∷ cs) h (fresh, keyed) =
    let Away =
      λ (ks qs : List StoredCard). All (λ (d : StoredCard). contains d.id (ids_of ks) ≡ false) qs in
    elim (Bool-cases (p c)) [
      | inl e ↦
          let same : keep r cs ≡ keep r (c ∷ cs) = rw (h c e) refl in
          let kept : c ∷ keep p cs ≡ keep p (c ∷ cs) = rw e refl in
          subst (λ qs. Away (keep r (c ∷ cs)) qs) kept
            (subst (λ ks. Away ks (c ∷ keep p cs)) same
              (contains-keep_le r c.id cs fresh, apart p r cs h keyed))
      | inr e ↦
          let kept : keep p cs ≡ keep p (c ∷ cs) = rw e refl in
          subst (λ qs. Away (keep r (c ∷ cs)) qs) kept
            (elim (Bool-cases (r c)) [
              | inl k ↦
                  let same : c ∷ keep r cs ≡ keep r (c ∷ cs) = rw k refl in
                  subst (λ ks. Away ks (keep p cs)) same
                    (All-add c.id (ids_of (keep r cs)) (keep p cs)
                      (All-keep _ p cs (All-fresh c.id cs fresh)) (apart p r cs h keyed))
              | inr k ↦
                  let same : keep r cs ≡ keep r (c ∷ cs) = rw k refl in
                  subst (λ ks. Away ks (keep p cs)) same (apart p r cs h keyed)
            ])
    ]

module _ (voyage n : ℕ) where
  -- The turn of a member keeps the first cards of this member.
  clean_member-own :
      (m : String) (s : Cleanup)
      → IsKeyed s.cards
      → all_ids voyage m (clean_member voyage n m s).cards ≡ first_ids n (all_ids voyage m s.cards)
  clean_member-own m s keyed =
      let own = keep (is_of voyage m) s.cards in
      let dels = later_ids n (all_ids voyage m s.cards) in
      let stays = λ (c : StoredCard). not (contains c.id dels) in
      ap (λ cs. ids_of (by_newest cs)) (keep-keep (is_of voyage m) stays s.cards)
      ∙ ap ids_of (by_newest-keep stays own)
      ∙ without_later n (by_newest own)
          (by_newest-IsKeyed own (keep-IsKeyed (is_of voyage m) s.cards keyed))

  -- And all cards that are not of this member.
  clean_member-other :
      (p : StoredCard → Bool) (m : String) (s : Cleanup)
      → ((c : StoredCard) → p c ≡ true → is_of voyage m c ≡ false)
      → IsKeyed s.cards
      → keep p (clean_member voyage n m s).cards ≡ keep p s.cards
  clean_member-other p m s h keyed =
      let own = keep (is_of voyage m) s.cards in
      let dels = later_ids n (all_ids voyage m s.cards) in
      keep-keep p (λ (c : StoredCard). not (contains c.id dels)) s.cards
      ∙ keep-every dels (keep p s.cards) (
          All-imp (λ (c : StoredCard). contains c.id (ids_of own) ≡ false)
            (λ (c : StoredCard). contains c.id dels ≡ false) (keep p s.cards)
            (λ c e.
              contains-later c.id n (ids_of (by_newest own)) (contains-by_newest c.id own ∙ e))
            (apart p (is_of voyage m) s.cards h keyed))

  clean_member-IsKeyed :
      (m : String) (s : Cleanup) → IsKeyed s.cards → IsKeyed (clean_member voyage n m s).cards
  clean_member-IsKeyed m s keyed =
      keep-IsKeyed
        (λ (c : StoredCard). not (contains c.id (later_ids n (all_ids voyage m s.cards)))) s.cards
        keyed

first_first : (k : ℕ) (ids : List ℕ) → first_ids k (first_ids k ids) ≡ first_ids k ids
first_first zero ids = refl
first_first (suc k) [] = refl
first_first (suc k) (i ∷ ids) = ap (λ js. i ∷ js) (first_first k ids)

pub first_none : (k : ℕ) → first_ids k [] ≡ []
first_none zero = refl
first_none (suc k) = refl

either {ℓ} : {A : Type ℓ} (b : Bool) (a : A) → (if b then a else a) ≡ a
either true a = refl
either false a = refl

exclusive :
    (voyage : ℕ) (k m : String) (c : StoredCard)
    → str_eq m k ≡ false
    → is_of voyage k c ≡ true
    → is_of voyage m c ≡ false
exclusive voyage k m c h e = elim (Bool-cases (str_eq c.crew_member m)) [
  | inl same ↦
      let to_m : c.crew_member ≡ m = (eq_iff c.crew_member m).0 same in
      let to_k : c.crew_member ≡ k = (eq_iff c.crew_member k).0 (ground arith) in
      let equal : str_eq m k ≡ true = (eq_iff m k).1 (sym to_m ∙ to_k) in ground arith
  | inr other ↦ ground arith
]

module _ (voyage n : ℕ) where
  pub clean_members-own :
      (ms : List String) (s : Cleanup) (k : String)
      → IsKeyed s.cards
      → all_ids voyage k (clean_members voyage n ms s).cards ≡ (
          if any_by (λ m. str_eq m k) ms
          then first_ids n (all_ids voyage k s.cards)
          else all_ids voyage k s.cards)
  unfolding clean_members
  clean_members-own [] s k keyed = refl
  clean_members-own (m ∷ ms) s k keyed =
      let next = clean_member voyage n m s in
      let ih = clean_members-own ms next k (clean_member-IsKeyed voyage n m s keyed) in
      elim (Bool-cases (str_eq m k)) [
        | inl e ↦
            let same : m ≡ k = (eq_iff m k).0 e in
            let own : all_ids voyage k next.cards ≡ first_ids n (all_ids voyage k s.cards) =
              subst (λ j. all_ids voyage j next.cards ≡ first_ids n (all_ids voyage j s.cards)) same
                (clean_member-own voyage n m s keyed) in
            rw (ih, own, first_first n (all_ids voyage k s.cards), e)
              (either (any_by (λ j. str_eq j k) ms) (first_ids n (all_ids voyage k s.cards)))
        | inr e ↦
            let other : all_ids voyage k next.cards ≡ all_ids voyage k s.cards =
              ap (λ cs. ids_of (by_newest cs))
                (clean_member-other voyage n (is_of voyage k) m s (λ c. exclusive voyage k m c e)
                  keyed) in
            rw (ih, other, e) refl
      ]

  pub clean_members-other :
      (ms : List String) (s : Cleanup)
      → IsKeyed s.cards
      → keep (λ (c : StoredCard). not (c.voyage_id == voyage)) (clean_members voyage n ms s).cards
        ≡ keep (λ (c : StoredCard). not (c.voyage_id == voyage)) s.cards
  unfolding clean_members
  clean_members-other [] s keyed = refl
  clean_members-other (m ∷ ms) s keyed =
      clean_members-other ms (clean_member voyage n m s) (clean_member-IsKeyed voyage n m s keyed)
      ∙ clean_member-other voyage n (λ (c : StoredCard). not (c.voyage_id == voyage)) m s
          (λ c h. ground arith) keyed
