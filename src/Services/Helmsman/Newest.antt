-- ===== src/Services/Helmsman/Newest.antt =====
-- Which deployment a rollback goes back to.
use mathlib.Core.Path.{subst}
use grand_line.Common.{
  ℕ, ◌≡◌, refl, sym, ap, &&-left, &&-right, ◌∙◌, Bool, true, not, ◌||◌, some, none, List, [], ◌∷◌,
  arith, if◌then◌else◌, all_by, keep, best, latest, leb, ltb, Bool-cases, inl, inr,
}
use grand_line.Model.World.{World, DeploymentTier, Deployment}
use grand_line.Services.Helmsman.Records.{is_candidate, find_previous_deployment}

module _ {ℓ} {A : Type ℓ} where
  best-holds :
      (p : A → Bool) (key : A → ℕ) (b : A) (xs : List A)
      → p b ≡ true
      → all_by p xs ≡ true
      → p (best key b xs) ≡ true
  best-holds p key b [] h k = h
  best-holds p key b (x ∷ xs) h k = elim (Bool-cases (ltb (key b) (key x))) [
    | inl e ↦ rw e (best-holds p key x xs (ground arith) (ground arith))
    | inr e ↦ rw e (best-holds p key b xs h (ground arith))
  ]

  best-first : (key : A → ℕ) (b : A) (xs : List A) → leb (key b) (key (best key b xs)) ≡ true
  best-first key b [] = ground arith
  best-first key b (x ∷ xs) = elim (Bool-cases (ltb (key b) (key x))) [
    | inl e ↦ rw e (ground (arith, best-first key x xs))
    | inr e ↦ rw e (best-first key b xs)
  ]

  picked : (key : A → ℕ) (b x : A) → leb (key x) (key (if ltb (key b) (key x) then x else b)) ≡ true
  picked key b x = ground arith

  best-upper :
      (key : A → ℕ) (b : A) (xs : List A) (m : ℕ)
      → m ≡ key (best key b xs)
      → all_by (λ x. leb (key x) m) xs ≡ true
  best-upper key b [] m h = refl
  best-upper key b (x ∷ xs) m h =
      let c = if ltb (key b) (key x) then x else b in
      ground (arith, picked key b x, best-first key c xs, best-upper key c xs m h)

  all_by-keep : (p : A → Bool) (xs : List A) → all_by p (keep p xs) ≡ true
  all_by-keep p [] = refl
  all_by-keep p (x ∷ xs) = ground (arith, all_by-keep p xs)

  all_by-unkeep :
      (p q : A → Bool) (xs : List A) → all_by q (keep p xs) ≡ all_by (λ x. not (p x) || q x) xs
  all_by-unkeep p q [] = refl
  all_by-unkeep p q (x ∷ xs) = ground (arith, all_by-unkeep p q xs)

  latest-among :
      (p : A → Bool) (key : A → ℕ) (xs : List A) (a : A)
      → all_by p xs ≡ true
      → latest key xs ≡ some a
      → (p a ≡ true) × (all_by (λ x. leb (key x) (key a)) xs ≡ true)
  latest-among p key [] a g h = ground arith
  latest-among p key (x ∷ xs) a g h =
      subst (λ c. (p c ≡ true) × (all_by (λ y. leb (key y) (key c)) (x ∷ xs) ≡ true))
        (ap (λ o. elim o [ none ↦ x | some c ↦ c ]) h)
        (
          best-holds p key x xs (&&-left (p x) (all_by p xs) g) (&&-right (p x) (all_by p xs) g),
          ground (arith, best-first key x xs, best-upper key x xs (key (best key x xs)) refl),
        )

-- The deployment that a rollback of a tier goes back to is a completed deploy of that tier, and no
-- other completed deploy of the tier is newer.
pub find_previous_deployment_newest :
    (tier : DeploymentTier) (w : World) (d : Deployment)
    → find_previous_deployment tier w ≡ some d
    → (is_candidate tier d ≡ true)
      × (all_by (λ x. not (is_candidate tier x) || leb x.created_at d.created_at) w.deployments
          ≡ true)
find_previous_deployment_newest tier w d h =
    let (p, q) =
      latest-among (is_candidate tier) (λ (x : Deployment). x.created_at)
        (keep (is_candidate tier) w.deployments) d (all_by-keep (is_candidate tier) w.deployments)
        h in
    (
      p,
      sym (all_by-unkeep (is_candidate tier) (λ x. leb x.created_at d.created_at) w.deployments)
          ∙ q,
    )
