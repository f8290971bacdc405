-- ===== src/Services/Paths/Laws.antt =====
-- An accepted path stays below the directory that it is taken from.
use mathlib.Core.Path.{subst}
use grand_line.Common.{
  ℕ, zero, suc, ◌≡◌, refl, Bool, true, false, not, ◌&&◌, ◌||◌, List, [], ◌∷◌, ◌++◌, if◌then◌else◌,
  Text, starts_with, arith, length, Bool-cases, inl, inr, ap,
}
use grand_line.Services.Paths.{
  same_text, split_slash, join_slash, dot, dot_dot, ends_up, without_last, is_nil, add_component,
  norm_components, or_dot, validate_relative_path,
}

-- Whether a walk over the components, from `depth` directories below the start, never leaves it.
abbrev pub stays_below : ℕ → List Text → Bool
stays_below depth [] = true
stays_below depth (p ∷ ps) =
    if same_text p [] || same_text p dot
    then stays_below depth ps
    else (if not (same_text p dot_dot)
        then stays_below (suc depth) ps
        else elim depth [ zero ↦ false | suc d ↦ stays_below d ps ])

abbrev climbs : List Text → Bool
climbs [] = false
climbs (p ∷ ps) = same_text p dot_dot

abbrev no_up : List Text → Bool
no_up [] = true
no_up (p ∷ ps) = not (same_text p dot_dot) && no_up ps

add_component-climbs :
    (comps : List Text) (p : Text) → climbs comps ≡ true → climbs (add_component comps p) ≡ true
add_component-climbs [] p h = cc
add_component-climbs (c ∷ []) p h = ground arith
add_component-climbs (c ∷ d ∷ cs) p h = ground arith

norm_components-climbs :
    (comps ps : List Text) → climbs comps ≡ true → climbs (norm_components comps ps) ≡ true
unfolding norm_components
norm_components-climbs comps [] h = h
norm_components-climbs comps (p ∷ ps) h =
    norm_components-climbs (add_component comps p) ps (add_component-climbs comps p h)

no_up-append :
    (comps : List Text) (p : Text)
    → no_up (comps ++ p ∷ []) ≡ (no_up comps && not (same_text p dot_dot))
no_up-append [] p = ground arith
no_up-append (c ∷ cs) p = ground (arith, no_up-append cs p)

length-snoc : (comps : List Text) (p : Text) → length (comps ++ p ∷ []) ≡ suc (length comps)
length-snoc [] p = refl
length-snoc (c ∷ cs) p = ap suc (length-snoc cs p)

no_up-ends_up : (comps : List Text) → no_up comps ≡ true → ends_up comps ≡ false
no_up-ends_up [] h = refl
no_up-ends_up (c ∷ []) h = ground arith
no_up-ends_up (c ∷ d ∷ cs) h = no_up-ends_up (d ∷ cs) (ground arith)

no_up-without_last : (comps : List Text) → no_up comps ≡ true → no_up (without_last comps) ≡ true
no_up-without_last [] h = refl
no_up-without_last (c ∷ []) h = refl
no_up-without_last (c ∷ d ∷ cs) h = ground (arith, no_up-without_last (d ∷ cs))

length-without_last :
    (c : Text) (comps : List Text) → length (without_last (c ∷ comps)) ≡ length comps
length-without_last c [] = refl
length-without_last c (d ∷ cs) = ap suc (length-without_last d cs)

go_up :
    (comps : List Text) (p : Text) (ps : List Text)
    → same_text p dot_dot ≡ true
    → ends_up comps ≡ false
    → (stays_below (length (without_last comps)) ps
        || climbs (norm_components (without_last comps) ps))
      ≡ true
    → (elim (length comps) [ zero ↦ false | suc d ↦ stays_below d ps ]
        || climbs (
            norm_components
              (if is_nil comps || ends_up comps then comps ++ p ∷ [] else without_last comps)
              ps))
      ≡ true
go_up [] p ps u n h = norm_components-climbs (p ∷ []) ps u
go_up (c ∷ cs) p ps u n h = rw n (
    subst (λ k. (stays_below k ps || climbs (norm_components (without_last (c ∷ cs)) ps)) ≡ true)
      (length-without_last c cs) h)

-- Either the walk never leaves, or the normal form begins by going up.
norm_components-stays_below :
    (comps ps : List Text)
    → no_up comps ≡ true
    → (stays_below (length comps) ps || climbs (norm_components comps ps)) ≡ true
unfolding norm_components
norm_components-stays_below comps [] h = refl
norm_components-stays_below comps (p ∷ ps) h =
    elim (Bool-cases (same_text p [] || same_text p dot)) [
      | inl e ↦ rw e (norm_components-stays_below comps ps h)
      | inr e ↦ elim (Bool-cases (same_text p dot_dot)) [
        | inr u ↦
            rw (e, u)
              (subst
                (λ n. (stays_below n ps || climbs (norm_components (comps ++ p ∷ []) ps)) ≡ true)
                (length-snoc comps p)
                (norm_components-stays_below (comps ++ p ∷ []) ps
                  (ground (arith, no_up-append comps p))))
        | inl u ↦
            rw (e, u)
              (go_up comps p ps u (no_up-ends_up comps h)
                (norm_components-stays_below (without_last comps) ps (no_up-without_last comps h)))
      ]
    ]

starts_with-join :
    (c : Text) (cs : List Text)
    → same_text c dot_dot ≡ true
    → starts_with dot_dot (or_dot (join_slash (c ∷ cs))) ≡ true
starts_with-join [] cs h = cc
starts_with-join (x ∷ []) cs h = ground arith
starts_with-join (x ∷ y ∷ []) [] h = ground arith
starts_with-join (x ∷ y ∷ []) (d ∷ cs) h = ground arith
starts_with-join (x ∷ y ∷ z ∷ c) cs h = ground arith

climbs-starts_with :
    (cs : List Text) → climbs cs ≡ true → starts_with dot_dot (or_dot (join_slash cs)) ≡ true
climbs-starts_with [] h = cc
climbs-starts_with (c ∷ cs) h = starts_with-join c cs h

-- A walk along an accepted path never leaves the directory that it starts from.
pub validate_relative_path-stays_below :
    (path : Text) → validate_relative_path path ≡ true → stays_below 0 (split_slash path) ≡ true
unfolding validate_relative_path
validate_relative_path-stays_below path h =
    let comps = norm_components [] (split_slash path) in
    elim (Bool-cases (climbs comps)) [
      | inl e ↦ ground (arith, climbs-starts_with comps e)
      | inr e ↦ ground (arith, norm_components-stays_below [] (split_slash path) refl)
    ]
