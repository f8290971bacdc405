-- ===== src/Plan/Progress.antt =====
-- When `topological_layers` succeeds, and how many phases its layers hold.
use grand_line.Common.{
  All, ℕ, zero, suc, ◌<◌, ◌+◌, ◌≤◌, ◌≡◌, ◌≢◌, ◌∙◌, refl, Bool, true, false, not, ◌||◌, ◌&&◌, List,
  [], ◌∷◌, ◌++◌, arith, ltb, length, keep, contains, inl, inr, Bool-cases, contains-append,
  contains-keep, length-sorted, length-keep-not, all_by-intro,
}
use grand_line.Model.Voyage.{PhaseSpec}
use grand_line.Plan.Layers.{
  LayerResult, layers, invalid_dep_graph, out_of_fuel, with_layer, is_empty, is_ready, ready_layer,
  without, layers_loop, topological_layers, deps_of, phase_keys,
}
use grand_line.Plan.Placement.{
  IsPlaced, total, length-keep_lt, ready_layer-contains, layers_loop-step, layers_loop-suc,
  layers_loop-IsPlaced,
}

All-intro {ℓ} : {P : ℕ → Type ℓ} (xs : List ℕ) → ((n : ℕ) → contains n xs ≡ true → P n) → All P xs
All-intro [] h = tt
All-intro (x ∷ xs) h = (h x (ground arith), All-intro xs (λ n m. h n (ground arith)))

keep_ext :
    (p q : ℕ → Bool) (xs : List ℕ)
    → ((n : ℕ) → contains n xs ≡ true → p n ≡ q n)
    → keep p xs ≡ keep q xs
keep_ext p q [] h = refl
keep_ext p q (x ∷ xs) h = ground (arith, h x, keep_ext p q xs (λ n m. h n (ground arith)))

least :
    (rank : ℕ → ℕ) (x : ℕ) (xs : List ℕ)
    → (m : ℕ) × (contains m (x ∷ xs) ≡ true)
      × ((k : ℕ) → contains k (x ∷ xs) ≡ true → rank m ≤ rank k)
least rank x [] = (x, ground arith, λ k h. ground arith)
least rank x (y ∷ ys) =
    let (m, inside, low) = least rank y ys in
    elim (Bool-cases (ltb (rank x) (rank m))) [
      | inl lt ↦ (x, ground arith, λ k h. ground (arith, low k))
      | inr ge ↦ (m, ground arith, λ k h. ground (arith, low k))
    ]

nonempty : (n : ℕ) (xs : List ℕ) → contains n xs ≡ true → is_empty xs ≡ false
nonempty n [] h = cc
nonempty n (x ∷ xs) h = refl

member : (xs : List ℕ) → is_empty xs ≡ false → (n : ℕ) × (contains n xs ≡ true)
member [] h = absurd (cc)
member (x ∷ xs) h = (x, ground arith)

with_layer-ne-out_of_fuel :
    (l : List ℕ) (r : LayerResult) → r ≢ out_of_fuel → with_layer l r ≢ out_of_fuel
with_layer-ne-out_of_fuel l (layers ls) h = λ e. cc
with_layer-ne-out_of_fuel l (invalid_dep_graph ns) h = λ e. cc
with_layer-ne-out_of_fuel l out_of_fuel h = h

not_lower :
    (done inside : Bool) (low high : ℕ)
    → (done || (inside && ltb low high)) ≡ true
    → (inside ≡ true → high ≤ low)
    → done ≡ true
not_lower done inside low high h k = ground (arith, k)

-- Each dependency of each number of `remaining` is completed, or remains and ranks lower.
abbrev pub IsRanked : (ℕ → ℕ) → (ℕ → List ℕ) → List ℕ → List ℕ → Type 0
IsRanked rank deps remaining completed =
    (n d : ℕ)
    → contains n remaining ≡ true
    → contains d (deps n) ≡ true
    → (contains d completed || (contains d remaining && ltb (rank d) (rank n))) ≡ true

module _ (deps : ℕ → List ℕ) where
  without-ready :
      (remaining completed : List ℕ)
      → without deps (ready_layer deps remaining completed) remaining
        ≡ keep (λ n. not (is_ready deps completed n)) remaining
  without-ready remaining completed =
      keep_ext (λ n. not (contains n (ready_layer deps remaining completed)))
        (λ n. not (is_ready deps completed n)) remaining
        (λ n m. ground (arith, ready_layer-contains deps n remaining completed))

  length-without :
      (remaining completed : List ℕ)
      → length (ready_layer deps remaining completed)
          + length (without deps (ready_layer deps remaining completed) remaining)
        ≡ length remaining
  length-without remaining completed = rw (without-ready remaining completed) (
      omega (
        arith,
        length-sorted (keep (is_ready deps completed) remaining),
        length-keep-not (is_ready deps completed) remaining,
      ))

  length-without_lt :
      (remaining completed : List ℕ)
      → is_empty (ready_layer deps remaining completed) ≡ false
      → length (without deps (ready_layer deps remaining completed) remaining) < length remaining
  length-without_lt remaining completed h =
      let layer = ready_layer deps remaining completed in
      let (n, m) = member layer h in
      length-keep_lt (λ k. not (contains k layer)) n remaining
        (ground (arith, ready_layer-contains deps n remaining completed)) (ground arith)

  -- The layers hold as many numbers as the plan has phases.
  pub total-layers_loop :
      (fuel : ℕ) (remaining completed : List ℕ) (ls : List (List ℕ))
      → layers_loop deps fuel remaining completed ≡ layers ls
      → total ls ≡ length remaining
  unfolding layers_loop
  total-layers_loop fuel [] completed ls h = ground arith
  total-layers_loop zero (x ∷ xs) completed ls h = cc
  total-layers_loop (suc fuel) (x ∷ xs) completed ls h =
      let layer = ready_layer deps (x ∷ xs) completed in
      let (rest, e, split) = layers_loop-step deps fuel x xs completed ls h in
      let ih = total-layers_loop fuel (without deps layer (x ∷ xs)) (completed ++ layer) rest e in
      rw split (omega (arith, ih, length-without (x ∷ xs) completed))

  -- The loop runs at most once for each number that remains.
  pub layers_loop-ne-out_of_fuel :
      (fuel : ℕ) (remaining completed : List ℕ)
      → length remaining ≤ fuel
      → layers_loop deps fuel remaining completed ≢ out_of_fuel
  layers_loop-ne-out_of_fuel fuel [] completed h = unfold layers_loop in λ e. cc
  layers_loop-ne-out_of_fuel zero (x ∷ xs) completed h = absurd (omega arith)
  layers_loop-ne-out_of_fuel (suc fuel) (x ∷ xs) completed h =
      let layer = ready_layer deps (x ∷ xs) completed in
      rw (layers_loop-suc deps fuel x xs completed) (elim (Bool-cases (is_empty layer)) [
        | inl e ↦ rw e (λ c. cc)
        | inr e ↦ rw e (
            with_layer-ne-out_of_fuel layer
              (layers_loop deps fuel (without deps layer (x ∷ xs)) (completed ++ layer))
              (layers_loop-ne-out_of_fuel fuel (without deps layer (x ∷ xs)) (completed ++ layer)
                (omega (arith, length-without_lt (x ∷ xs) completed e))))
      ])

  least_is_ready :
      (rank : ℕ → ℕ) (x : ℕ) (xs completed : List ℕ)
      → IsRanked rank deps (x ∷ xs) completed
      → is_empty (ready_layer deps (x ∷ xs) completed) ≡ false
  least_is_ready rank x xs completed h =
      let (m, inside, low) = least rank x xs in
      let ready =
        all_by-intro (λ d. contains d completed) (deps m)
          (λ d e.
            not_lower (contains d completed) (contains d (x ∷ xs)) (rank d) (rank m)
              (h m d inside e) (low d)) in
      nonempty m (ready_layer deps (x ∷ xs) completed)
        (ready_layer-contains deps m (x ∷ xs) completed ∙ rw ready inside)

  IsRanked-step :
      (rank : ℕ → ℕ) (remaining completed layer : List ℕ)
      → IsRanked rank deps remaining completed
      → IsRanked rank deps (without deps layer remaining) (completed ++ layer)
  IsRanked-step rank remaining completed layer h n d m e =
      let outside = λ (k : ℕ). contains-keep (λ j. not (contains j layer)) k remaining in
      ground (
        arith,
        h n d (ground (arith, outside n)) e,
        outside d,
        outside n,
        contains-append d completed layer,
      )

  -- Where the dependencies descend along some rank the loop never refuses.
  pub layers_loop_total :
      (rank : ℕ → ℕ) (fuel : ℕ) (remaining completed : List ℕ)
      → length remaining ≤ fuel
      → IsRanked rank deps remaining completed
      → (ls : List (List ℕ)) × (layers_loop deps fuel remaining completed ≡ layers ls)
  layers_loop_total rank fuel [] completed h ranked = ([], unfold layers_loop in refl)
  layers_loop_total rank zero (x ∷ xs) completed h ranked = absurd (omega arith)
  layers_loop_total rank (suc fuel) (x ∷ xs) completed h ranked =
      let layer = ready_layer deps (x ∷ xs) completed in
      let e = least_is_ready rank x xs completed ranked in
      let (rest, found) =
        layers_loop_total rank fuel (without deps layer (x ∷ xs)) (completed ++ layer)
          (omega (arith, length-without_lt (x ∷ xs) completed e))
          (IsRanked-step rank (x ∷ xs) completed layer ranked) in
      (layer ∷ rest, rw (layers_loop-suc deps fuel x xs completed, e, found))

-- The layers of a plan: each number of a phase stands in one, with its dependencies all in earlier ones,
-- and the layers hold as many numbers as the plan has different ones; of phases with the same number the
-- dependencies are those of the last.
pub topological_layers-IsPlaced :
    (phases : List PhaseSpec) (ls : List (List ℕ))
    → topological_layers phases ≡ layers ls
    → All (λ n. IsPlaced (deps_of phases) n [] ls) (phase_keys phases)
      × (total ls ≡ length (phase_keys phases))
unfolding topological_layers
topological_layers-IsPlaced phases ls h = (
  All-intro (phase_keys phases) (
      layers_loop-IsPlaced (deps_of phases) (length (phase_keys phases)) (phase_keys phases) [] ls
        h),
  total-layers_loop (deps_of phases) (length (phase_keys phases)) (phase_keys phases) [] ls h,
)

-- A plan whose dependencies are phases of it and descend along some rank is never refused.
pub topological_layers_total :
    (phases : List PhaseSpec) (rank : ℕ → ℕ)
    → ((n d : ℕ)
        → contains n (phase_keys phases) ≡ true
        → contains d (deps_of phases n) ≡ true
        → (contains d (phase_keys phases) && ltb (rank d) (rank n)) ≡ true)
    → (ls : List (List ℕ)) × (topological_layers phases ≡ layers ls)
unfolding topological_layers
topological_layers_total phases rank h =
    layers_loop_total (deps_of phases) rank (length (phase_keys phases)) (phase_keys phases) []
      (omega arith) h

-- On every plan the loop ends by its own test, never for want of rounds.
pub topological_layers-ne-out_of_fuel :
    (phases : List PhaseSpec) → topological_layers phases ≢ out_of_fuel
unfolding topological_layers
topological_layers-ne-out_of_fuel phases =
    layers_loop-ne-out_of_fuel (deps_of phases) (length (phase_keys phases)) (phase_keys phases) []
      (omega arith)
