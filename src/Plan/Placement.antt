-- ===== src/Plan/Placement.antt =====
-- Where `topological_layers` of crew/pipeline_graph.py places a phase.
use grand_line.Common.{
  ℕ, zero, suc, ◌<◌, ◌+◌, ◌≡◌, refl, Bool, true, false, not, ◌⊎◌, List, [], ◌∷◌, ◌++◌, arith,
  if◌then◌else◌, length, keep, contains, sorted, inl, inr, Bool-cases, contains-keep,
  contains-sorted, length-keep_le, all_by,
}
use grand_line.Plan.Layers.{
  LayerResult, layers, invalid_dep_graph, out_of_fuel, with_layer, is_empty, is_ready, ready_layer,
  without, layers_loop,
}

-- `n` stands in one of the layers, and its dependencies are all in `completed` or in the layers
-- before its own.
abbrev pub IsPlaced : (ℕ → List ℕ) → ℕ → List ℕ → List (List ℕ) → Type 0
IsPlaced deps n completed [] = ⊥
IsPlaced deps n completed (l ∷ ls) =
    ((contains n l ≡ true) × (all_by (λ d. contains d completed) (deps n) ≡ true))
    ⊎ IsPlaced deps n (completed ++ l) ls

-- How many numbers the layers hold.
abbrev pub total : List (List ℕ) → ℕ
total [] = 0
total (l ∷ ls) = length l + total ls

pub length-keep_lt :
    (p : ℕ → Bool) (n : ℕ) (xs : List ℕ)
    → contains n xs ≡ true
    → p n ≡ false
    → length (keep p xs) < length xs
length-keep_lt p n [] m h = ground arith
length-keep_lt p n (x ∷ xs) m h = ground (arith, length-keep_lt p n xs, length-keep_le p xs)

clash : (r : List ℕ) (ls : List (List ℕ)) → invalid_dep_graph r ≡ layers ls → ⊥
clash r ls h = cc

module _ (deps : ℕ → List ℕ) where
  pub ready_layer-contains :
      (n : ℕ) (remaining completed : List ℕ)
      → contains n (ready_layer deps remaining completed)
        ≡ (if is_ready deps completed n then contains n remaining else false)
  ready_layer-contains n remaining completed = ground (
    arith,
    contains-sorted n (keep (is_ready deps completed) remaining),
    contains-keep (is_ready deps completed) n remaining,
  )

  with_layer-layers :
      (l : List ℕ) (r : LayerResult) (ls : List (List ℕ))
      → with_layer l r ≡ layers ls
      → (rest : List (List ℕ)) × (r ≡ layers rest) × (ls ≡ l ∷ rest)
  with_layer-layers l (layers rest) ls h = (rest, refl, ground arith)
  with_layer-layers l (invalid_dep_graph r) ls h = cc
  with_layer-layers l out_of_fuel ls h = cc

  -- One round of the loop, as an equation.
  pub layers_loop-suc :
      (fuel x : ℕ) (xs completed : List ℕ)
      → layers_loop deps (suc fuel) (x ∷ xs) completed ≡ (
          if is_empty (ready_layer deps (x ∷ xs) completed)
          then invalid_dep_graph (sorted (x ∷ xs))
          else with_layer (ready_layer deps (x ∷ xs) completed) (
              layers_loop deps fuel
                (without deps (ready_layer deps (x ∷ xs) completed) (x ∷ xs))
                (completed ++ ready_layer deps (x ∷ xs) completed)))
  unfolding layers_loop
  layers_loop-suc fuel x xs completed = refl

  -- One round: the layer that was found, and the rest of the layering.
  pub layers_loop-step :
      (fuel x : ℕ) (xs completed : List ℕ) (ls : List (List ℕ))
      → layers_loop deps (suc fuel) (x ∷ xs) completed ≡ layers ls
      → (rest : List (List ℕ)) × (layers_loop deps fuel
            (without deps (ready_layer deps (x ∷ xs) completed) (x ∷ xs))
            (completed ++ ready_layer deps (x ∷ xs) completed)
          ≡ layers rest)
        × (ls ≡ ready_layer deps (x ∷ xs) completed ∷ rest)
  unfolding layers_loop
  layers_loop-step fuel x xs completed ls h =
      let layer = ready_layer deps (x ∷ xs) completed in
      let r = layers_loop deps fuel (without deps layer (x ∷ xs)) (completed ++ layer) in
      elim (Bool-cases (is_empty layer)) [
        | inl e ↦ absurd (clash (sorted (x ∷ xs)) ls (rw e at h))
        | inr e ↦ with_layer-layers layer r ls (rw e at h)
      ]

  pub layers_loop-IsPlaced :
      (fuel : ℕ) (remaining completed : List ℕ) (ls : List (List ℕ))
      → layers_loop deps fuel remaining completed ≡ layers ls
      → (n : ℕ) → contains n remaining ≡ true
      → IsPlaced deps n completed ls
  unfolding layers_loop
  layers_loop-IsPlaced fuel [] completed ls h n m = cc
  layers_loop-IsPlaced zero (x ∷ xs) completed ls h n m = cc
  layers_loop-IsPlaced (suc fuel) (x ∷ xs) completed ls h n m =
      let layer = ready_layer deps (x ∷ xs) completed in
      let (rest, e, split) = layers_loop-step fuel x xs completed ls h in
      let ih =
        layers_loop-IsPlaced fuel (without deps layer (x ∷ xs)) (completed ++ layer) rest e n in
      let found = ready_layer-contains n (x ∷ xs) completed in
      rw split (elim (Bool-cases (contains n layer)) [
        | inl now ↦ inl (now, ground (arith, found))
        | inr later ↦
            inr (ih (ground (arith, contains-keep (λ k. not (contains k layer)) n (x ∷ xs))))
      ])
