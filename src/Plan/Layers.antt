-- ===== src/Plan/Layers.antt =====
-- `topological_layers` of crew/pipeline_graph.py. A dictionary from phase numbers to dependencies
-- is its keys, in order, and a function that looks a key up.
use grand_line.Common.{
  ℕ, zero, suc, Bool, true, false, not, List, [], ◌∷◌, ◌++◌, map, ◌==◌, if◌then◌else◌, length, keep,
  all_by, contains, sorted,
}
use grand_line.Model.Voyage.{PhaseSpec}

-- `{p["phase_number"]: ... for p in phases}`: a later phase of the same number wins.
unfoldable pub deps_of : List PhaseSpec → ℕ → List ℕ
deps_of [] n = []
deps_of (p ∷ ps) n =
    if contains n (map (λ (q : PhaseSpec). q.phase_number) ps)
    then deps_of ps n
    else if p.phase_number == n
    then p.depends_on
    else []

-- The keys of that dictionary: each number once.
unfoldable pub phase_keys : List PhaseSpec → List ℕ
phase_keys [] = []
phase_keys (p ∷ ps) = p.phase_number ∷ keep (λ n. not (n == p.phase_number)) (phase_keys ps)

abbrev pub is_empty : List ℕ → Bool
is_empty [] = true
is_empty (_ ∷ _) = false

pub data LayerResult : Type 0 where
  layers : List (List ℕ) → LayerResult
  invalid_dep_graph : List ℕ → LayerResult
  out_of_fuel : LayerResult

abbrev pub with_layer : List ℕ → LayerResult → LayerResult
with_layer l (layers ls) = layers (l ∷ ls)
with_layer l (invalid_dep_graph r) = invalid_dep_graph r
with_layer l out_of_fuel = out_of_fuel

module _ (deps : ℕ → List ℕ) where
  -- `all(d in completed for d in deps)`
  abbrev pub is_ready : List ℕ → ℕ → Bool
  is_ready completed n = all_by (λ d. contains d completed) (deps n)

  abbrev pub ready_layer : List ℕ → List ℕ → List ℕ
  ready_layer remaining completed = sorted (keep (is_ready completed) remaining)

  abbrev pub without : List ℕ → List ℕ → List ℕ
  without layer remaining = keep (λ n. not (contains n layer)) remaining

  -- `while remaining`, one unit of fuel for each round; a layer that is empty raises.
  unfoldable pub layers_loop : ℕ → List ℕ → List ℕ → LayerResult
  layers_loop fuel [] completed = layers []
  layers_loop zero (n ∷ ns) completed = out_of_fuel
  layers_loop (suc fuel) (n ∷ ns) completed =
      let layer = ready_layer (n ∷ ns) completed in
      let rest = layers_loop fuel (without layer (n ∷ ns)) (completed ++ layer) in
      if is_empty layer then invalid_dep_graph (sorted (n ∷ ns)) else with_layer layer rest

unfoldable pub topological_layers : List PhaseSpec → LayerResult
unfolding layers_loop deps_of phase_keys
topological_layers phases =
    layers_loop (deps_of phases) (length (phase_keys phases)) (phase_keys phases) []
