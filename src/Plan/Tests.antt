-- ===== src/Plan/Tests.antt =====
-- Concrete plans: layers, validation, and the theorems at them.
use grand_line.Common.{All, ℕ, ◌≡◌, ◌≢◌, ◌↔◌, refl, List, [], ◌∷◌, length, arith}
use grand_line.Model.Samples.{phase, three_phases}
use grand_line.Plan.Layers.{layers, invalid_dep_graph, deps_of, phase_keys, topological_layers}
use grand_line.Plan.Spec.{
  valid, invalid, circular, duplicate_phase, missing_dependency, validate_plan_graph,
}
use grand_line.Plan.Spec.{fields_ok, SpecError}
use grand_line.Plan.Kahn.Criterion.{
  IsPlan, validate_plan_graph_iff, validated_layers, validate_plan_graph-ne-out_of_fuel,
}
use grand_line.Plan.Placement.{IsPlaced, total}
use grand_line.Plan.Progress.{topological_layers-IsPlaced}

three_layers : topological_layers three_phases ≡ layers ((1 ∷ []) ∷ (2 ∷ []) ∷ (3 ∷ []) ∷ [])
unfolding topological_layers
three_layers = refl

cycle_refused :
    topological_layers (phase 1 (2 ∷ []) ∷ phase 2 (1 ∷ []) ∷ []) ≡ invalid_dep_graph (1 ∷ 2 ∷ [])
unfolding topological_layers
cycle_refused = refl

plans_validated :
    (validate_plan_graph three_phases ≡ valid)
    × (validate_plan_graph (phase 1 (2 ∷ []) ∷ phase 2 (1 ∷ []) ∷ []) ≡ invalid circular)
    × (validate_plan_graph (phase 1 [] ∷ phase 1 [] ∷ []) ≡ invalid duplicate_phase)
    × (validate_plan_graph (phase 1 (4 ∷ []) ∷ []) ≡ invalid missing_dependency)
unfolding validate_plan_graph
plans_validated = (refl, refl, refl, refl)

topological_layers-IsPlaced_example :
    All
      (λ n. IsPlaced (deps_of three_phases) n [] ((1 ∷ []) ∷ (2 ∷ []) ∷ (3 ∷ []) ∷ []))
      (phase_keys three_phases)
    × (total ((1 ∷ []) ∷ (2 ∷ []) ∷ (3 ∷ []) ∷ []) ≡ length (phase_keys three_phases))
topological_layers-IsPlaced_example =
    topological_layers-IsPlaced three_phases ((1 ∷ []) ∷ (2 ∷ []) ∷ (3 ∷ []) ∷ []) three_layers

three_phases-IsPlan : IsPlan three_phases
three_phases-IsPlan = (
  refl,
  unfold fields_ok in refl,
  λ u. ground arith,
  (λ d m. ground arith, (λ d m. ground arith, (λ d m. ground arith, tt))),
  λ n. n,
  (λ d m. ground arith, (λ d m. ground arith, (λ d m. ground arith, tt))),
)

validate_plan_graph_iff_example : (validate_plan_graph three_phases ≡ valid) ↔ IsPlan three_phases
validate_plan_graph_iff_example = validate_plan_graph_iff three_phases

three_phases_valid : validate_plan_graph three_phases ≡ valid
three_phases_valid = plans_validated.0

validated_layers_example : (ls : List (List ℕ)) × (topological_layers three_phases ≡ layers ls)
validated_layers_example = validated_layers three_phases three_phases_valid

validate_plan_graph-ne-out_of_fuel_example :
    validate_plan_graph (phase 1 (2 ∷ []) ∷ phase 2 (1 ∷ []) ∷ []) ≢ invalid SpecError.out_of_fuel
validate_plan_graph-ne-out_of_fuel_example =
    validate_plan_graph-ne-out_of_fuel (phase 1 (2 ∷ []) ∷ phase 2 (1 ∷ []) ∷ [])
