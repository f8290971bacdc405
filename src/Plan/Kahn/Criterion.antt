-- ===== src/Plan/Kahn/Criterion.antt =====
-- `validate_plan_graph` against the conditions that its error messages name, and the plans that it
-- accepts as the input of `topological_layers`.
use grand_line.Common.{
  All, ℕ, ◌≤◌, ◌<◌, ◌≡◌, ◌≢◌, ◌↔◌, ◌∙◌, refl, Bool, true, false, not, ◌&&◌, some, List, [], ◌∷◌,
  ◌==◌, ==_refl, leb, if◌then◌else◌, arith, all_by, keep, length, contains, all_by-contains,
  all_by-intro, occurrences, occurrences-keep, contains-occurrences, inl, inr, Bool-cases,
}
use grand_line.Model.Voyage.{PhaseSpec}
use grand_line.Plan.Layers.{layers, phase_keys, topological_layers}
use grand_line.Plan.Progress.{topological_layers_total}
use grand_line.Plan.Spec.{
  field_invalid, duplicate_phase, missing_dependency, circular, out_of_fuel, SpecResult, valid,
  invalid, numbers, fields_ok, deps_exist, edges, adjacent, in_degree, count_visited, check_visited,
  validate_plan_graph,
}
use grand_line.Plan.Kahn.Degrees.{pending-in_degree}
use grand_line.Plan.Kahn.Loop.{IsOrdered, IsGraph, IsSettled, kahn_loop-ends}
use grand_line.Plan.Kahn.Ranks.{turn, turn-IsDescending, descending_all}
use grand_line.Plan.Kahn.Edges.{
  occurrences-phase_keys, length-phase_keys_iff, All-edges, edges-All, edge_target, deps_of-edges,
}

-- A plan as the messages describe it: fields in range, each number once, dependencies that exist,
-- and a rank along which each phase stands above its dependencies.
abbrev pub IsPlan : List PhaseSpec → Type 0
IsPlan phases =
    (leb 1 (length phases) ≡ true)
    × (all_by fields_ok phases ≡ true)
    × ((u : ℕ) → occurrences u (numbers phases) ≤ 1)
    × All
        (λ (p : PhaseSpec).
          (d : ℕ) → contains d p.depends_on ≡ true → contains d (numbers phases) ≡ true)
        phases
    × (rank : ℕ → ℕ) × All
        (λ (p : PhaseSpec). (d : ℕ) → contains d p.depends_on ≡ true → rank d < rank p.phase_number)
        phases

graph : (phases : List PhaseSpec) → IsGraph (edges phases) (phase_keys phases)
graph phases = (
  λ u. ground (arith, occurrences-phase_keys u phases),
  λ u v e. ground (
    arith,
    edge_target phases u v,
    contains-occurrences u (phase_keys phases),
    contains-occurrences u (adjacent (edges phases) v),
  ),
)

-- The loop of the validator ends, with the nodes that it counts.
pub count_visited-ends :
    (phases : List PhaseSpec)
    → (final : List ℕ) × (count_visited phases ≡ some (length final))
      × IsOrdered (edges phases) final
      × IsSettled (edges phases) (phase_keys phases) final []
unfolding count_visited
count_visited-ends phases =
    let es = edges phases in
    kahn_loop-ends es (phase_keys phases) (graph phases) (length (phase_keys phases)) []
      (keep (λ n. in_degree es n == 0) (phase_keys phases)) (in_degree es) (omega arith)
      (pending-in_degree es) tt
      (λ u. ground (
        arith,
        occurrences-keep (λ n. in_degree es n == 0) u (phase_keys phases),
        pending-in_degree es u,
      ))

contains-phase_keys :
    (phases : List PhaseSpec) (d : ℕ) → contains d (phase_keys phases) ≡ contains d (numbers phases)
contains-phase_keys phases d = ground (
  arith,
  occurrences-phase_keys d phases,
  contains-occurrences d (phase_keys phases),
  contains-occurrences d (numbers phases),
)

deps_exist_iff :
    (phases ps : List PhaseSpec)
    → (deps_exist (phase_keys phases) ps ≡ true)
      ↔ All
          (λ (p : PhaseSpec).
            (d : ℕ) → contains d p.depends_on ≡ true → contains d (numbers phases) ≡ true)
          ps
unfolding deps_exist
deps_exist_iff phases [] = (λ _. tt, λ _. refl)
deps_exist_iff phases (p ∷ ps) =
    let test = λ (d : ℕ). contains d (phase_keys phases) in
    let same = contains-phase_keys phases in
    let (into, back) = deps_exist_iff phases ps in
    (
      λ e. (
        λ d m. ground (arith, same d, all_by-contains test p.depends_on d (ground arith) m),
        into (ground arith),
      ),
      λ (first, rest).
          ground (arith, all_by-intro test p.depends_on (λ d m. same d ∙ first d m), back rest),
    )

-- The three guards of the validator, and what is behind them.
guards :
    (a b c : Bool) (r : SpecResult)
    → (if not a
        then invalid field_invalid
        else if not b
        then invalid duplicate_phase
        else if not c
        then invalid missing_dependency
        else r)
      ≡ valid
    → (a ≡ true) × (b ≡ true) × (c ≡ true) × (r ≡ valid)
guards true true true r h = (refl, refl, refl, h)
guards true true false r h = cc
guards true false c r h = cc
guards false b c r h = cc

visited_all : (n size : ℕ) → check_visited (some n) size ≡ valid → n ≡ size
visited_all n size h = elim (Bool-cases (n == size)) [
  | inl e ↦ ground arith
  | inr e ↦ let clash : invalid circular ≡ valid = rw e at h in absurd (cc)
]

-- The validator accepts exactly the plans: what it accepts has fields in range, each number once,
-- dependencies that exist and no cycle, and it refuses nothing else.
pub validate_plan_graph_iff :
    (phases : List PhaseSpec) → (validate_plan_graph phases ≡ valid) ↔ IsPlan phases
unfolding validate_plan_graph
validate_plan_graph_iff phases =
    let es = edges phases in
    let keys = phase_keys phases in
    let (final, e, ordered, settled) = count_visited-ends phases in
    (
      λ h.
          let (a, b, c, r) =
            guards (leb 1 (length phases) && all_by fields_ok phases)
              (length (numbers phases) == length keys) (deps_exist keys phases)
              (check_visited (count_visited phases) (length keys)) h in
          let all = visited_all (length final) (length keys) (rw e at r) in
          let descends = turn-IsDescending es keys (graph phases) final ordered settled all in
          (
            ground arith,
            ground arith,
            (length-phase_keys_iff phases).0 (ground arith),
            (deps_exist_iff phases phases).0 c,
            turn final,
            edges-All (λ n d. turn final d < turn final n) phases descends,
          ),
      λ (nonempty, fields, once, exist, rank, descends).
          let all =
            descending_all es keys (graph phases) rank final
              (All-edges (λ n d. rank d < rank n) phases descends)
              (λ n d edge.
                contains-phase_keys phases d
                ∙ All-edges (λ _ d. contains d (numbers phases) ≡ true) phases exist n d edge)
              settled in
          rw
            (
              nonempty,
              fields,
              (deps_exist_iff phases phases).1 exist,
              (length-phase_keys_iff phases).1 once,
              ==_refl (length keys),
              e,
              all,
              ==_refl (length keys),
            )
            refl,
    )

-- A plan that the validator accepts is layered: `topological_layers` does not refuse it.
pub validated_layers :
    (phases : List PhaseSpec)
    → validate_plan_graph phases ≡ valid
    → (ls : List (List ℕ)) × (topological_layers phases ≡ layers ls)
validated_layers phases h =
    let (nonempty, fields, once, exist, rank, descends) = (validate_plan_graph_iff phases).0 h in
    topological_layers_total phases rank (λ n d m k.
      let edge = deps_of-edges phases n d k in
      ground (
        arith,
        contains-phase_keys phases d
            ∙ All-edges (λ _ d. contains d (numbers phases) ≡ true) phases exist n d edge,
        All-edges (λ n d. rank d < rank n) phases descends n d edge,
      ))

not_fuel :
    (a b c : Bool) (r : SpecResult)
    → r ≢ invalid out_of_fuel
    → (if not a
        then invalid field_invalid
        else if not b
        then invalid duplicate_phase
        else if not c
        then invalid missing_dependency
        else r)
      ≢ invalid out_of_fuel
not_fuel true true true r h = h
not_fuel true true false r h = λ e. cc
not_fuel true false c r h = λ e. cc
not_fuel false b c r h = λ e. cc

ends : (n size : ℕ) → check_visited (some n) size ≢ invalid out_of_fuel
ends n size h = elim (Bool-cases (n == size)) [
  | inl e ↦ let clash : valid ≡ invalid out_of_fuel = rw e at h in absurd (cc)
  | inr e ↦ let clash : invalid circular ≡ invalid out_of_fuel = rw e at h in absurd (cc)
]

-- On every plan the queue of the validator runs empty, with one turn at most for each phase.
pub validate_plan_graph-ne-out_of_fuel :
    (phases : List PhaseSpec) → validate_plan_graph phases ≢ invalid out_of_fuel
unfolding validate_plan_graph
validate_plan_graph-ne-out_of_fuel phases h =
    let keys = phase_keys phases in
    let (final, e, _, _) = count_visited-ends phases in
    not_fuel (leb 1 (length phases) && all_by fields_ok phases)
      (length (numbers phases) == length keys) (deps_exist keys phases)
      (check_visited (count_visited phases) (length keys))
      (rw e (ends (length final) (length keys))) h
