-- ===== src/Plan/Spec.antt =====
-- `VoyagePlanSpec` of schemas/captain.py: the constraints on its fields and `validate_plan_graph`,
-- whose last part is Kahn's algorithm on a queue.
use Prim.Native.String.{count}
use grand_line.Common.{
  ℕ, zero, suc, ◌+◌, ◌-◌, Bool, not, ◌&&◌, Option, none, some, List, [], ◌∷◌, ◌++◌, map, ◌==◌, leb,
  if◌then◌else◌, length, keep, all_by, contains,
}
use grand_line.Model.Voyage.{PhaseSpec}
use grand_line.Plan.Layers.{phase_keys}

pub data SpecError : Type 0 where
  field_invalid duplicate_phase missing_dependency circular out_of_fuel : SpecError

pub data SpecResult : Type 0 where
  valid : SpecResult
  invalid : SpecError → SpecResult

abbrev pub numbers : List PhaseSpec → List ℕ
numbers phases = map (λ (p : PhaseSpec). p.phase_number) phases

-- `phase_number >= 1`, and a name of 1 to 200 characters.
unfoldable pub fields_ok : PhaseSpec → Bool
fields_ok p = leb 1 p.phase_number && leb 1 (count p.name) && leb (count p.name) 200

-- Every `depends_on` names a phase of the plan.
unfoldable pub deps_exist : List ℕ → List PhaseSpec → Bool
deps_exist phase_set phases =
    all_by (λ (p : PhaseSpec). all_by (λ d. contains d phase_set) p.depends_on) phases

-- A write to a dictionary that is read at its keys only.
abbrev pub update {ℓ} : {A : Type ℓ} → (ℕ → A) → ℕ → A → ℕ → A
update f k v j = if k == j then v else f j

-- The edges in the order in which the source adds them: from a dependency to its dependent.
unfoldable pub edges_to : ℕ → List ℕ → List (ℕ × ℕ)
edges_to n [] = []
edges_to n (d ∷ ds) = (d, n) ∷ edges_to n ds

unfoldable pub edges : List PhaseSpec → List (ℕ × ℕ)
unfolding edges_to
edges [] = []
edges (p ∷ ps) = edges_to p.phase_number p.depends_on ++ edges ps

-- `adj[dep].append(n)` and `in_degree[n] += 1` for each edge, from dictionaries of [] and 0.
unfoldable pub adjacent : List (ℕ × ℕ) → ℕ → List ℕ
adjacent [] v = []
adjacent ((d, n) ∷ es) v = if d == v then n ∷ adjacent es v else adjacent es v

unfoldable pub in_degree : List (ℕ × ℕ) → ℕ → ℕ
in_degree [] v = 0
in_degree ((d, n) ∷ es) v = if n == v then suc (in_degree es v) else in_degree es v

-- `for neighbor in adj[node]`: an integer that falls from 1 reaches 0, and one that is 0 or less
-- never does, so the truncated `-` decides the same test.
unfoldable pub relax : List ℕ → (ℕ → ℕ) → List ℕ → (ℕ → ℕ) × List ℕ
relax [] degree queue = (degree, queue)
relax (n ∷ ns) degree queue =
    relax ns (update degree n (degree n - 1)) (if degree n == 1 then queue ++ n ∷ [] else queue)

-- `while queue`, one unit of fuel for each node that is taken from the queue.
unfoldable pub kahn_loop : (ℕ → List ℕ) → ℕ → (ℕ → ℕ) → List ℕ → ℕ → Option ℕ
unfolding relax
kahn_loop adj fuel degree [] visited = some visited
kahn_loop adj zero degree (v ∷ queue) visited = none
kahn_loop adj (suc fuel) degree (v ∷ queue) visited =
    let (degree', queue') = relax (adj v) degree queue in
    kahn_loop adj fuel degree' queue' (visited + 1)

unfoldable pub count_visited : List PhaseSpec → Option ℕ
unfolding kahn_loop adjacent in_degree edges phase_keys
count_visited phases =
    let es = edges phases in
    let phase_set = phase_keys phases in
    kahn_loop (adjacent es) (length phase_set) (in_degree es)
      (keep (λ n. in_degree es n == 0) phase_set) 0

abbrev pub check_visited : Option ℕ → ℕ → SpecResult
check_visited none size = invalid out_of_fuel
check_visited (some visited) size = if visited == size then valid else invalid circular

-- `VoyagePlanSpec.model_validate`: the fields first, then `validate_plan_graph`.
unfoldable pub validate_plan_graph : List PhaseSpec → SpecResult
unfolding count_visited fields_ok deps_exist
validate_plan_graph phases =
    if not (leb 1 (length phases) && all_by fields_ok phases)
    then invalid field_invalid
    else if not (length (numbers phases) == length (phase_keys phases))
    then invalid duplicate_phase
    else if not (deps_exist (phase_keys phases) phases)
    then invalid missing_dependency
    else check_visited (count_visited phases) (length (phase_keys phases))
