-- ===== src/Plan/Kahn/Edges.antt =====
-- The edges that `validate_plan_graph` collects against the phases they come from.
use mathlib.Core.Path.{subst}
use grand_line.Common.{
  All, ℕ, ◌≤◌, ◌≡◌, refl, true, not, ◌&&◌, ◌||◌, List, [], ◌∷◌, ◌++◌, ◌==◌, ◌↔◌, leb, if◌then◌else◌,
  arith, length, contains, occurrences, occurrences-keep, contains-occurrences, occurrences_same,
  length-occurrences_le, inl, inr, Bool-cases,
}
use grand_line.Model.Voyage.{PhaseSpec}
use grand_line.Plan.Layers.{deps_of, phase_keys}
use grand_line.Plan.Spec.{numbers, edges_to, edges, adjacent}

contains-adjacent-append :
    (n d : ℕ) (xs ys : List (ℕ × ℕ))
    → contains n (adjacent (xs ++ ys) d)
      ≡ (contains n (adjacent xs d) || contains n (adjacent ys d))
unfolding adjacent
contains-adjacent-append n d [] ys = refl
contains-adjacent-append n d ((c, k) ∷ xs) ys = ground (arith, contains-adjacent-append n d xs ys)

contains-edges_to :
    (n d m : ℕ) (ds : List ℕ)
    → contains n (adjacent (edges_to m ds) d) ≡ ((m == n) && contains d ds)
unfolding adjacent edges_to
contains-edges_to n d m [] = ground arith
contains-edges_to n d m (c ∷ ds) = ground (arith, contains-edges_to n d m ds)

-- The edges of one phase and of those behind it.
pub contains-edges :
    (n d : ℕ) (p : PhaseSpec) (ps : List PhaseSpec)
    → contains n (adjacent (edges (p ∷ ps)) d)
      ≡ (((p.phase_number == n) && contains d p.depends_on) || contains n (adjacent (edges ps) d))
unfolding edges
contains-edges n d p ps = ground (
  arith,
  contains-adjacent-append n d (edges_to p.phase_number p.depends_on) (edges ps),
  contains-edges_to n d p.phase_number p.depends_on,
)

-- The set of the phase numbers counts each number once.
pub occurrences-phase_keys :
    (u : ℕ) (ps : List PhaseSpec)
    → occurrences u (phase_keys ps) ≡ (if leb 1 (occurrences u (numbers ps)) then 1 else 0)
unfolding phase_keys
occurrences-phase_keys u [] = ground arith
occurrences-phase_keys u (p ∷ ps) = ground (
  arith,
  occurrences-phase_keys u ps,
  occurrences-keep (λ n. not (n == p.phase_number)) u (phase_keys ps),
)

-- `len(phase_nums) != len(phase_set)` finds exactly the repeated numbers.
pub length-phase_keys_iff :
    (ps : List PhaseSpec)
    → (length (numbers ps) ≡ length (phase_keys ps)) ↔ ((u : ℕ) → occurrences u (numbers ps) ≤ 1)
length-phase_keys_iff ps = (
  λ e u. ground (
    arith,
    occurrences-phase_keys u ps,
    occurrences_same (phase_keys ps) (numbers ps) (λ w. ground (arith, occurrences-phase_keys w ps))
        (omega arith) u,
  ),
  λ h.
      let up =
        length-occurrences_le (numbers ps) (phase_keys ps)
          (λ w. ground (arith, h w, occurrences-phase_keys w ps)) in
      let down =
        length-occurrences_le (phase_keys ps) (numbers ps)
          (λ w. ground (arith, h w, occurrences-phase_keys w ps)) in
      omega arith,
)

-- What holds of each phase and each of its dependencies holds of each edge, and conversely.
module _ (Q : ℕ → ℕ → Type 0) where
  pub All-edges :
      (ps : List PhaseSpec)
      → All (λ (p : PhaseSpec). (d : ℕ) → contains d p.depends_on ≡ true → Q p.phase_number d) ps
      → (n d : ℕ) → contains n (adjacent (edges ps) d) ≡ true
      → Q n d
  unfolding edges adjacent
  All-edges [] all n d edge = absurd (cc)
  All-edges (p ∷ ps) (first, rest) n d edge =
      elim (Bool-cases ((p.phase_number == n) && contains d p.depends_on)) [
        | inl e ↦
            let same : p.phase_number ≡ n = ground arith in
            subst (λ k. Q k d) same (first d (ground arith))
        | inr e ↦ All-edges ps rest n d (ground (arith, contains-edges n d p ps))
      ]

  pub edges-All :
      (ps : List PhaseSpec)
      → ((n d : ℕ) → contains n (adjacent (edges ps) d) ≡ true → Q n d)
      → All (λ (p : PhaseSpec). (d : ℕ) → contains d p.depends_on ≡ true → Q p.phase_number d) ps
  edges-All [] h = tt
  edges-All (p ∷ ps) h = (
    λ d m. h p.phase_number d (ground (arith, contains-edges p.phase_number d p ps)),
    edges-All ps (λ n d edge. h n d (ground (arith, contains-edges n d p ps))),
  )

-- An edge leads to a phase of the plan.
pub edge_target :
    (ps : List PhaseSpec) (n d : ℕ)
    → contains n (adjacent (edges ps) d) ≡ true
    → contains n (phase_keys ps) ≡ true
edge_target [] n d edge = unfold edges adjacent in absurd (cc)
edge_target (p ∷ ps) n d edge = ground (
  arith,
  contains-edges n d p ps,
  edge_target ps n d,
  contains-occurrences n (phase_keys (p ∷ ps)),
  contains-occurrences n (phase_keys ps),
  occurrences-phase_keys n (p ∷ ps),
  occurrences-phase_keys n ps,
)

-- The dictionary of dependencies holds edges only.
pub deps_of-edges :
    (ps : List PhaseSpec) (n d : ℕ)
    → contains d (deps_of ps n) ≡ true
    → contains n (adjacent (edges ps) d) ≡ true
unfolding deps_of
deps_of-edges [] n d m = cc
deps_of-edges (p ∷ ps) n d m = ground (arith, deps_of-edges ps n d, contains-edges n d p ps)
