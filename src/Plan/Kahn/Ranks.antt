-- ===== src/Plan/Kahn/Ranks.antt =====
-- The order in which `validate_plan_graph` takes the nodes against ranks along the edges.
use grand_line.Common.{
  ℕ, zero, suc, ◌≤◌, ◌<◌, ◌≡◌, true, List, [], ◌∷◌, ◌==◌, if◌then◌else◌, arith, contains,
  occurrences, contains-occurrences, length, length-occurrences_le, occurrences_same, inl, inr,
  Bool-cases,
}
use grand_line.Plan.Spec.{adjacent}
use grand_line.Plan.Kahn.Degrees.{pending-zero, pending-none}
use grand_line.Plan.Kahn.Loop.{IsOrdered, IsGraph, IsSettled}

-- The turn in which a node was taken.
abbrev pub turn : List ℕ → ℕ → ℕ
turn [] u = 0
turn (v ∷ done) u = if v == u then suc (length done) else turn done u

turn_le : (done : List ℕ) (u : ℕ) → turn done u ≤ length done
turn_le [] u = omega arith
turn_le (v ∷ done) u = ground (arith, turn_le done u)

-- The rank descends along each edge.
abbrev pub IsDescending : List (ℕ × ℕ) → (ℕ → ℕ) → Type 0
IsDescending es rank = (n d : ℕ) → contains n (adjacent es d) ≡ true → rank d < rank n

-- An edge into a node that was taken starts at one that was taken before.
turn_lt :
    (es : List (ℕ × ℕ)) (done : List ℕ) (n d : ℕ)
    → IsOrdered es done
    → contains n done ≡ true
    → contains n (adjacent es d) ≡ true
    → (contains d done ≡ true) × (turn done d < turn done n)
turn_lt es [] n d ordered taken edge = absurd (cc)
turn_lt es (v ∷ done) n d (fresh, none_pending, ordered) taken edge = elim (Bool-cases (v == n)) [
  | inl e ↦
      let earlier = pending-zero es done n d (ground arith) edge in
      ground (arith, earlier, turn_le done d)
  | inr e ↦ let earlier = turn_lt es done n d ordered (ground arith) edge in ground (arith, earlier)
]

module _ (es : List (ℕ × ℕ)) (nodes : List ℕ) (graph : IsGraph es nodes) where
  settled_le :
      (done : List ℕ)
      → IsSettled es nodes done []
      → (u : ℕ) → occurrences u done ≤ occurrences u nodes
  settled_le done settled u = ground (arith, settled u)

  -- All nodes taken: the turns are a rank.
  pub turn-IsDescending :
      (done : List ℕ)
      → IsOrdered es done
      → IsSettled es nodes done []
      → length done ≡ length nodes
      → IsDescending es (turn done)
  turn-IsDescending done ordered settled all n d edge =
      let same = occurrences_same done nodes (settled_le done settled) (omega arith) n in
      let taken = contains-occurrences n done in
      (turn_lt es done n d ordered
        (ground (arith, graph.1 n d, contains-occurrences n (adjacent es d))) edge).1

  -- By induction on the rank each node is taken.
  descending_taken :
      (rank : ℕ → ℕ) (done : List ℕ)
      → IsDescending es rank
      → ((n d : ℕ) → contains n (adjacent es d) ≡ true → contains d nodes ≡ true)
      → IsSettled es nodes done []
      → (bound u : ℕ) → rank u < bound
      → contains u nodes ≡ true
      → contains u done ≡ true
  descending_taken rank done descends inside settled zero u low m = absurd (omega arith)
  descending_taken rank done descends inside settled (suc bound) u low m =
      let earlier = pending-none es done u (λ d edge.
        descending_taken rank done descends inside settled bound d
          (omega (arith, descends u d edge)) (inside u d edge)) in
      ground (arith, settled u, contains-occurrences u done, contains-occurrences u nodes)

  -- A rank: all nodes are taken.
  pub descending_all :
      (rank : ℕ → ℕ) (done : List ℕ)
      → IsDescending es rank
      → ((n d : ℕ) → contains n (adjacent es d) ≡ true → contains d nodes ≡ true)
      → IsSettled es nodes done []
      → length done ≡ length nodes
  descending_all rank done descends inside settled =
      let below = length-occurrences_le nodes done (λ u. ground (
        arith,
        descending_taken rank done descends inside settled (suc (rank u)) u (omega arith),
        contains-occurrences u done,
        contains-occurrences u nodes,
        graph.0 u,
      )) in
      omega (arith, length-occurrences_le done nodes (settled_le done settled))
