-- ===== src/Plan/Kahn/Loop.antt =====
-- The loop of `validate_plan_graph` of schemas/captain.py with a ghost list: the nodes taken so far, the
-- last in front.
use grand_line.Common.{
  ℕ, zero, suc, ◌+◌, ◌≤◌, ◌≡◌, refl, ap, ◌∙◌, false, some, List, [], ◌∷◌, ◌==◌, if◌then◌else◌,
  arith, contains, occurrences, contains-occurrences, length, length-occurrences_le,
}
use grand_line.Plan.Spec.{adjacent, relax, kahn_loop}
use grand_line.Plan.Kahn.Degrees.{pending, relax-degree, relax-queue, pending-done}

-- Each node was taken once, when nothing it depends on was pending.
abbrev pub IsOrdered : List (ℕ × ℕ) → List ℕ → Type 0
IsOrdered es [] = Unit
IsOrdered es (v ∷ done) = (contains v done ≡ false) × (pending es done v ≡ 0) × IsOrdered es done

-- The edges lead to nodes of a list without duplicates.
abbrev pub IsGraph : List (ℕ × ℕ) → List ℕ → Type 0
IsGraph es nodes =
    ((u : ℕ) → occurrences u nodes ≤ 1)
    × ((u v : ℕ) → occurrences u nodes ≡ 0 → occurrences u (adjacent es v) ≡ 0)

-- Done or queued are exactly the nodes for which nothing is pending.
abbrev pub IsSettled : List (ℕ × ℕ) → List ℕ → List ℕ → List ℕ → Type 0
IsSettled es nodes done queue =
    (u : ℕ)
    → occurrences u done + occurrences u queue
      ≡ (if pending es done u == 0 then occurrences u nodes else 0)

module _ (es : List (ℕ × ℕ)) (nodes : List ℕ) (graph : IsGraph es nodes) where
  -- The head of the queue was not taken before, and nothing is pending for it.
  head_settled :
      (done queue : List ℕ) (v : ℕ)
      → IsSettled es nodes done (v ∷ queue)
      → (contains v done ≡ false) × (pending es done v ≡ 0)
  head_settled done queue v h =
      (ground (arith, h v, graph.0 v, contains-occurrences v done), ground (arith, h v))

  IsSettled-step :
      (done queue : List ℕ) (v : ℕ) (degree : ℕ → ℕ)
      → ((u : ℕ) → degree u ≡ pending es done u)
      → IsSettled es nodes done (v ∷ queue)
      → IsSettled es nodes (v ∷ done) (relax (adjacent es v) degree queue).1
  IsSettled-step done queue v degree deg h u =
      let fresh = (head_settled done queue v h).0 in
      ground (
        arith,
        relax-queue (adjacent es v) degree queue u,
        pending-done es done v u fresh,
        deg u,
        h u,
        graph.0 u,
        graph.1 u v,
      )

  done_bounded : (done queue : List ℕ) → IsSettled es nodes done queue → length done ≤ length nodes
  done_bounded done queue h = length-occurrences_le done nodes (λ u. ground (arith, h u))

  -- The loop from any settled state, with fuel for the nodes that are not done.
  pub kahn_loop-ends :
      (fuel : ℕ) (done queue : List ℕ) (degree : ℕ → ℕ)
      → length nodes ≤ fuel + length done
      → ((u : ℕ) → degree u ≡ pending es done u)
      → IsOrdered es done
      → IsSettled es nodes done queue
      → (final : List ℕ) × (kahn_loop (adjacent es) fuel degree queue (length done)
          ≡ some (length final))
        × IsOrdered es final
        × IsSettled es nodes final []
  unfolding kahn_loop
  kahn_loop-ends fuel done [] degree enough deg ordered settled = (done, refl, ordered, settled)
  kahn_loop-ends zero done (v ∷ queue) degree enough deg ordered settled =
      let (fresh, none_pending) = head_settled done queue v settled in
      let next = IsSettled-step done queue v degree deg settled in
      absurd (omega (arith, done_bounded (v ∷ done) (relax (adjacent es v) degree queue).1 next))
  kahn_loop-ends (suc fuel) done (v ∷ queue) degree enough deg ordered settled =
      let (fresh, none_pending) = head_settled done queue v settled in
      let (degree', queue') = relax (adjacent es v) degree queue in
      let (final, e, ordered', settled') =
        kahn_loop-ends fuel (v ∷ done) queue' degree' (omega arith)
          (λ u. ground (
            arith,
            relax-degree (adjacent es v) degree queue u,
            pending-done es done v u fresh,
            deg u,
          ))
          (fresh, none_pending, ordered) (IsSettled-step done queue v degree deg settled) in
      (
        final,
        ap (λ k. kahn_loop (adjacent es) fuel degree' queue' k) (omega arith) ∙ e,
        ordered',
        settled',
      )
