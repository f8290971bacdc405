-- ===== src/Plan/Kahn/Degrees.antt =====
-- What one turn of `validate_plan_graph`'s loop does to the in-degrees and the queue, counted.
use grand_line.Common.{
  ℕ, ◌+◌, ◌-◌, ◌≡◌, refl, true, false, not, ◌&&◌, List, [], ◌∷◌, ◌++◌, ◌==◌, leb, if◌then◌else◌,
  arith, contains, occurrences, occurrences-append,
}
use grand_line.Plan.Spec.{adjacent, in_degree, relax, update}

-- The edges into `u` whose source is not yet done.
abbrev pub pending : List (ℕ × ℕ) → List ℕ → ℕ → ℕ
pending [] done u = 0
pending ((d, n) ∷ es) done u =
    (if (n == u) && not (contains d done) then 1 else 0) + pending es done u

-- Whether the in-degree of a node reaches 0 when it falls by the given number.
abbrev pub fires : ℕ → ℕ → ℕ
fires degree falls = if leb 1 degree && leb degree falls then 1 else 0

pub relax-degree :
    (ns : List ℕ) (degree : ℕ → ℕ) (queue : List ℕ) (u : ℕ)
    → (relax ns degree queue).0 u ≡ degree u - occurrences u ns
unfolding relax
relax-degree [] degree queue u = omega arith
relax-degree (n ∷ ns) degree queue u = ground (
  arith,
  relax-degree ns (update degree n (degree n - 1))
      (if degree n == 1 then queue ++ n ∷ [] else queue) u,
)

pub relax-queue :
    (ns : List ℕ) (degree : ℕ → ℕ) (queue : List ℕ) (u : ℕ)
    → occurrences u (relax ns degree queue).1
      ≡ occurrences u queue + fires (degree u) (occurrences u ns)
unfolding relax
relax-queue [] degree queue u = ground arith
relax-queue (n ∷ ns) degree queue u = ground (
  arith,
  relax-queue ns (update degree n (degree n - 1)) (if degree n == 1 then queue ++ n ∷ [] else queue)
      u,
  occurrences-append u queue (n ∷ []),
)

pub pending-in_degree : (es : List (ℕ × ℕ)) (u : ℕ) → in_degree es u ≡ pending es [] u
unfolding in_degree
pending-in_degree [] u = refl
pending-in_degree ((d, n) ∷ es) u = ground (arith, pending-in_degree es u)

-- A node that is done takes its edges off the count.
pub pending-done :
    (es : List (ℕ × ℕ)) (done : List ℕ) (v u : ℕ)
    → contains v done ≡ false
    → pending es done u ≡ pending es (v ∷ done) u + occurrences u (adjacent es v)
unfolding adjacent
pending-done [] done v u h = omega arith
pending-done ((d, n) ∷ es) done v u h = ground (arith, pending-done es done v u h)

-- Where nothing is pending each edge starts at a node that is done, and conversely.
pub pending-zero :
    (es : List (ℕ × ℕ)) (done : List ℕ) (n d : ℕ)
    → pending es done n ≡ 0
    → contains n (adjacent es d) ≡ true
    → contains d done ≡ true
unfolding adjacent
pending-zero [] done n d h m = cc
pending-zero ((c, k) ∷ es) done n d h m = ground (arith, pending-zero es done n d)

pub pending-none :
    (es : List (ℕ × ℕ)) (done : List ℕ) (n : ℕ)
    → ((d : ℕ) → contains n (adjacent es d) ≡ true → contains d done ≡ true)
    → pending es done n ≡ 0
unfolding adjacent
pending-none [] done n h = refl
pending-none ((c, k) ∷ es) done n h =
    let ih = pending-none es done n (λ d m. h d (ground arith)) in ground (arith, h c)
