-- ===== src/Dial/Router/Streaming.antt =====
-- What the caller of `stream` sees.
use grand_line.Common.{
  ℕ, ◌≡◌, refl, ap, arith, ◌+◌, String, Bool, true, false, Option, some, List, [], ◌∷◌, ◌++◌,
  if◌then◌else◌,
}
use grand_line.Dial.Limiter.{Usage, Limits}
use grand_line.Dial.Router.{
  Adapter, broken, Traffic, Streamed, is_rate_limited, call_switch_hook, publish_switch_event,
  stream_switch, after_tokens, failover_stream, stream,
}

-- The tokens of the adapters up to the first that raises no `ProviderError`.
abbrev pub tokens_of : List Adapter → List String
tokens_of [] = []
tokens_of (a ∷ rest) =
    let later = tokens_of rest in elim a.ending [ broken ↦ a.tokens ++ later | _ ↦ a.tokens ]

module _ (limiter : Option Limits) (clock finish : ℕ → ℕ) (hooked : Bool) where
  -- The adapters that are not rate limited, in order.
  abbrev pub reachable : ℕ → List Usage → List Adapter → List Adapter
  reachable i us [] = []
  reachable i us (a ∷ rest) =
      let others = reachable (i + 1) us rest in
      if is_rate_limited limiter clock finish (λ e. true) hooked i us a then others else a ∷ others

  step-tokens_of :
      (limited : Bool) (a : Adapter) (rest : List Adapter) (t : Traffic) (skipped later : Streamed)
      → skipped.tokens ≡ tokens_of rest
      → later.tokens ≡ tokens_of rest
      → (if limited
          then skipped
          else after_tokens limiter clock finish (λ e. true) hooked a t later).tokens
        ≡ tokens_of (if limited then rest else a ∷ rest)
  step-tokens_of true a rest t skipped later h k = h
  step-tokens_of false a rest t skipped later h k = ground (arith, ap (λ x. a.tokens ++ x) k)

  failover_stream-tokens_of :
      (i : ℕ) (rest : List Adapter) (t : Traffic)
      → (failover_stream limiter clock finish (λ e. true) hooked i rest t).tokens
        ≡ tokens_of (reachable i t.usage rest)
  unfolding failover_stream
  failover_stream-tokens_of i [] t = refl
  failover_stream-tokens_of i (a ∷ rest) t =
      let go = failover_stream limiter clock finish (λ e. true) hooked (i + 1) rest in
      let (r, t') =
        publish_switch_event limiter clock finish (λ e. true) hooked
          (stream_switch limiter clock finish (λ e. true) hooked a) tt
          (call_switch_hook limiter clock finish (λ e. true) hooked a t) in
      step-tokens_of (is_rate_limited limiter clock finish (λ e. true) hooked i t.usage a) a
        (reachable (i + 1) t.usage rest) t' (go t) (go t')
        (failover_stream-tokens_of (i + 1) rest t) (failover_stream-tokens_of (i + 1) rest t')

  -- With a bus that takes every event, the caller sees the tokens of each adapter that is not rate
  -- limited, one after the other, up to the first that raises no `ProviderError`: what an adapter has
  -- yielded before it fails stays in front of the answer of the next.
  pub stream-tokens_of :
      (a : Adapter) (rest : List Adapter) (t : Traffic)
      → (stream limiter clock finish (λ e. true) hooked (some a) rest t).tokens
        ≡ tokens_of (reachable 0 t.usage (a ∷ rest))
  unfolding stream
  stream-tokens_of a rest t =
      let later = failover_stream limiter clock finish (λ e. true) hooked 1 rest t in
      step-tokens_of (is_rate_limited limiter clock finish (λ e. true) hooked 0 t.usage a) a
        (reachable 1 t.usage rest) t later later (failover_stream-tokens_of 1 rest t)
        (failover_stream-tokens_of 1 rest t)
