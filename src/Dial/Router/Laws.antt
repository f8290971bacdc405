-- ===== src/Dial/Router/Laws.antt =====
-- Which provider answers a request.
use grand_line.Common.{
  ℕ, ◌≡◌, refl, ◌+◌, Bool, true, false, Option, some, List, [], ◌∷◌, if◌then◌else◌,
}
use grand_line.Model.World.{Exn, other}
use grand_line.Model.Exec.{Result, ok, raise}
use grand_line.Dial.Limiter.{Usage, Limits}
use grand_line.Dial.Router.{
  CompletionResult, Reply, completed, provider_error, crashed, Adapter, Traffic, is_rate_limited,
  use_up, call_switch_hook, switch_to, publish_switch_event, failover, route,
}

-- What the caller gets from the first reply that is no `ProviderError`.
abbrev pub result_of : List Reply → Result CompletionResult
result_of [] = raise (other "RuntimeError")
result_of (completed c ∷ rs) = ok c
result_of (provider_error ∷ rs) = result_of rs
result_of (crashed e ∷ rs) = raise e

step-result_of :
    (limited : Bool) (r : Reply) (rs : List Reply)
    (skipped failed : Result CompletionResult × Traffic)
    (done : CompletionResult → Result CompletionResult × Traffic)
    (stop : Exn → Result CompletionResult × Traffic)
    → skipped.0 ≡ result_of rs
    → failed.0 ≡ result_of rs
    → ((c : CompletionResult) → (done c).0 ≡ ok c)
    → ((e : Exn) → (stop e).0 ≡ raise e)
    → (if limited
        then skipped
        else elim r [ completed c ↦ done c | provider_error ↦ failed | crashed e ↦ stop e ]).0
      ≡ result_of (if limited then rs else r ∷ rs)
step-result_of true r rs skipped failed done stop h k l m = h
step-result_of false (completed c) rs skipped failed done stop h k l m = l c
step-result_of false provider_error rs skipped failed done stop h k l m = k
step-result_of false (crashed e) rs skipped failed done stop h k l m = m e

module _ (limiter : Option Limits) (clock finish : ℕ → ℕ) (hooked : Bool) where
  -- The replies of the adapters that are not rate limited, in order.
  abbrev pub replies : ℕ → List Usage → List Adapter → List Reply
  replies i us [] = []
  replies i us (a ∷ rest) =
      let others = replies (i + 1) us rest in
      if is_rate_limited limiter clock finish (λ e. true) hooked i us a
      then others
      else a.reply ∷ others

  failover-result_of :
      (i : ℕ) (rest : List Adapter) (t : Traffic)
      → (failover limiter clock finish (λ e. true) hooked i rest t).0
        ≡ result_of (replies i t.usage rest)
  unfolding failover
  failover-result_of i [] t = refl
  failover-result_of i (a ∷ rest) t =
      let go = failover limiter clock finish (λ e. true) hooked (i + 1) rest in
      let hook = call_switch_hook limiter clock finish (λ e. true) hooked a in
      let used = use_up limiter clock finish (λ e. true) hooked i in
      step-result_of (is_rate_limited limiter clock finish (λ e. true) hooked i t.usage a) a.reply
        (replies (i + 1) t.usage rest) (go t) (go (hook t))
        (λ c.
          publish_switch_event limiter clock finish (λ e. true) hooked
            (switch_to limiter clock finish (λ e. true) hooked c) c (used c (hook t)))
        (λ e. (raise e, hook t)) (failover-result_of (i + 1) rest t)
        (failover-result_of (i + 1) rest (hook t)) (λ c. refl) (λ e. refl)

  -- With a bus that takes every event, a request for a role with a provider gets the answer of the
  -- first adapter, the primary and then the chain, that is not rate limited and raises no
  -- `ProviderError`; without such an adapter it raises.
  pub route-result_of :
      (a : Adapter) (rest : List Adapter) (t : Traffic)
      → (route limiter clock finish (λ e. true) hooked (some a) rest t).0
        ≡ result_of (replies 0 t.usage (a ∷ rest))
  unfolding route
  route-result_of a rest t =
      let go = failover limiter clock finish (λ e. true) hooked 1 rest in
      step-result_of (is_rate_limited limiter clock finish (λ e. true) hooked 0 t.usage a) a.reply
        (replies 1 t.usage rest) (go t) (go t)
        (λ c. (ok c, use_up limiter clock finish (λ e. true) hooked 0 c t)) (λ e. (raise e, t))
        (failover-result_of 1 rest t) (failover-result_of 1 rest t) (λ c. refl) (λ e. refl)
