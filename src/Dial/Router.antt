-- ===== src/Dial/Router.antt =====
-- dial_system/router.py: a request goes to the provider of its role, and down the fallback chain.
pub mod Laws
pub mod Streaming
use grand_line.Common.{
  ℕ, ◌+◌, String, Bool, true, false, ◌||◌, Option, none, some, List, [], ◌∷◌, ◌++◌, str_eq,
  if◌then◌else◌,
}
use grand_line.Model.World.{Exn, other}
use grand_line.Model.Exec.{Done, Result, ok, raise}
use grand_line.Dial.Limiter.{Usage, Limits, check, record_usage}

-- The classes of dial_system/adapters, by the name that `_get_provider_name` reads off.
pub data AdapterClass : Type 0 where
  claude_code anthropic openai ollama unknown_class : AdapterClass

-- schemas/dial_system.py, `CompletionResult`, with the total of its usage.
pub record CompletionResult : Type 0 where
  pub content : String
  pub provider : String
  pub model : String
  pub total_tokens : ℕ

-- What `complete` does with the request: it returns, raises a `ProviderError`, or another exception.
pub data Reply : Type 0 where
  completed : CompletionResult → Reply
  provider_error : Reply
  crashed : Exn → Reply

-- How a stream of tokens ends.
pub data Ending : Type 0 where
  finished broken : Ending
  aborted : Exn → Ending

pub record Adapter : Type 0 where
  pub class : AdapterClass
  pub model : Option String
  pub is_limited : Bool
  pub reply : Reply
  pub tokens : List String
  pub ending : Ending

-- `ProviderSwitchedEvent`
pub record Switch : Type 0 where
  pub new_provider : String
  pub new_model : Option String

-- What the router writes: the usage in Redis, the events, and the calls of the hook.
pub record Traffic : Type 0 where
  pub usage : List Usage
  pub switches : List Switch
  pub hook_calls : List String

-- What the caller of `stream` has seen when it ends.
pub record Streamed : Type 0 where
  pub tokens : List String
  pub result : Result Done
  pub traffic : Traffic

abbrev pub get_provider_name : AdapterClass → String
get_provider_name claude_code = "claude_code"
get_provider_name anthropic = "anthropic"
get_provider_name openai = "openai"
get_provider_name ollama = "ollama"
get_provider_name unknown_class = "unknown"

-- `limiter` is the rate limiter, if there is one, `clock i` the time at which the `i`-th adapter is
-- checked and `finish i` that at which it answers, `up` tells which events the bus takes, and `hooked` whether the hook is set.
module _ (limiter : Option Limits) (clock finish : ℕ → ℕ) (up : Switch → Bool) (hooked : Bool) where
  abbrev pub is_rate_limited : ℕ → List Usage → Adapter → Bool
  is_rate_limited i us a = a.is_limited || elim limiter [
    | none ↦ false
    | some l ↦ (check l (get_provider_name a.class) (clock i) us).is_limited
  ]

  abbrev pub use_up : ℕ → CompletionResult → Traffic → Traffic
  use_up i c t = record t {
    usage = elim limiter [
      | none ↦ t.usage
      | some l ↦ record_usage c.provider c.total_tokens (finish i) t.usage
    ];
  }

  -- `_call_switch_hook`; what the hook raises is logged only.
  abbrev pub call_switch_hook : Adapter → Traffic → Traffic
  call_switch_hook a t = record t {
    hook_calls = if hooked then t.hook_calls ++ get_provider_name a.class ∷ [] else t.hook_calls;
  }

  -- `_publish_switch_event`; what the bus raises is not caught.
  abbrev pub publish_switch_event : {A : Type 0} → Switch → A → Traffic → Result A × Traffic
  publish_switch_event e a t =
      if up e
      then (ok a, record t { switches = t.switches ++ e ∷ [] })
      else (raise (other "PublishError"), t)

  abbrev pub switch_to : CompletionResult → Switch
  switch_to c = record {
    new_provider = c.provider;
    new_model = if str_eq c.model "" then none else some c.model;
  }

  unfoldable pub failover : ℕ → List Adapter → Traffic → Result CompletionResult × Traffic
  failover i [] t = (raise (other "RuntimeError"), t)
  failover i (a ∷ rest) t =
      let skipped = failover (i + 1) rest t in
      let failed = failover (i + 1) rest (call_switch_hook a t) in
      if is_rate_limited i t.usage a then skipped else elim a.reply [
        | completed c ↦ publish_switch_event (switch_to c) c (use_up i c (call_switch_hook a t))
        | provider_error ↦ failed
        | crashed e ↦ (raise e, call_switch_hook a t)
      ]

  -- `route`, with the adapter of the role, if it has one, and its fallback chain.
  unfoldable pub route : Option Adapter → List Adapter → Traffic → Result CompletionResult × Traffic
  unfolding failover
  route none fallbacks t = (raise (other "ValueError"), t)
  route (some primary) fallbacks t =
      let rest = failover 1 fallbacks t in
      if is_rate_limited 0 t.usage primary then rest else elim primary.reply [
        | completed c ↦ (ok c, use_up 0 c t)
        | provider_error ↦ rest
        | crashed e ↦ (raise e, t)
      ]

  abbrev pub stream_switch : Adapter → Switch
  stream_switch a = record {
    new_provider = get_provider_name a.class;
    new_model = elim a.model [ none ↦ none | some m ↦ if str_eq m "" then none else some m ];
  }

  -- The tokens of an adapter reach the caller as they come; a `ProviderError` leads on.
  abbrev pub after_tokens : Adapter → Traffic → Streamed → Streamed
  after_tokens a t later = elim a.ending [
    | finished ↦ record { tokens = a.tokens; result = ok tt; traffic = t }
    | broken ↦ record later { tokens = a.tokens ++ later.tokens }
    | aborted e ↦ record { tokens = a.tokens; result = raise e; traffic = t }
  ]

  unfoldable pub failover_stream : ℕ → List Adapter → Traffic → Streamed
  failover_stream i [] t = record {
    tokens = [];
    result = raise (other "RuntimeError");
    traffic = t;
  }
  failover_stream i (a ∷ rest) t =
      let (r, t') = publish_switch_event (stream_switch a) tt (call_switch_hook a t) in
      let skipped = failover_stream (i + 1) rest t in
      let later = failover_stream (i + 1) rest t' in
      if is_rate_limited i t.usage a then skipped else elim r [
        | ok done ↦ after_tokens a t' later
        | raise e ↦ record { tokens = []; result = raise e; traffic = t' }
      ]

  unfoldable pub stream : Option Adapter → List Adapter → Traffic → Streamed
  unfolding failover_stream
  stream none fallbacks t = record { tokens = []; result = raise (other "ValueError"); traffic = t }
  stream (some primary) fallbacks t =
      let later = failover_stream 1 fallbacks t in
      if is_rate_limited 0 t.usage primary then later else after_tokens primary t later
