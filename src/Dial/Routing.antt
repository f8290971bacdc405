-- ===== src/Dial/Routing.antt =====
-- Requests on a small chain of providers, and the theorems of the router and its limits at them.
use grand_line.Common.{ℕ, ◌≡◌, ◌<◌, refl, arith, String, true, false, none, some, List, [], ◌∷◌}
use grand_line.Model.Exec.{ok}
use grand_line.Dial.Limiter.{Usage, Limits, check, record_usage}
use grand_line.Dial.Router.{
  AdapterClass, anthropic, openai, ollama, CompletionResult, Reply, completed, provider_error,
  Ending, finished, broken, Adapter, Traffic, route, stream,
}
use grand_line.Dial.Router.Laws.{route-result_of}
use grand_line.Dial.Router.Streaming.{stream-tokens_of}

abbrev limits : Limits
limits = record { max_tokens = 100; max_requests = 2 }

-- Two calls within a minute of 100, and one before.
abbrev usage : List Usage
usage =
    record { provider = "anthropic"; time = 10; tokens = 90 }
    ∷ record { provider = "anthropic"; time = 60; tokens = 20 }
    ∷ record { provider = "anthropic"; time = 90; tokens = 30 }
    ∷ []

check_run : (check limits "anthropic" 100 usage).is_limited ≡ true
unfolding check
check_run = refl

record_usage_run :
    (check limits "openai" 100 (record_usage "openai" 7 99 usage)).remaining_tokens ≡ 93
unfolding check record_usage
record_usage_run = refl

later_than : 75 < 100
later_than = omega arith

abbrev answer : CompletionResult
answer = record { content = "hi"; provider = "ollama"; model = "m"; total_tokens = 5 }

abbrev adapter : AdapterClass → Reply → List String → Ending → Adapter
adapter class reply tokens ending = record {
  class = class;
  model = none;
  is_limited = false;
  reply = reply;
  tokens = tokens;
  ending = ending;
}

-- The primary is limited, the next provider fails, and the last answers.
abbrev primary : Adapter
primary = adapter anthropic (completed answer) ("A" ∷ []) finished

abbrev chain : List Adapter
chain =
    adapter openai provider_error ("Hel" ∷ []) broken
    ∷ adapter ollama (completed answer) ("Hello" ∷ []) finished
    ∷ []

abbrev traffic : Traffic
traffic = record { usage = usage; switches = []; hook_calls = [] }

abbrev clock : ℕ → ℕ
clock i = 100

route-result_of_example :
    (route (some limits) clock clock (λ e. true) true (some primary) chain traffic).0 ≡ ok answer
unfolding check
route-result_of_example = route-result_of (some limits) clock clock true primary chain traffic

-- The caller sees the beginning of the answer twice.
stream-tokens_of_example :
    (stream (some limits) clock clock (λ e. true) true (some primary) chain traffic).tokens
    ≡ "Hel" ∷ "Hello" ∷ []
unfolding check
stream-tokens_of_example = stream-tokens_of (some limits) clock clock true primary chain traffic
