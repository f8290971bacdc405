-- ===== src/Dial/Config.antt =====
-- schemas/dial_config.py: the shape check of a fallback chain, and the two resolvers that fall back
-- to a safe value on any shape.
use grand_line.Common.{ℕ, String, Bool, ◌&&◌, ◌||◌, Option, none, some, leb, str_eq, if◌then◌else◌}
use grand_line.Dial.Value.{
  Value, null, int, str, arr, dict, Fields, end, field, Items, nil, cons, get, is_truthy,
  is_hashable,
}

-- What a validator does: it returns, or raises `ValueError` or (on an unhashable key) `TypeError`.
pub data Verdict : Type 0 where
  accepted value_error type_error : Verdict

-- `SUPPORTED_PROVIDERS`
unfoldable pub is_supported : String → Bool
is_supported p =
    str_eq p "anthropic"
    || str_eq p "openai"
    || str_eq p "ollama"
    || str_eq p "claude_code"
    || str_eq p "claude-code"

-- `if provider not in SUPPORTED_PROVIDERS: raise ValueError`
abbrev pub check_provider : Value → Verdict
check_provider (str p) = if is_supported p then accepted else value_error
check_provider v = if is_hashable v then value_error else type_error

-- One entry of a chain.
unfoldable pub check_entry : Value → Verdict
unfolding is_supported
check_entry (str p) = check_provider (str p)
check_entry (dict fs) =
    if is_truthy (get "provider" fs) then check_provider (get "provider" fs) else value_error
check_entry _ = value_error

abbrev pub and_then : Verdict → Verdict → Verdict
and_then accepted v = v
and_then v _ = v

unfoldable pub check_entries : Items → Verdict
unfolding check_entry
check_entries nil = accepted
check_entries (cons v vs) = and_then (check_entry v) (check_entries vs)

abbrev pub check_role : Value → Verdict
check_role (arr vs) = check_entries vs
check_role _ = value_error

unfoldable pub check_chains : Fields → Verdict
unfolding check_entries
check_chains end = accepted
check_chains (field role entries fs) = and_then (check_role entries) (check_chains fs)

-- `validate_fallback_chain`
unfoldable pub validate_fallback_chain : Option Fields → Verdict
unfolding check_chains
validate_fallback_chain none = accepted
validate_fallback_chain (some fs) = check_chains fs

-- A strict `int | None` field with `ge=1, le=10`: outer `none` is a `ValidationError`. A Boolean or
-- a float is no integer in strict mode.
abbrev pub bounded_field : Value → Option (Option ℕ)
bounded_field null = some none
bounded_field (int n) = if leb 1 n && leb n 10 then some (some n) else none
bounded_field _ = none

-- `cfg.max_concurrency or 1`, where a `ValidationError` gives 1 too.
abbrev pub concurrency_or_one : Option (Option ℕ) → ℕ
concurrency_or_one (some (some n)) = n
concurrency_or_one _ = 1

abbrev pub concurrency_of_role : Value → ℕ
concurrency_of_role (dict fs) = concurrency_or_one (bounded_field (get "max_concurrency" fs))
concurrency_of_role _ = 1

-- `resolve_shipwright_max_concurrency`; `none` is a missing or empty mapping.
unfoldable pub resolve_shipwright_max_concurrency : Option Fields → ℕ
resolve_shipwright_max_concurrency none = 1
resolve_shipwright_max_concurrency (some fs) = concurrency_of_role (get "shipwright" fs)

abbrev pub turns_or_none : Option (Option ℕ) → Option ℕ
turns_or_none (some n) = n
turns_or_none none = none

-- `resolve_claude_code_role_config`: its one field, `max_turns`.
unfoldable pub resolve_claude_code_role_config : Option Value → Option ℕ
resolve_claude_code_role_config (some (dict fs)) =
    turns_or_none (bounded_field (get "max_turns" fs))
resolve_claude_code_role_config _ = none
