-- ===== src/Dial/Limiter.antt =====
-- dial_system/rate_limiter.py: a sliding window over the usage of each provider. The sorted set of
-- Redis is the list of its entries; its expiry, after two windows without use, is left out.
pub mod Laws
use grand_line.Common.{
  ℕ, ◌+◌, ◌-◌, String, Bool, true, false, not, ◌&&◌, ◌||◌, List, [], ◌∷◌, ◌++◌, ◌==◌, leb, str_eq,
  if◌then◌else◌, keep, any_by, length,
}

-- `WINDOW_SECONDS`
abbrev pub window_seconds : ℕ
window_seconds = 60

-- A member of the set of a provider, with its score.
pub record Usage : Type 0 where
  pub provider : String
  pub time : ℕ
  pub tokens : ℕ

-- The two limits of a `RateLimiter`.
pub record Limits : Type 0 where
  pub max_tokens : ℕ
  pub max_requests : ℕ

-- schemas/dial_system.py, `RateLimitStatus`, without the time of a reset that nothing sets.
pub record RateLimitStatus : Type 0 where
  pub is_limited : Bool
  pub remaining_tokens : ℕ
  pub remaining_requests : ℕ

abbrev pub same_member : String → ℕ → ℕ → Usage → Bool
same_member provider now tokens u =
    str_eq u.provider provider && (u.time == now) && (u.tokens == tokens)

-- `record_usage`; the set holds a member "time:tokens" once.
unfoldable pub record_usage : String → ℕ → ℕ → List Usage → List Usage
record_usage provider tokens now us =
    if any_by (same_member provider now tokens) us
    then us
    else us ++ record { provider = provider; time = now; tokens = tokens } ∷ []

-- The score is from `now - WINDOW_SECONDS` to `now`.
abbrev pub in_window : String → ℕ → Usage → Bool
in_window provider now u =
    str_eq u.provider provider && leb now (u.time + window_seconds) && leb u.time now

abbrev pub sum_tokens : List Usage → ℕ
sum_tokens [] = 0
sum_tokens (u ∷ us) = u.tokens + sum_tokens us

abbrev pub status_from : Limits → ℕ → ℕ → RateLimitStatus
status_from l tokens requests = record {
  is_limited = leb l.max_tokens tokens || leb l.max_requests requests;
  remaining_tokens = l.max_tokens - tokens;
  remaining_requests = l.max_requests - requests;
}

abbrev pub window : String → ℕ → List Usage → List Usage
window provider now us = keep (in_window provider now) us

unfoldable pub check : Limits → String → ℕ → List Usage → RateLimitStatus
check l provider now us =
    let entries = window provider now us in status_from l (sum_tokens entries) (length entries)

abbrev pub surviving : String → ℕ → List Usage → List Usage
surviving provider now us =
    keep (λ (u : Usage). not (str_eq u.provider provider && leb (u.time + window_seconds) now)) us

-- `cleanup`: the scores up to `now - WINDOW_SECONDS` go, and their number is returned.
unfoldable pub cleanup : String → ℕ → List Usage → ℕ × List Usage
cleanup provider now us = let kept = surviving provider now us in (length us - length kept, kept)
