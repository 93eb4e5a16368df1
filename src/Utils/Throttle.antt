-- ===== src/Utils/Throttle.antt =====
-- ai_orchestrator/utils/throttle.py. Clock readings are arguments, in microseconds. A rate is counted
-- in tokens a minute, and a bucket holds sixty-millionths of a token, so that a rate gives so many of
-- them in each microsecond. The blocking `acquire` waits and tries again until it may take its tokens:
-- each pass of its loop is a `try_acquire`.
pub mod Rates
use chat_to_agent.Base.{
  ◌||◌, leb, ◌==◌, if◌then◌else◌, ℕ, ◌+◌, ◌-◌, ◌*◌, min, String, Bool, true, false, ◌||◌, Option,
  none, some,
}
use chat_to_agent.Base.Dict.{Dict, get, put, remove}

pub record TokenBucket : Type 0 where
  pub rate : ℕ
  pub burst : ℕ
  pub tokens : ℕ
  pub last_refill : ℕ

-- `float(burst) if burst is not None else rate`, where `rate` is in tokens a second
abbrev full_size : ℕ → Option ℕ → ℕ
full_size per_minute none = per_minute * 1_000_000
full_size per_minute (some n) = n * 60_000_000

-- `TokenBucket(rate, burst)`: neither may be 0.
unfoldable pub new : ℕ → Option ℕ → ℕ → Option TokenBucket
new per_minute size now =
    let full = full_size per_minute size in
    if (per_minute == 0) || (full == 0)
    then none
    else some (record { rate = per_minute; burst = full; tokens = full; last_refill = now })

unfoldable pub refill : ℕ → TokenBucket → TokenBucket
refill now b = record b {
  tokens = min b.burst (b.tokens + (now - b.last_refill) * b.rate);
  last_refill = now;
}

-- What a bucket with enough tokens gives.
abbrev take : ℕ → TokenBucket → Bool × TokenBucket
take wanted b =
    if leb wanted b.tokens then (true, record b { tokens = b.tokens - wanted }) else (false, b)

unfoldable pub try_acquire : ℕ → ℕ → TokenBucket → Bool × TokenBucket
unfolding refill
try_acquire now wanted b = if wanted == 0 then (true, b) else take wanted (refill now b)

unfoldable pub available_tokens : ℕ → TokenBucket → ℕ × TokenBucket
unfolding refill
available_tokens now b = let c = refill now b in (c.tokens, c)

-- `limiters.setdefault(account_id, fresh)`
abbrev set_default : String → TokenBucket → Dict TokenBucket → TokenBucket × Dict TokenBucket
set_default account_id fresh limiters = elim (get account_id limiters) [
  | none ↦ (fresh, put account_id fresh limiters)
  | some b ↦ (b, limiters)
]

-- `RateLimiterRegistry.get_limiter`: the new limiter is made first, which raises for a rate of 0.
unfoldable pub get_limiter :
    String → ℕ → ℕ → Dict TokenBucket → Option (TokenBucket × Dict TokenBucket)
unfolding new
get_limiter account_id rpm now limiters = elim (new rpm (some rpm) now) [
  | none ↦ none
  | some fresh ↦ some (set_default account_id fresh limiters)
]

unfoldable pub remove_limiter : String → Dict TokenBucket → Dict TokenBucket
unfolding remove
remove_limiter account_id limiters = remove account_id limiters
