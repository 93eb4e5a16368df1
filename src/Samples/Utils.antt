-- ===== src/Samples/Utils.antt =====
-- Retries, a breaker and a bucket at work.
use chat_to_agent.Base.{
  false, ltb, if◌then◌else◌, ℕ, ◌/◌, ◌≤◌, String, ◌≡◌, refl, inl, true, none, some, List, [], ◌∷◌,
  arith,
}
use chat_to_agent.Base.Exec.{Outcome, returned, raised}
use chat_to_agent.Utils.Backoff.{RetryConfig, compute_delay, retry_with_backoff}
use chat_to_agent.Utils.Backoff.Attempts.{scripted, slept_for, retry_with_backoff-attempts}
use chat_to_agent.Utils.Breaker.{new, call, CircuitBreaker, closed, opened, circuit_breaker_open}
use chat_to_agent.Utils.Breaker.Tripping.{alone, is_closed, run, run-alone}
use chat_to_agent.Utils.Throttle.{TokenBucket, try_acquire}
use chat_to_agent.Utils.Throttle.Rates.{serve, serve-le}

abbrev patient : RetryConfig
patient = record {
  max_retries = 3;
  base_delay = 1000;
  max_delay = 1500;
  jitter = true;
  multiplier = 2;
}

abbrev half : ℕ → ℕ
half d = d / 2

over_the_cap : compute_delay patient half 1 ≡ 2250
unfolding compute_delay
over_the_cap = refl

-- Two failures, and then the answer.
abbrev third_time : ℕ → Outcome String ℕ
third_time k = if ltb k 2 then raised "busy" else returned 7

retry_with_backoff-attempts_example :
    retry_with_backoff patient
      (λ k. half)
      (scripted patient (λ k. half) third_time "none")
      none
      (slept_for patient (λ k. half) third_time "none")
      "none"
      (0, [])
    ≡ (returned 7, (3, 1500 ∷ 2250 ∷ []))
unfolding compute_delay
retry_with_backoff-attempts_example =
    retry_with_backoff-attempts patient (λ k. half) third_time "none" 2 (omega arith)
      (λ j lt. ground arith) (inl refl)

abbrev fragile : CircuitBreaker
fragile = record {
  failure_threshold = 2;
  recovery_timeout = 100;
  half_open_max_calls = 1;
  state = closed;
  failure_count = 0;
  last_failure_time = none;
  slots_taken = 0;
  slots_returned = 0;
}

abbrev error : Outcome String ℕ
error = raised "down"

abbrev two_failures : List (ℕ × ℕ × Outcome String ℕ)
two_failures = (1, 2, error) ∷ (3, 4, error) ∷ []

-- After two failures the breaker is open; a call before the recovery time is refused.
run-alone_example :
    let b = run fragile two_failures in
    ((alone 50 51 error b).0 ≡ raised circuit_breaker_open)
    × (is_closed b.state ≡ false)
    × (b.failure_count ≡ 2)
unfolding new call
run-alone_example = run-alone 2 100 1 fragile two_failures 50 51 error refl

-- And a probe after it that fails opens it again.
probe_reopens : (alone 200 201 error (run fragile two_failures)).1.state ≡ opened
unfolding call
probe_reopens = refl

abbrev tripped : CircuitBreaker
tripped = record fragile { state = opened; failure_count = 2; last_failure_time = some 4 }

-- A token a second, with room for two.
abbrev bucket : TokenBucket
bucket = record { rate = 60; burst = 120_000_000; tokens = 120_000_000; last_refill = 0 }

abbrev requests : List (ℕ × ℕ)
requests = (10, 60_000_000) ∷ (20, 60_000_000) ∷ (30, 60_000_000) ∷ (1_000_020, 60_000_000) ∷ []

serve-le_example :
    ((serve bucket requests).0 ≤ 180_001_200) × ((serve bucket requests).1.tokens ≤ 120_000_000)
serve-le_example =
    serve-le bucket 0 requests (omega arith) (omega arith)
      (omega arith, (omega arith, (omega arith, (omega arith, tt))))

serve_result : (serve bucket requests).0 ≡ 180_000_000
unfolding serve try_acquire
serve_result = refl
