-- ===== src/Utils/Backoff/Attempts.antt =====
-- How often the function is called, with what delays between, and whose result comes back.
use mathlib.Core.List.{append-nil, append_assoc}
use chat_to_agent.Base.{
  if◌then◌else◌, ℕ, zero, suc, ◌+◌, ◌*◌, ◌^◌, ◌≤◌, ◌<◌, min, ◌≡◌, refl, ◌⊎◌, true, false, Option,
  none, some, List, [], ◌∷◌, ◌++◌, arith,
}
use chat_to_agent.Base.Exec.{Outcome, returned, raised, Method, is_raised}
use chat_to_agent.Utils.Backoff.{RetryConfig, compute_delay, retry_loop, retry_with_backoff}

-- If a draw is at most what it is drawn from, a delay is at most the configured maximum with jitter
-- off and at most twice that with jitter on: what is drawn is added after the cap.
pub compute_delay-le :
    (c : RetryConfig) (draw : ℕ → ℕ) (attempt : ℕ)
    → ((d : ℕ) → draw d ≤ d)
    → compute_delay c draw attempt ≤ (if c.jitter then 2 * c.max_delay else c.max_delay)
unfolding compute_delay
compute_delay-le c draw attempt h =
    ground (arith, h (min (c.base_delay * c.multiplier ^ attempt) c.max_delay))

module _ {E A : Type 0} (c : RetryConfig) (draw : ℕ → ℕ → ℕ) (results : ℕ → Outcome E A)
    (assertion : E) where
  -- The calls made and the sleeps taken so far.
  abbrev pub Trace : Type 0
  Trace = ℕ × List ℕ

  -- A function whose k-th call has the k-th result.
  abbrev pub scripted : Method Trace E A
  scripted (k, slept) = (results k, (k + 1, slept))

  abbrev pub slept_for : ℕ → Trace → Trace
  slept_for d (k, slept) = (k, slept ++ (d ∷ []))

  -- The delays after the attempts from `a` on, `q` of them.
  abbrev pub delays : ℕ → ℕ → List ℕ
  delays a zero = []
  delays a (suc q) = compute_delay c (draw a) a ∷ delays (a + 1) q

  outcome_raised : (o : Outcome E A) → is_raised o ≡ true → (x : E) × (o ≡ raised x)
  outcome_raised (returned a) h = cc
  outcome_raised (raised x) h = (x, refl)

  abbrev loop : ℕ → ℕ → Option E → Method Trace E A
  loop = retry_loop c draw scripted none slept_for assertion

  loop-stops :
      (n a : ℕ) (last : Option E) (slept : List ℕ)
      → (is_raised (results a) ≡ false) ⊎ (a ≡ c.max_retries)
      → loop (suc n) a last (a, slept) ≡ (results a, (a + 1, slept))
  unfolding retry_loop
  loop-stops n a last slept h = ground arith

  loop-goes_on :
      (n a : ℕ) (last : Option E) (slept : List ℕ) (x : E)
      → a < c.max_retries
      → results a ≡ raised x
      → loop (suc n) a last (a, slept)
        ≡ loop n (a + 1) (some x) (a + 1, slept ++ (compute_delay c (draw a) a ∷ []))
  unfolding retry_loop
  loop-goes_on n a last slept x lt e = ground arith

  retry_loop-attempts :
      (q n a : ℕ) (last : Option E) (slept : List ℕ)
      → a + n ≡ c.max_retries
      → q ≤ n
      → ((j : ℕ) → j < q → is_raised (results (a + j)) ≡ true)
      → (is_raised (results (a + q)) ≡ false) ⊎ (q ≡ n)
      → loop (suc n) a last (a, slept) ≡ (results (a + q), (a + q + 1, slept ++ delays a q))
  retry_loop-attempts zero n a last slept e le rs stop =
      ground (arith, loop-stops n a last slept, append-nil slept)
  retry_loop-attempts (suc q) zero a last slept e le rs stop = absurd (omega arith)
  retry_loop-attempts (suc q) (suc n) a last slept e le rs stop =
      let (x, r) = outcome_raised (results a) (ground (arith, rs 0)) in
      let ds = slept ++ (compute_delay c (draw a) a ∷ []) in
      ground (
        arith,
        loop-goes_on (suc n) a last slept x,
        append_assoc slept (compute_delay c (draw a) a ∷ []) (delays (a + 1) q),
        retry_loop-attempts q n (a + 1) (some x) ds (omega arith) (omega arith)
            (λ j lt. ground (arith, rs (suc j))) (ground arith),
      )

  -- Without a callback: if the attempts before the p-th raise, and the p-th returns or is the last
  -- that `max_retries` allows, then the function is called p + 1 times, the result is that of the
  -- p-th attempt, and between the calls it sleeps for the delays of the attempts in order.
  pub retry_with_backoff-attempts :
      (p : ℕ)
      → p ≤ c.max_retries
      → ((j : ℕ) → j < p → is_raised (results j) ≡ true)
      → (is_raised (results p) ≡ false) ⊎ (p ≡ c.max_retries)
      → retry_with_backoff c draw scripted none slept_for assertion (0, [])
        ≡ (results p, (p + 1, delays 0 p))
  unfolding retry_with_backoff
  retry_with_backoff-attempts p le rs stop = ground (
    arith,
    retry_loop-attempts p c.max_retries 0 none [] (omega arith) le (λ j lt. ground (arith, rs j))
        (ground arith),
  )
