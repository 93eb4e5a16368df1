-- ===== src/Utils/Backoff.antt =====
-- The retries of ai_orchestrator/utils/backoff.py. Delays are whole microseconds and the multiplier
-- a whole number; the random draws are arguments. The awaited function and the callback are methods
-- on a state of the caller's choice, and the sleep is a function on it.
pub mod Attempts
use chat_to_agent.Base.{
  ◌==◌, if◌then◌else◌, truthy, ℕ, zero, suc, ◌+◌, ◌*◌, ◌^◌, min, Bool, Option, none, some,
}
use chat_to_agent.Base.Exec.{Method, ◌>>◌, raise, catch}

pub record RetryConfig : Type 0 where
  pub max_retries : ℕ
  pub base_delay : ℕ
  pub max_delay : ℕ
  pub jitter : Bool
  pub multiplier : ℕ

-- `draw d` is `random.uniform(0, d)`.
unfoldable pub compute_delay : RetryConfig → (ℕ → ℕ) → ℕ → ℕ
compute_delay c draw attempt =
    let d = min (c.base_delay * c.multiplier ^ attempt) c.max_delay in
    if c.jitter then d + draw d else d

module _ {S E A : Type 0} (c : RetryConfig) (draw : ℕ → ℕ → ℕ) (func : Method S E A)
    (on_retry : Option (E → ℕ → ℕ → Method S E (Unit {0}))) (sleep : ℕ → S → S)
    (assertion : E) where
  notify : E → ℕ → ℕ → Method S E A → Method S E A
  notify exc number delay next = elim on_retry [ none ↦ next | some f ↦ f exc number delay >> next ]

  -- The passes left of `range(cfg.max_retries + 1)`, from this attempt on.
  unfoldable pub retry_loop : ℕ → ℕ → Option E → Method S E A
  unfolding notify compute_delay
  retry_loop zero attempt last = raise (truthy last assertion)
  retry_loop (suc n) attempt last = catch func λ exc.
      if attempt == c.max_retries
      then raise exc
      else (let d = compute_delay c (draw attempt) attempt in
          notify exc (attempt + 1) d (λ s. retry_loop n (attempt + 1) (some exc) (sleep d s)))

  unfoldable pub retry_with_backoff : Method S E A
  unfolding retry_loop
  retry_with_backoff = retry_loop (c.max_retries + 1) 0 none
