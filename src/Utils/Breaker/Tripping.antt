-- ===== src/Utils/Breaker/Tripping.antt =====
-- When the breaker opens and closes, for calls one after the other and for calls that overlap.
use chat_to_agent.Base.{
  ◌-◌, some, ltb, leb, ◌&&◌, if◌then◌else◌, ℕ, ◌+◌, ◌≤◌, ◌≡◌, Bool, true, false, List, [], ◌∷◌,
  arith,
}
use chat_to_agent.Base.Exec.{Outcome, returned, raised, is_raised}
use chat_to_agent.Utils.Breaker.{
  new, record_success, BreakerState, closed, opened, half_open, CircuitBreaker, CallError,
  circuit_breaker_open, failure, call,
}

-- The breaker is closed exactly below its threshold, and no probe is under way.
abbrev pub is_closed : BreakerState → Bool
is_closed closed = true
is_closed opened = false
is_closed half_open = false

abbrev is_half_open : BreakerState → Bool
is_half_open closed = false
is_half_open opened = false
is_half_open half_open = true

abbrev IsTripped : CircuitBreaker → Type 0
IsTripped b =
    (is_closed b.state ≡ ltb b.failure_count b.failure_threshold)
    × (b.slots_taken ≡ b.slots_returned)
    × (1 ≤ b.half_open_max_calls)
    × (1 ≤ b.failure_threshold)

-- Whether a breaker with this threshold and recovery time refuses a call now, by its failures in a row
-- and the time of the last.
abbrev pub is_refused : ℕ → ℕ → ℕ × ℕ → ℕ → Bool
is_refused threshold timeout (n, t) now = leb threshold n && ltb (now - t) timeout

-- What the breaker knows of such a streak.
record Tells (threshold timeout n t : ℕ) (b : CircuitBreaker) : Type 0 where
  tripped : IsTripped b
  probed : is_half_open b.state ≡ false
  limit : b.failure_threshold ≡ threshold
  wait : b.recovery_timeout ≡ timeout
  failures : b.failure_count ≡ n
  last : leb 1 n ≡ true → b.last_failure_time ≡ some t

new-Tells :
    (threshold timeout probes : ℕ) (b : CircuitBreaker)
    → new threshold timeout probes ≡ some b
    → Tells threshold timeout 0 0 b
unfolding new
new-Tells threshold timeout probes b e = ground arith

module _ {E A : Type 0} where
  -- A call of a function that leaves the breaker alone.
  abbrev pub alone : ℕ → ℕ → Outcome E A → CircuitBreaker → Outcome (CallError E) A × CircuitBreaker
  alone now later r = call now later λ b. (r, b)

  -- What a caller gets for a result of the function.
  abbrev pub passed_on : Outcome E A → Outcome (CallError E) A
  passed_on (returned a) = returned a
  passed_on (raised e) = raised (failure e)

  -- Calls one after the other, with their times and results.
  abbrev pub run : CircuitBreaker → List (ℕ × ℕ × Outcome E A) → CircuitBreaker
  run b [] = b
  run b ((now, later, r) ∷ cs) = run (alone now later r b).1 cs

  -- The failures in a row after calls, and the time of the last: a call that is refused leaves them, a
  -- success begins anew, and a failure is one more, at the time when the function is done.
  abbrev pub streak : ℕ → ℕ → ℕ × ℕ → List (ℕ × ℕ × Outcome E A) → ℕ × ℕ
  streak threshold timeout s [] = s
  streak threshold timeout (n, t) ((now, later, r) ∷ cs) =
      streak threshold timeout
        (if is_refused threshold timeout (n, t) now
          then (n, t)
          else if is_raised r
          then (n + 1, later)
          else (0, t))
        cs

  alone-Tells :
      (threshold timeout n t now later : ℕ) (r : Outcome E A) (b : CircuitBreaker)
      → Tells threshold timeout n t b
      → let s = streak threshold timeout (n, t) ((now, later, r) ∷ []) in
        ((alone now later r b).0 ≡ (
          if is_refused threshold timeout (n, t) now
          then raised circuit_breaker_open
          else passed_on r))
        × Tells threshold timeout s.0 s.1 (alone now later r b).1
  unfolding call
  alone-Tells threshold timeout n t now later r b h = ground (arith, h)

  run-Tells :
      (threshold timeout n t : ℕ) (b : CircuitBreaker) (cs : List (ℕ × ℕ × Outcome E A))
      → Tells threshold timeout n t b
      → let s = streak threshold timeout (n, t) cs in Tells threshold timeout s.0 s.1 (run b cs)
  run-Tells threshold timeout n t b [] h = h
  run-Tells threshold timeout n t b ((now, later, r) ∷ cs) h =
      let s = streak threshold timeout (n, t) ((now, later, r) ∷ []) in
      run-Tells threshold timeout s.0 s.1 (alone now later r b).1 cs
        (alone-Tells threshold timeout n t now later r b h).1

  -- After any calls one after the other on a new breaker, the next call is refused exactly when the
  -- failures in a row, counted from the calls themselves, have come to the threshold and less than the
  -- recovery time has gone by since the last of them; otherwise the caller gets what the function
  -- gives. The breaker is closed exactly while these failures are below the threshold.
  pub run-alone :
      (threshold timeout probes : ℕ) (b₀ : CircuitBreaker) (cs : List (ℕ × ℕ × Outcome E A))
      (now later : ℕ) (r : Outcome E A)
      → new threshold timeout probes ≡ some b₀
      → let b = run b₀ cs in
        let s = streak threshold timeout (0, 0) cs in
        ((alone now later r b).0 ≡ (
          if is_refused threshold timeout s now then raised circuit_breaker_open else passed_on r))
        × (is_closed b.state ≡ ltb s.0 threshold)
        × (b.failure_count ≡ s.0)
  run-alone threshold timeout probes b₀ cs now later r e =
      let s = streak threshold timeout (0, 0) cs in
      let h = run-Tells threshold timeout 0 0 b₀ cs (new-Tells threshold timeout probes b₀ e) in
      (
        (alone-Tells threshold timeout s.0 s.1 now later r (run b₀ cs) h).0,
        ground (arith, h),
        h.failures,
      )

  -- A success that a call begun earlier reports while the breaker is OPEN sets the count of failures
  -- to 0. With a threshold of 2 or more the probe after the recovery time may then fail, and the
  -- breaker stays HALF_OPEN: it does not open again, and the next call, at any time, is let through.
  pub late_success-no_reopen :
      (b : CircuitBreaker) (t now later soon : ℕ) (e : E) (r : Outcome E A)
      → b.state ≡ opened
      → b.last_failure_time ≡ some t
      → b.recovery_timeout ≤ now - t
      → 2 ≤ b.failure_threshold
      → 1 ≤ b.half_open_max_calls
      → let c = (alone now later (raised e) (record_success b)).1 in
        (c.state ≡ half_open) × ((alone soon soon r c).0 ≡ passed_on r)
  unfolding call record_success
  late_success-no_reopen b t now later soon e r o l p th m = ground arith
