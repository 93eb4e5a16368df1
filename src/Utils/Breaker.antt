-- ===== src/Utils/Breaker.antt =====
-- The circuit breaker of ai_orchestrator/utils/backoff.py. The clock readings are arguments, in
-- microseconds; the locks make each method one step. `_half_open_used` may fall below 0, so it is
-- held as two counts, the slots taken and the slots given back since the last reset.
pub mod Tripping
use chat_to_agent.Base.{leb, if◌then◌else◌, ℕ, ◌+◌, ◌-◌, Bool, false, Option, none, some}
use chat_to_agent.Base.Exec.{Outcome, returned, raised, Method}

pub data BreakerState : Type 0 where
  closed opened half_open : BreakerState

pub record CircuitBreaker : Type 0 where
  pub failure_threshold : ℕ
  pub recovery_timeout : ℕ
  pub half_open_max_calls : ℕ
  pub state : BreakerState
  pub failure_count : ℕ
  pub last_failure_time : Option ℕ
  pub slots_taken : ℕ
  pub slots_returned : ℕ

-- What a call raises: the breaker's own error, or the function's.
pub data CallError (E : Type 0) : Type 0 where
  circuit_breaker_open probe_slot_occupied : CallError E
  failure : E → CallError E

-- A positive threshold and a positive number of probes are wanted.
unfoldable pub new : ℕ → ℕ → ℕ → Option CircuitBreaker
new threshold timeout probes =
    if leb 1 threshold
    then (if leb 1 probes
        then some (record {
          failure_threshold = threshold;
          recovery_timeout = timeout;
          half_open_max_calls = probes;
          state = closed;
          failure_count = 0;
          last_failure_time = none;
          slots_taken = 0;
          slots_returned = 0;
        })
        else none)
    else none

abbrev after_success : BreakerState → BreakerState
after_success half_open = closed
after_success s = s

unfoldable pub record_success : CircuitBreaker → CircuitBreaker
record_success b = record b { failure_count = 0; state = after_success b.state }

unfoldable pub record_failure : ℕ → CircuitBreaker → CircuitBreaker
record_failure now b = record b {
  failure_count = b.failure_count + 1;
  last_failure_time = some now;
  state = if leb b.failure_threshold (b.failure_count + 1) then opened else b.state;
}

abbrev has_recovered : BreakerState → Option ℕ → ℕ → ℕ → Bool
has_recovered opened (some t) timeout now = leb timeout (now - t)
has_recovered opened none timeout now = false
has_recovered closed t timeout now = false
has_recovered half_open t timeout now = false

unfoldable pub maybe_transition_to_half_open : ℕ → CircuitBreaker → CircuitBreaker
maybe_transition_to_half_open now b =
    if has_recovered b.state b.last_failure_time b.recovery_timeout now
    then record b { state = half_open; slots_taken = 0; slots_returned = 0 }
    else b

module _ {E A : Type 0} where
  -- What `call` does when the function is done, at the time `later`.
  unfoldable pub settle :
      ℕ → Outcome E A → CircuitBreaker → Outcome (CallError E) A × CircuitBreaker
  unfolding record_success record_failure
  settle later (returned a) b = (returned a, record_success b)
  settle later (raised e) b = (raised (failure e), record_failure later b)

  give_back : Outcome (CallError E) A × CircuitBreaker → Outcome (CallError E) A × CircuitBreaker
  give_back (r, b) = (r, record b { slots_returned = b.slots_returned + 1 })

  -- The function may change the breaker while it is awaited, by the calls of others.
  unfoldable pub call_in :
      BreakerState → ℕ → Method CircuitBreaker E A → Method CircuitBreaker (CallError E) A
  unfolding settle give_back
  call_in opened later func b = (raised circuit_breaker_open, b)
  call_in half_open later func b =
      if leb (b.half_open_max_calls + b.slots_returned) b.slots_taken
      then (raised probe_slot_occupied, b)
      else (let (r, b') = func (record b { slots_taken = b.slots_taken + 1 }) in
          give_back (settle later r b'))
  call_in closed later func b = let (r, b') = func b in settle later r b'

  -- `call(func)` at the time `now`, with `func` done at the time `later`.
  unfoldable pub call : ℕ → ℕ → Method CircuitBreaker E A → Method CircuitBreaker (CallError E) A
  unfolding maybe_transition_to_half_open call_in
  call now later func b =
      let c = maybe_transition_to_half_open now b in call_in c.state later func c
