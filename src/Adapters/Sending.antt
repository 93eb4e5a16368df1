-- ===== src/Adapters/Sending.antt =====
-- ProviderAdapter of ai_orchestrator/adapters/base.py. What `send` gives, which an adapter defines, and
-- what the validator finds are arguments; an exception is known by its text. The usage that
-- a response reports is left out.
pub mod Failing
use Prim.Native.String.{◌++◌ as str_append}
use chat_to_agent.Base.{
  if◌then◌else◌, truthy, ℕ, ◌+◌, String, Bool, false, ◌&&◌, Option, none, some,
}
use chat_to_agent.Base.Exec.{Outcome, returned, raised}
use chat_to_agent.Utils.Breaker.{
  CircuitBreaker, CallError, circuit_breaker_open, probe_slot_occupied, failure, call, closed,
  maybe_transition_to_half_open, BreakerState, opened, half_open,
}

pub record ProviderResponse : Type 0 where
  pub success : Bool
  pub content : String
  pub reasoning_content : Option String
  pub model : String
  pub error : Option String
  pub latency : ℕ

pub record Adapter : Type 0 where
  pub circuit_breaker : CircuitBreaker
  pub call_count : ℕ
  pub validate_responses : Bool

-- `__init__`: a breaker for three failures and a minute.
unfoldable pub new : Bool → Adapter
new validating = record {
  circuit_breaker = record {
    failure_threshold = 3;
    recovery_timeout = 60_000_000;
    half_open_max_calls = 1;
    state = closed;
    failure_count = 0;
    last_failure_time = none;
    slots_taken = 0;
    slots_returned = 0;
  };
  call_count = 0;
  validate_responses = validating;
}

-- `str(e)`
abbrev pub text_of : CallError String → String
text_of circuit_breaker_open = "Circuit breaker is OPEN"
text_of probe_slot_occupied = "Circuit breaker is HALF_OPEN and probe slot is occupied"
text_of (failure text) = text

abbrev pub failed_response : String → ℕ → ProviderResponse
failed_response text time = record {
  success = false;
  content = "";
  reasoning_content = none;
  model = "unknown";
  error = some text;
  latency = time;
}

module _ (validate : ProviderResponse → Option String) where
  -- The response as the validator lets it through: it gives the first error, if it fails.
  unfoldable pub validated : Bool → ProviderResponse → ProviderResponse
  validated validating r =
      if validating && r.success
      then elim (validate r) [
        | none ↦ r
        | some text ↦ failed_response (str_append "Validation failed: " text) r.latency
      ]
      else r

  unfoldable pub respond : Bool → Outcome (CallError String) ProviderResponse → ProviderResponse
  unfolding validated
  respond validating (returned r) = validated validating r
  respond validating (raised e) = failed_response (text_of e) 0

  -- `protected_send` at the time `now`, if `send` is done at the time `later` with this outcome.
  unfoldable pub protected_send :
      ℕ → ℕ → Outcome String ProviderResponse → Adapter → ProviderResponse × Adapter
  unfolding call respond
  protected_send now later sent a =
      let (o, b) = call now later (λ c. (sent, c)) a.circuit_breaker in
      (
        respond a.validate_responses o,
        record a { circuit_breaker = b; call_count = a.call_count + 1 },
      )

-- `safe_health_check`: the check of the adapter, which may raise, is made unless the breaker is open.
abbrev checks : BreakerState → Option Bool → Bool
checks opened healthy = false
checks closed healthy = truthy healthy false
checks half_open healthy = truthy healthy false

unfoldable pub safe_health_check : ℕ → Option Bool → Adapter → Bool × Adapter
unfolding maybe_transition_to_half_open
safe_health_check now healthy a =
    let b = maybe_transition_to_half_open now a.circuit_breaker in
    (checks b.state healthy, record a { circuit_breaker = b })
