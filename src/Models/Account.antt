-- ===== src/Models/Account.antt =====
-- ai_orchestrator/models/account.py. The clock is an argument, in microseconds. `health_score` is
-- counted in hundredths, the step of every number that the methods add to it, and so is
-- `current_rate_usage`; a latency is a whole
-- number of the caller's unit, and the average is the exact quotient that the float approximates.
-- The fields that no method reads (the rate limits, the last use and the proxy) are left out.
pub mod Records
pub mod Escalation
use chat_to_agent.Base.{
  ℕ, suc, ◌+◌, ◌-◌, ◌*◌, min, Bool, true, false, Option, none, some, String, ltb, leb,
  if◌then◌else◌,
}
use chat_to_agent.Base.Fraction.{Fraction, zero_fraction, running_mean}

pub data AccountState : Type 0 where
  idle warmup active cooldown jail : AccountState

pub record Account : Type 0 where
  pub id : String
  pub provider : String
  pub state : AccountState
  pub health_score : ℕ
  pub consecutive_failures : ℕ
  pub total_calls : ℕ
  pub total_errors : ℕ
  pub current_rate_usage : ℕ
  pub context_limit : ℕ
  pub avg_latency : Fraction
  pub avg_latency_samples : ℕ
  pub cooldown_until : Option ℕ
  pub total_warmup_steps : ℕ
  pub warmup_steps_completed : ℕ

-- `Account(id=…, provider=…, state=…, context_limit=…)`, with the defaults of the other fields.
unfoldable pub new : String → String → AccountState → ℕ → Account
new account_id provider_name initial limit = record {
  id = account_id;
  provider = provider_name;
  state = initial;
  health_score = 100;
  consecutive_failures = 0;
  total_calls = 0;
  total_errors = 0;
  current_rate_usage = 0;
  context_limit = limit;
  avg_latency = zero_fraction;
  avg_latency_samples = 0;
  cooldown_until = none;
  total_warmup_steps = 5;
  warmup_steps_completed = 0;
}

abbrev cooled_down : Option ℕ → ℕ → Bool
cooled_down none now = true
cooled_down (some t) now = if ltb now t then false else true

abbrev available_in : AccountState → Option ℕ → ℕ → Bool
available_in jail t now = false
available_in active t now = false
available_in cooldown t now = cooled_down t now
available_in idle t now = true
available_in warmup t now = true

unfoldable pub is_available : ℕ → Account → Bool
is_available now a = available_in a.state a.cooldown_until now

unfoldable pub update_latency : ℕ → Account → Account
unfolding running_mean
update_latency latency a =
    if ltb 0 latency
    then record a {
      avg_latency = running_mean a.avg_latency a.avg_latency_samples latency;
      avg_latency_samples = a.avg_latency_samples + 1;
    }
    else a

unfoldable pub enter_cooldown : ℕ → ℕ → Account → Account
enter_cooldown now duration a = record a {
  state = cooldown;
  cooldown_until = some (now + duration);
}

abbrev is_warmup : AccountState → Bool
is_warmup warmup = true
is_warmup _ = false

-- The last test of `record_success`: a step of the warm-up, and its end.
warm_up : Account → Account
warm_up a =
    if is_warmup a.state
    then (let steps = a.warmup_steps_completed + 1 in
        let b = record a { warmup_steps_completed = steps } in
        if leb a.total_warmup_steps steps then record b { state = active } else b)
    else a

unfoldable pub record_success : ℕ → Account → Account
unfolding update_latency warm_up
record_success latency a = warm_up (
    update_latency latency (record a {
      total_calls = a.total_calls + 1;
      consecutive_failures = 0;
      health_score = min 100 (a.health_score + 5);
    }))

-- `max(0.0, h - 0.15)` is the subtraction of ℕ, which stops at 0.
unfoldable pub record_failure : ℕ → ℕ → Account → Account
unfolding update_latency enter_cooldown
record_failure now latency a =
    let b = update_latency latency (record a {
      total_calls = a.total_calls + 1;
      total_errors = a.total_errors + 1;
      consecutive_failures = a.consecutive_failures + 1;
      health_score = a.health_score - 15;
    }) in
    if leb 5 b.consecutive_failures
    then record b { state = jail }
    else if leb 3 b.consecutive_failures
    then enter_cooldown now 300_000_000 b
    else b

unfoldable pub record_rate_limit : ℕ → Account → Account
unfolding enter_cooldown
record_rate_limit now a =
    let b = record a { consecutive_failures = a.consecutive_failures + 1 } in
    if leb 2 b.consecutive_failures then enter_cooldown now 120_000_000 b else b

unfoldable pub mark_idle : Account → Account
mark_idle a = record a { state = idle; cooldown_until = none; consecutive_failures = 0 }

unfoldable pub mark_active : Account → Account
mark_active a = record a { state = active }

unfoldable pub mark_jail : Account → Account
mark_jail a = record a { state = jail }
