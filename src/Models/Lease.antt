-- ===== src/Models/Lease.antt =====
-- ai_orchestrator/models/lease.py. The clock is an argument, in microseconds; `ttl_seconds` is in
-- seconds, as in the source.
pub mod Expiry
use chat_to_agent.Base.{
  ℕ, suc, ◌+◌, ◌*◌, Bool, true, false, ◌&&◌, Option, none, some, String, ltb, leb, if◌then◌else◌,
}

pub data LeaseState : Type 0 where
  requested active renewing expired released : LeaseState

pub record Lease : Type 0 where
  pub id : String
  pub account_id : String
  pub task_id : String
  pub agent_id : String
  pub state : LeaseState
  pub acquired_at : Option ℕ
  pub expires_at : Option ℕ
  pub heartbeat_at : Option ℕ
  pub ttl_seconds : ℕ
  pub renewal_count : ℕ
  pub max_renewals : ℕ

-- `Lease(account_id=…, task_id=…, agent_id=…)`; the identifier is what `uuid4` gave.
unfoldable pub new : String → String → String → String → Lease
new lease_id account task agent = record {
  id = lease_id;
  account_id = account;
  task_id = task;
  agent_id = agent;
  state = requested;
  acquired_at = none;
  expires_at = none;
  heartbeat_at = none;
  ttl_seconds = 300;
  renewal_count = 0;
  max_renewals = 5;
}

abbrev pub is_active : LeaseState → Bool
is_active active = true
is_active _ = false

unfoldable pub activate : ℕ → Lease → Lease
activate now l = record l {
  state = active;
  acquired_at = some now;
  expires_at = some (now + l.ttl_seconds * 1_000_000);
  heartbeat_at = some now;
}

-- remaining < ttl * 0.5, where `remaining` is `expires_at - now` in seconds, negative once the
-- deadline has passed, and 0 with no deadline.
abbrev below_half : ℕ → Option ℕ → ℕ → Bool
below_half now (some t) ttl = ltb t (now + ttl * 500_000)
below_half now none ttl = ltb 0 (ttl * 500_000)

unfoldable pub heartbeat : ℕ → Lease → Lease
heartbeat now l =
    let b = record l { heartbeat_at = some now } in
    if below_half now l.expires_at l.ttl_seconds
    then record b { expires_at = some (now + l.ttl_seconds * 1_000_000) }
    else b

-- The state passes through RENEWING and is ACTIVE again when the method returns.
unfoldable pub renew : ℕ → Lease → Bool × Lease
renew now l =
    if leb l.max_renewals l.renewal_count
    then (false, l)
    else (let b = record l {
      state = renewing;
      renewal_count = l.renewal_count + 1;
      expires_at = some (now + l.ttl_seconds * 1_000_000);
      heartbeat_at = some now;
    } in
        (true, record b { state = active }))

unfoldable pub release : Lease → Lease
release l = record l { state = released }

-- self.expires_at and now > self.expires_at
abbrev pub past : ℕ → Option ℕ → Bool
past now none = false
past now (some t) = ltb t now

unfoldable pub check_expired : ℕ → Lease → Bool × Lease
check_expired now l =
    if is_active l.state && past now l.expires_at
    then (true, record l { state = expired })
    else (false, l)

unfoldable pub expire : Lease → Lease
expire l = if is_active l.state then record l { state = expired } else l

unfoldable pub is_alive : ℕ → Lease → Bool
is_alive now l =
    if is_active l.state then (if past now l.expires_at then false else true) else false
