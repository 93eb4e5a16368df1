-- ===== src/Models/Account/Escalation.antt =====
-- Failures in a row, and the states that they lead to.
use chat_to_agent.Base.{
  ℕ, ◌+◌, ◌*◌, ◌-◌, ◌≤◌, ◌≡◌, true, false, List, [], ◌∷◌, arith, length, leb, if◌then◌else◌,
}
use chat_to_agent.Models.Account.{
  Account, AccountState, warmup, active, cooldown, jail, is_available, record_success,
  record_failure, record_rate_limit,
}

-- The state after the k-th failure in a row.
abbrev pub escalated : ℕ → AccountState → AccountState
escalated k s = if leb 5 k then jail else if leb 3 k then cooldown else s

-- Failures in a row, each at its time and with its latency.
pub fail_all : Account → List (ℕ × ℕ) → Account
fail_all a [] = a
fail_all a ((now, latency) ∷ es) = fail_all (record_failure now latency a) es

record_failure-fields :
    (now latency : ℕ) (a : Account)
    → ((record_failure now latency a).consecutive_failures ≡ a.consecutive_failures + 1)
      × ((record_failure now latency a).health_score ≡ a.health_score - 15)
      × ((record_failure now latency a).state ≡ escalated (a.consecutive_failures + 1) a.state)
unfolding record_failure
record_failure-fields now latency a = ground arith

fail_all_from :
    (a : Account) (s : AccountState) (es : List (ℕ × ℕ))
    → a.state ≡ escalated a.consecutive_failures s
    → ((fail_all a es).state ≡ escalated (a.consecutive_failures + length es) s)
      × ((fail_all a es).health_score ≡ a.health_score - 15 * length es)
unfolding fail_all
fail_all_from a s [] h = ground arith
fail_all_from a s ((now, latency) ∷ es) h =
    ground (
      arith,
      record_failure-fields now latency a,
      fail_all_from (record_failure now latency a) s es,
    )

-- From an account with no failure on record, the state after k failures in a row is JAIL from the
-- fifth on, COOLDOWN from the third, and unchanged before; each costs 0.15 of health, down to 0.
pub fail_all-escalated :
    (a : Account) (es : List (ℕ × ℕ))
    → a.consecutive_failures ≡ 0
    → ((fail_all a es).state ≡ escalated (length es) a.state)
      × ((fail_all a es).health_score ≡ a.health_score - 15 * length es)
fail_all-escalated a es h = ground (arith, fail_all_from a a.state es)

-- A jailed account with a failure on record that then meets a rate limit is sent to COOLDOWN, and
-- two minutes later it is available again.
pub record_rate_limit_unjails :
    (now later : ℕ) (a : Account)
    → a.state ≡ jail
    → 1 ≤ a.consecutive_failures
    → now + 120_000_000 ≤ later
    → (is_available later a ≡ false) × (is_available later (record_rate_limit now a) ≡ true)
unfolding is_available record_rate_limit
record_rate_limit_unjails now later a j f h = ground arith

-- The successes of an account in a row, with these latencies.
pub succeed_all : Account → List ℕ → Account
succeed_all a [] = a
succeed_all a (latency ∷ ls) = succeed_all (record_success latency a) ls

record_success-warm :
    (latency : ℕ) (a : Account)
    → a.state ≡ warmup
    → ((record_success latency a).total_warmup_steps ≡ a.total_warmup_steps)
      × ((record_success latency a).warmup_steps_completed ≡ a.warmup_steps_completed + 1)
      × ((record_success latency a).state
          ≡ (if leb a.total_warmup_steps (a.warmup_steps_completed + 1) then active else warmup))
unfolding record_success
record_success-warm latency a w = ground arith

record_success-active :
    (latency : ℕ) (a : Account) → a.state ≡ active → (record_success latency a).state ≡ active
unfolding record_success
record_success-active latency a w = ground arith

succeed_all-active :
    (a : Account) (ls : List ℕ) → a.state ≡ active → (succeed_all a ls).state ≡ active
unfolding succeed_all
succeed_all-active a [] h = h
succeed_all-active a (l ∷ ls) h =
    succeed_all-active (record_success l a) ls (record_success-active l a h)

-- An account in WARMUP stays there, and available, until its successes reach its number of warm-up
-- steps; from then on it is ACTIVE, and so never available.
pub succeed_all-warmup :
    (a : Account) (l : ℕ) (ls : List ℕ) (now : ℕ)
    → a.state ≡ warmup
    → let b = succeed_all a (l ∷ ls) in
      (b.state ≡ (
        if leb a.total_warmup_steps (a.warmup_steps_completed + length (l ∷ ls))
        then active
        else warmup))
      × (is_available now b ≡ (
          if leb a.total_warmup_steps (a.warmup_steps_completed + length (l ∷ ls))
          then false
          else true))
unfolding succeed_all is_available
succeed_all-warmup a l [] now h = ground (arith, record_success-warm l a h)
succeed_all-warmup a l (l' ∷ ls) now h = ground (
  arith,
  record_success-warm l a h,
  succeed_all-warmup (record_success l a) l' ls now,
  succeed_all-active (record_success l a) (l' ∷ ls),
)
