-- ===== src/Models/Account/Records.antt =====
-- What an account's counters, health score and average latency stand for, over any history.
use native.Mathlib.Nat.{add-zero, zero-add, add_assoc}
use native.Mathlib.Numerals.{add-one}
use chat_to_agent.Base.{
  String, inl, inr, Bool-cases, ℕ, ◌+◌, ◌≤◌, List, [], ◌∷◌, arith, ltb, if◌then◌else◌,
}
use chat_to_agent.Base.Fraction.{Fraction, IsMean, running_mean, running_mean-IsMean}
use chat_to_agent.Models.Account.{
  Account, AccountState, new, record_success, record_failure, record_rate_limit, mark_idle,
  mark_active, mark_jail,
}

-- What the rest of the program asks of an account, with the time where the method reads the clock.
pub data Call : Type 0 where
  succeeds : ℕ → Call
  fails : ℕ → ℕ → Call
  limited : ℕ → Call
  idles activates jails : Call

unfoldable pub step : Account → Call → Account
step a (succeeds latency) = record_success latency a
step a (fails now latency) = record_failure now latency a
step a (limited now) = record_rate_limit now a
step a idles = mark_idle a
step a activates = mark_active a
step a jails = mark_jail a

unfoldable pub run : Account → List Call → Account
run a [] = a
run a (c ∷ cs) = run (step a c) cs

-- The positive latencies that a history reports, added up.
abbrev pub latency_of : Call → ℕ
latency_of (succeeds latency) = latency
latency_of (fails now latency) = latency
latency_of _ = 0

abbrev pub total_latency : List Call → ℕ
total_latency [] = 0
total_latency (c ∷ cs) = latency_of c + total_latency cs

-- `total` is the sum of the latencies that the account has averaged.
pub record IsConsistent (total : ℕ) (a : Account) : Type 0 where
  pub health : a.health_score ≤ 100
  pub errors : a.total_errors ≤ a.total_calls
  pub mean : IsMean a.avg_latency a.avg_latency_samples total

IsMean-of_update :
    (q : Fraction) (n total latency : ℕ)
    → IsMean q n total
    → IsMean
        (if ltb 0 latency then running_mean q n latency else q)
        (if ltb 0 latency then n + 1 else n)
        (total + latency)
IsMean-of_update q n total latency h = elim (Bool-cases (ltb 0 latency)) [
  | inl e ↦ rw (e, add-one n) (running_mean-IsMean q n total latency h)
  | inr e ↦ rw e (ground (arith, h.positive, h.exact, e))
]

step-IsConsistent :
    (total : ℕ) (a : Account) (c : Call)
    → IsConsistent total a
    → IsConsistent (total + latency_of c) (step a c)
unfolding step record_success record_failure record_rate_limit mark_idle mark_active mark_jail
step-IsConsistent total a (succeeds latency) h =
    ground (arith, IsMean-of_update a.avg_latency a.avg_latency_samples total latency h.mean)
step-IsConsistent total a (fails now latency) h =
    ground (arith, IsMean-of_update a.avg_latency a.avg_latency_samples total latency h.mean)
step-IsConsistent total a c h = ground arith

run-IsConsistent :
    (total : ℕ) (a : Account) (cs : List Call)
    → IsConsistent total a
    → IsConsistent (total + total_latency cs) (run a cs)
unfolding run
run-IsConsistent total a [] h = rw add-zero h
run-IsConsistent total a (c ∷ cs) h =
    rw (← add_assoc total (latency_of c) (total_latency cs))
      (run-IsConsistent (total + latency_of c) (step a c) cs (step-IsConsistent total a c h))

-- After any calls on a new account its health score is at most 1, it has no more errors than calls,
-- and its average latency is the sum of the positive latencies reported over their number.
pub new-run-IsConsistent :
    (i p : String) (s : AccountState) (limit : ℕ) (cs : List Call)
    → IsConsistent (total_latency cs) (run (new i p s limit) cs)
unfolding new
new-run-IsConsistent i p s limit cs = rw (← zero-add (total_latency cs)) (
    run-IsConsistent 0 (new i p s limit) cs (record {
      health = omega arith;
      errors = omega arith;
      mean = record { positive = omega arith; exact = omega arith };
    }))
