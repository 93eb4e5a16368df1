-- ===== src/Intelligence/Scheduling.antt =====
-- ai_orchestrator/browser_intelligence/scheduling/__init__.py. Loads are whole percents, the health of
-- the system is counted in thousandths, reliabilities and their thresholds in hundredths. The tick
-- interval, which takes a logarithm, the reasons and the time of the decision are left out.
pub mod Workers
use chat_to_agent.Base.{
  ltb, leb, if◌then◌else◌, ℕ, ◌+◌, ◌-◌, ◌*◌, ◌/◌, min, max, Option, none, some, [], ◌∷◌, map,
}
use chat_to_agent.Base.Dict.{Dict}

pub record SchedulingInputs : Type 0 where
  pub cpu_percent : ℕ
  pub ram_percent : ℕ
  pub queue_depth : ℕ
  pub provider_reliability : Dict ℕ
  pub target_browsers : ℕ
  pub min_workers : ℕ
  pub max_workers : ℕ

-- `0.4 * cpu_term + 0.6 * ram_term`: the subtraction of ℕ stops at 0, as `max(0.0, …)` does.
unfoldable pub health_score : SchedulingInputs → ℕ
health_score i = 4 * (100 - i.cpu_percent) + 6 * (100 - i.ram_percent)

-- The workers wanted for the health of the system.
unfoldable pub desired_workers : ℕ → SchedulingInputs → ℕ
desired_workers health i =
    if leb 700 health
    then i.target_browsers
    else if leb 400 health
    then max i.min_workers (i.target_browsers / 2)
    else i.min_workers

-- More for a queue that is longer than that. Where `max_workers - desired` would be negative, both
-- it and the 0 that ℕ has lead to `max_workers`.
unfoldable pub with_pressure : ℕ → SchedulingInputs → ℕ
with_pressure desired i =
    if ltb desired i.queue_depth
    then (let extra = min (i.max_workers - desired) (max 1 ((i.queue_depth - desired) / 2)) in
        min i.max_workers (desired + extra))
    else desired

unfoldable pub worker_count : SchedulingInputs → ℕ
unfolding health_score desired_workers with_pressure
worker_count i =
    max i.min_workers (min i.max_workers (with_pressure (desired_workers (health_score i) i) i))

pub record AdaptiveScheduler : Type 0 where
  pub default_concurrency : ℕ
  pub high_reliability : ℕ
  pub low_reliability : ℕ
  pub last_decision : Option (ℕ × Dict ℕ)
  pub last_inputs : Option SchedulingInputs

-- `AdaptiveScheduler(default_concurrency=…)`
unfoldable pub new : ℕ → AdaptiveScheduler
new concurrency = record {
  default_concurrency = max 1 concurrency;
  high_reliability = 85;
  low_reliability = 40;
  last_decision = none;
  last_inputs = none;
}

unfoldable pub concurrency_of : AdaptiveScheduler → ℕ → ℕ
concurrency_of s rel =
    if leb s.high_reliability rel
    then max 1 (s.default_concurrency + 2)
    else if leb rel s.low_reliability
    then 1
    else s.default_concurrency

-- `conc or {"_default": …}`
abbrev or_default : ℕ → Dict ℕ → Dict ℕ
or_default n [] = ("_default", n) ∷ []
or_default n (e ∷ es) = e ∷ es

unfoldable pub concurrency_limits : AdaptiveScheduler → Dict ℕ → Dict ℕ
unfolding concurrency_of
concurrency_limits s rels =
    or_default s.default_concurrency (map (λ e. (e.0, concurrency_of s e.1)) rels)

-- The decision is the number of workers and the limits of the providers.
unfoldable pub decide : SchedulingInputs → AdaptiveScheduler → (ℕ × Dict ℕ) × AdaptiveScheduler
unfolding worker_count concurrency_limits
decide i s =
    let d : ℕ × Dict ℕ = (worker_count i, concurrency_limits s i.provider_reliability) in
    (d, record s { last_decision = some d; last_inputs = some i })

unfoldable pub reset : AdaptiveScheduler → AdaptiveScheduler
reset s = record s { last_decision = none; last_inputs = none }
