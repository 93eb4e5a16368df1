-- ===== src/Orchestrator/Resources/Admission.antt =====
-- Which tasks are accepted at which memory, and how many agents fit.
use chat_to_agent.Base.{ℕ, ◌+◌, ◌-◌, ◌*◌, ◌≤◌, ◌<◌, ◌≡◌, ◌↔◌, true, arith}
use native.Mathlib.Nat.{le-div_iff_mul-le}
use chat_to_agent.Models.Task.{TaskPriority, critical, high, normal, low, background}
use chat_to_agent.Orchestrator.Resources.{SystemResources, can_accept_task, compute_max_agents}

-- The memory below or at which tasks of this priority are turned away.
abbrev pub needed : TaskPriority → ℕ
needed critical = 250_000
needed high = 500_000
needed normal = 500_000
needed low = 750_000
needed background = 1_000_000

-- A task is accepted exactly when the available memory is above 0.25 GB for the priority CRITICAL,
-- 0.5 for HIGH and for NORMAL, 0.75 for LOW and 1 for BACKGROUND.
pub can_accept_task_iff :
    (r : SystemResources) (p : TaskPriority)
    → (can_accept_task r p ≡ true) ↔ (needed p < r.available_ram)
unfolding can_accept_task
can_accept_task_iff r critical = ground arith
can_accept_task_iff r high = ground arith
can_accept_task_iff r normal = ground arith
can_accept_task_iff r low = ground arith
can_accept_task_iff r background = ground arith

-- One agent is always allowed. Two or more are, if every agent has some memory on average, exactly
-- when their memory fits beside two gigabytes in what is available, there is half a core for each,
-- and no configured limit is exceeded.
pub compute_max_agents_iff :
    (c : ℕ) (r : SystemResources) (avg b p n : ℕ)
    → 1 ≤ avg
    → 2 ≤ n
    → (1 ≤ compute_max_agents c r avg b p)
      × ((n ≤ compute_max_agents c r avg b p) ↔ (
          (n * avg + 2_000_000 ≤ r.available_ram)
          × (n * 500_000 ≤ r.available_cores)
          × (n ≤ b)
          × (n ≤ p)
          × (n ≤ c)))
unfolding compute_max_agents
compute_max_agents_iff c r avg b p n h two = ground (
  arith,
  le-div_iff_mul-le {k = avg} {x = n} {y = r.available_ram - 2_000_000} h,
  le-div_iff_mul-le {k = 1_000_000} {x = n} {y = r.available_cores * 2} (omega arith),
)
