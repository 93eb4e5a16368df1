-- ===== src/Orchestrator/Resources.antt =====
-- ai_orchestrator/orchestrator/resource_scheduler.py. Memory and cores are whole millionths, of a
-- gigabyte and of a core. The texts that `suggest_action` gives and the report of the usage in
-- percent are left out.
pub mod Admission
use chat_to_agent.Base.{ltb, leb, if◌then◌else◌, ℕ, ◌-◌, ◌*◌, ◌/◌, min, max, Bool, List, [], ◌∷◌}
use chat_to_agent.Models.Task.{TaskPriority, critical, high, normal, low, background}

pub record SystemResources : Type 0 where
  pub total_ram : ℕ
  pub available_ram : ℕ
  pub available_cores : ℕ

pub data WatermarkLevel : Type 0 where
  at_normal at_warning at_cleanup at_emergency at_critical : WatermarkLevel

-- The value of the IntEnum.
abbrev pub rank : WatermarkLevel → ℕ
rank at_normal = 0
rank at_warning = 1
rank at_cleanup = 2
rank at_emergency = 3
rank at_critical = 4

-- The thresholds, the least first, as the reversed list has them.
abbrev thresholds : List (WatermarkLevel × ℕ)
thresholds =
    (at_critical, 250_000)
    ∷ (at_emergency, 500_000)
    ∷ (at_cleanup, 750_000)
    ∷ (at_warning, 1_000_000)
    ∷ []

unfoldable pub first_level : ℕ → List (WatermarkLevel × ℕ) → WatermarkLevel
first_level ram [] = at_normal
first_level ram ((level, threshold) ∷ rest) =
    if leb ram threshold then level else first_level ram rest

unfoldable pub get_watermark_level : ℕ → WatermarkLevel
unfolding first_level
get_watermark_level ram = first_level ram thresholds

abbrev priority_rejection : TaskPriority → WatermarkLevel
priority_rejection critical = at_critical
priority_rejection high = at_emergency
priority_rejection normal = at_emergency
priority_rejection low = at_cleanup
priority_rejection background = at_warning

unfoldable pub can_accept_task : SystemResources → TaskPriority → Bool
unfolding get_watermark_level
can_accept_task r p = ltb (rank (get_watermark_level r.available_ram)) (rank (priority_rejection p))

unfoldable pub should_throttle : SystemResources → Bool
unfolding get_watermark_level
should_throttle r = leb (rank at_emergency) (rank (get_watermark_level r.available_ram))

-- `math.floor((ram - 2.0) / avg)` and `max(…, 0)`: the subtraction of ℕ stops at 0. The average and
-- the other limits are not negative.
unfoldable pub compute_max_agents : ℕ → SystemResources → ℕ → ℕ → ℕ → ℕ
compute_max_agents configured_max r avg_ram browser_max provider_max =
    let ram_limit = (r.available_ram - 2_000_000) / avg_ram in
    let core_limit = r.available_cores * 2 / 1_000_000 in
    max (min ram_limit (min core_limit (min browser_max (min provider_max configured_max)))) 1

unfoldable pub get_active_agent_count : SystemResources → ℕ → ℕ
get_active_agent_count r avg_ram =
    if leb r.total_ram r.available_ram then 0 else (r.total_ram - r.available_ram) / avg_ram
