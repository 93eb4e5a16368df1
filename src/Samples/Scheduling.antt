-- ===== src/Samples/Scheduling.antt =====
-- The adaptive scheduler under two loads.
use chat_to_agent.Base.{◌≡◌, refl, [], ◌∷◌}
use chat_to_agent.Intelligence.Scheduling.{SchedulingInputs, new, decide}

abbrev busy : SchedulingInputs
busy = record {
  cpu_percent = 70;
  ram_percent = 50;
  queue_depth = 3;
  provider_reliability = ("claude", 90) ∷ ("gemini", 30) ∷ [];
  target_browsers = 4;
  min_workers = 1;
  max_workers = 16;
}

busy_decision : (decide busy (new 2)).0 ≡ (3, ("claude", 4) ∷ ("gemini", 1) ∷ [])
unfolding decide new
busy_decision = refl
