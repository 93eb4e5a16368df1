-- ===== src/Samples/Health.antt =====
-- The health of two providers after a few reports.
use chat_to_agent.Base.{◌≡◌, refl, List, [], ◌∷◌}
use chat_to_agent.Orchestrator.Health.{
  new, get_dashboard, record_success, record_failure, record_popup,
}
use chat_to_agent.Orchestrator.Health.Counts.{Report, success, failure, popup, run}

abbrev reports : List Report
reports =
    success 1 "claude" 700
    ∷ failure 2 "claude" "timeout"
    ∷ popup "gemini"
    ∷ success 3 "claude" 500
    ∷ []

one_degraded :
    ((get_dashboard (run [] reports)).degraded_count ≡ 1)
    × ((get_dashboard (run [] reports)).untested_count ≡ 1)
unfolding get_dashboard record_success record_failure record_popup new
one_degraded = (refl, refl)
