-- ===== src/Samples/Cooldown.antt =====
-- A provider that fails three times, and one that succeeds again.
use chat_to_agent.Base.{◌<◌, ◌≡◌, refl, ◌↔◌, true, false, some, List, [], ◌∷◌, arith}
use chat_to_agent.Base.Exec.{is_raised}
use chat_to_agent.Adapters.Cooldown.{check_cooldown, attempt_recovery, Failure, refresh_page}
use chat_to_agent.Adapters.Cooldown.Backing.{
  Report, failed, succeeded, run, streak, ends, check_cooldown_iff,
}

abbrev reports : List Report
reports =
    failed 1_000_000 "kimi_ui" "timeout"
    ∷ failed 2_000_000 "qwen_ui" "timeout"
    ∷ failed 3_000_000 "kimi_ui" "timeout"
    ∷ succeeded "qwen_ui"
    ∷ failed 5_000_000 "kimi_ui" "timeout"
    ∷ []

check_cooldown_iff_example :
    (is_raised (check_cooldown 100_000_000 "kimi_ui" (run [] reports)).0 ≡ true)
    ↔ (100_000_000 < ends (streak "kimi_ui" (0, 0) reports))
check_cooldown_iff_example = check_cooldown_iff reports "kimi_ui" 100_000_000

two_minutes : ends (streak "kimi_ui" (0, 0) reports) ≡ 125_000_000
two_minutes = refl

forgiven : ends (streak "qwen_ui" (0, 0) reports) ≡ 0
forgiven = refl

-- The second attempt after a failed log-in reloads the page, and leaves the cookies.
login_reloads :
    (f : Failure)
    → f.is_cloudflare_block ≡ false
    → f.mentions_captcha ≡ false
    → f.has_page ≡ true
    → f.page_reloaded ≡ true
    → attempt_recovery f 2 ≡ some refresh_page
unfolding attempt_recovery
login_reloads f c m h r = ground (arith, c, m, h, r)
