-- ===== src/Adapters/Cooldown.antt =====
-- The cooldown of providers and the choice of a recovery in ai_orchestrator/adapters/recovery_engine.py.
-- What the browser did is an argument of the choice: its steps are tried in order, and each may fail.
pub mod Backing
use chat_to_agent.Base.{
  ltb, leb, ◌==◌, if◌then◌else◌, truthy, ℕ, ◌+◌, ◌-◌, ◌*◌, ◌^◌, min, String, Bool, ◌&&◌, ◌||◌,
  Option, none, some,
}
use chat_to_agent.Base.Dict.{Dict, get, put}
use chat_to_agent.Base.Exec.{Outcome, returned, raised}

pub data RecoveryAction : Type 0 where
  retry dismiss_popup refresh_page reload_cookies new_context provider_cooldown : RecoveryAction

-- The error carries when the cooldown ends.
pub data CooldownError : Type 0 where
  cooldown_error : String → ℕ → CooldownError

pub record ProviderCooldown : Type 0 where
  pub provider : String
  pub cooldown_until : ℕ
  pub consecutive_failures : ℕ
  pub last_failure_reason : String

abbrev pub no_cooldown : String → ProviderCooldown
no_cooldown name = record {
  provider = name;
  cooldown_until = 0;
  consecutive_failures = 0;
  last_failure_reason = "";
}

abbrev pub is_on_cooldown : ℕ → ProviderCooldown → Bool
is_on_cooldown now c = ltb now c.cooldown_until

-- min(30 * 2 ** (failures - 1), 300) seconds
abbrev pub backoff_of : ℕ → ℕ
backoff_of failures = min (30_000_000 * 2 ^ (failures - 1)) 300_000_000

unfoldable pub note_failure : ℕ → String → ProviderCooldown → ProviderCooldown
note_failure now reason c = record c {
  consecutive_failures = c.consecutive_failures + 1;
  last_failure_reason = reason;
  cooldown_until = now + backoff_of (c.consecutive_failures + 1);
}

unfoldable pub note_success : ProviderCooldown → ProviderCooldown
note_success c = record c { consecutive_failures = 0; cooldown_until = 0; last_failure_reason = "" }

abbrev pub Cooldowns : Type 0
Cooldowns = Dict ProviderCooldown

-- The result of `_ensure`.
abbrev pub cooldown_of : String → Cooldowns → ProviderCooldown
cooldown_of name cs = truthy (get name cs) (no_cooldown name)

-- `_ensure`, and a change of the cooldown.
unfoldable pub change : String → (ProviderCooldown → ProviderCooldown) → Cooldowns → Cooldowns
unfolding get put
change name f cs = put name (f (cooldown_of name cs)) cs

unfoldable pub check_cooldown :
    ℕ → String → Cooldowns → Outcome CooldownError (Unit {0}) × Cooldowns
unfolding change
check_cooldown now name cs =
    let c = cooldown_of name cs in
    (
      if is_on_cooldown now c then raised (cooldown_error name c.cooldown_until) else returned tt,
      change name (λ x. x) cs,
    )

unfoldable pub report_success : String → Cooldowns → Cooldowns
unfolding change note_success
report_success name = change name note_success

unfoldable pub report_failure : ℕ → String → String → Cooldowns → Cooldowns
unfolding change note_failure
report_failure now name reason = change name (note_failure now reason)

-- What is known of a failed send, and what the browser's steps would do; a step that raises has not
-- been done.
pub record Failure : Type 0 where
  pub is_cloudflare_block : Bool
  pub mentions_captcha : Bool
  pub is_authentication : Bool
  pub has_page : Bool
  pub has_context : Bool
  pub popup_dismissed : Bool
  pub page_reloaded : Bool
  pub cookies_refreshed : Bool

unfoldable pub attempt_recovery : Failure → ℕ → Option RecoveryAction
attempt_recovery f attempt =
    if f.is_cloudflare_block || f.mentions_captcha || leb 3 attempt
    then none
    else if (attempt == 1) && f.has_page && f.popup_dismissed
    then some dismiss_popup
    else if (attempt == 2) && f.has_page && f.page_reloaded
    then some refresh_page
    else if f.is_authentication && leb 2 attempt && f.cookies_refreshed
    then some reload_cookies
    else if leb 2 attempt && f.has_context
    then some new_context
    else none
