-- ===== src/Orchestrator/Health.antt =====
-- ai_orchestrator/orchestrator/provider_health.py. The clock readings are arguments, in microseconds;
-- a latency is a whole number of the caller's unit, and a rate is compared by its parts. The rounded
-- figures of the report are left out.
pub mod Counts
use chat_to_agent.Base.{leb, ◌==◌, if◌then◌else◌, truthy, length, ℕ, ◌+◌, ◌*◌, String, [], ◌∷◌}
use chat_to_agent.Base.Dict.{Dict, get, put, values}

pub record ProviderMetrics : Type 0 where
  pub provider : String
  pub success_count : ℕ
  pub failure_count : ℕ
  pub auth_success_count : ℕ
  pub auth_failure_count : ℕ
  pub total_latency : ℕ
  pub captcha_count : ℕ
  pub popup_count : ℕ
  pub recovery_count : ℕ
  pub last_error : String
  pub last_error_at : ℕ
  pub last_success_at : ℕ

-- `ProviderMetrics(provider=…)`
unfoldable pub new : String → ProviderMetrics
new name = record {
  provider = name;
  success_count = 0;
  failure_count = 0;
  auth_success_count = 0;
  auth_failure_count = 0;
  total_latency = 0;
  captcha_count = 0;
  popup_count = 0;
  recovery_count = 0;
  last_error = "";
  last_error_at = 0;
  last_success_at = 0;
}

pub data StatusLabel : Type 0 where
  untested healthy degraded unhealthy : StatusLabel

-- The rate of successes is at least 0.8, or at least 0.5, of all attempts.
unfoldable pub status_label : ProviderMetrics → StatusLabel
status_label m =
    let total = m.success_count + m.failure_count in
    if total == 0
    then untested
    else if leb (8 * total) (10 * m.success_count)
    then healthy
    else if leb (5 * total) (10 * m.success_count)
    then degraded
    else unhealthy

-- `ProviderHealthTracker`: the dictionary `_metrics`.
abbrev pub Tracker : Type 0
Tracker = Dict ProviderMetrics

-- The metrics that `_ensure` returns; the entry that it makes is written by `update`.
abbrev pub metrics_of : String → Tracker → ProviderMetrics
metrics_of name t = truthy (get name t) (new name)

-- `_ensure`, and a change of the metrics under the lock.
unfoldable pub update : String → (ProviderMetrics → ProviderMetrics) → Tracker → Tracker
unfolding get put
update name change t = put name (change (metrics_of name t)) t

unfoldable pub record_success : ℕ → String → ℕ → Tracker → Tracker
unfolding update
record_success now name latency = update name λ m. record m {
  success_count = m.success_count + 1;
  total_latency = m.total_latency + latency;
  last_success_at = now;
}

unfoldable pub record_failure : ℕ → String → String → Tracker → Tracker
unfolding update
record_failure now name message =
    update name λ m. record m {
      failure_count = m.failure_count + 1;
      last_error = message;
      last_error_at = now;
    }

unfoldable pub record_auth_success : String → Tracker → Tracker
unfolding update
record_auth_success name =
    update name λ m. record m { auth_success_count = m.auth_success_count + 1 }

unfoldable pub record_auth_failure : String → Tracker → Tracker
unfolding update
record_auth_failure name =
    update name λ m. record m { auth_failure_count = m.auth_failure_count + 1 }

unfoldable pub record_captcha : String → Tracker → Tracker
unfolding update
record_captcha name = update name λ m. record m { captcha_count = m.captcha_count + 1 }

unfoldable pub record_popup : String → Tracker → Tracker
unfolding update
record_popup name = update name λ m. record m { popup_count = m.popup_count + 1 }

unfoldable pub record_recovery : String → Tracker → Tracker
unfolding update
record_recovery name = update name λ m. record m { recovery_count = m.recovery_count + 1 }

unfoldable pub get_metrics : String → Tracker → ProviderMetrics × Tracker
unfolding update
get_metrics name t = (metrics_of name t, update name (λ m. m) t)

abbrev is_labelled : StatusLabel → StatusLabel → ℕ
is_labelled healthy healthy = 1
is_labelled degraded degraded = 1
is_labelled unhealthy unhealthy = 1
is_labelled untested untested = 1
is_labelled a b = 0

-- `sum(1 for m in all_metrics.values() if m["status"] == label)`
unfoldable pub count_labelled : StatusLabel → Tracker → ℕ
unfolding status_label
count_labelled label [] = 0
count_labelled label ((name, m) ∷ t) = is_labelled label (status_label m) + count_labelled label t

pub record Dashboard : Type 0 where
  pub total_providers : ℕ
  pub healthy_count : ℕ
  pub degraded_count : ℕ
  pub unhealthy_count : ℕ
  pub untested_count : ℕ

-- The summary of `get_dashboard`.
unfoldable pub get_dashboard : Tracker → Dashboard
unfolding count_labelled
get_dashboard t = record {
  total_providers = length t;
  healthy_count = count_labelled healthy t;
  degraded_count = count_labelled degraded t;
  unhealthy_count = count_labelled unhealthy t;
  untested_count = count_labelled untested t;
}
