-- ===== src/Orchestrator/Health/Counts.antt =====
-- What the tracker knows of a provider after a history of reports, and what the dashboard adds up.
use chat_to_agent.Base.{
  if◌then◌else◌, to_ℕ, length, ℕ, ◌+◌, String, ◌≡◌, List, [], ◌∷◌, arith, str_eq, eq_iff,
}
use chat_to_agent.Base.Dict.{get, get-put}
use chat_to_agent.Orchestrator.Health.{
  ProviderMetrics, Tracker, metrics_of, new, update, record_success, record_failure,
  record_auth_success, record_auth_failure, record_captcha, record_popup, record_recovery,
  get_metrics, count_labelled, get_dashboard, healthy, degraded, unhealthy, untested,
}

-- A report on a provider.
pub data Report : Type 0 where
  success : ℕ → String → ℕ → Report
  failure : ℕ → String → String → Report
  auth_success auth_failure captcha popup recovery look : String → Report

abbrev pub step : Tracker → Report → Tracker
step t (success now p latency) = record_success now p latency t
step t (failure now p message) = record_failure now p message t
step t (auth_success p) = record_auth_success p t
step t (auth_failure p) = record_auth_failure p t
step t (captcha p) = record_captcha p t
step t (popup p) = record_popup p t
step t (recovery p) = record_recovery p t
step t (look p) = (get_metrics p t).1

abbrev pub run : Tracker → List Report → Tracker
run t [] = t
run t (r ∷ rs) = run (step t r) rs

-- The successes and the failures of a provider among the reports, and the latency of the successes.
abbrev pub successes : String → List Report → ℕ
successes p [] = 0
successes p (success now q latency ∷ rs) = to_ℕ (str_eq q p) + successes p rs
successes p (_ ∷ rs) = successes p rs

abbrev pub failures : String → List Report → ℕ
failures p [] = 0
failures p (failure now q message ∷ rs) = to_ℕ (str_eq q p) + failures p rs
failures p (_ ∷ rs) = failures p rs

abbrev pub latencies : String → List Report → ℕ
latencies p [] = 0
latencies p (success now q latency ∷ rs) = (if str_eq q p then latency else 0) + latencies p rs
latencies p (_ ∷ rs) = latencies p rs

metrics_of-update :
    (p q : String) (f : ProviderMetrics → ProviderMetrics) (t : Tracker)
    → metrics_of p (update q f t) ≡ (if str_eq q p then f (metrics_of q t) else metrics_of p t)
unfolding update
metrics_of-update p q f t = ground (arith, get-put q p (f (metrics_of q t)) t)

-- The three figures after the reports, from what they were.
abbrev pub IsTallied : String → Tracker → List Report → ProviderMetrics → Type 0
IsTallied p t rs m =
    (m.success_count ≡ (metrics_of p t).success_count + successes p rs)
    × (m.failure_count ≡ (metrics_of p t).failure_count + failures p rs)
    × (m.total_latency ≡ (metrics_of p t).total_latency + latencies p rs)

step-IsTallied :
    (p : String) (t : Tracker) (r : Report) → IsTallied p t (r ∷ []) (metrics_of p (step t r))
unfolding record_success record_failure record_auth_success record_auth_failure record_captcha
    record_popup record_recovery get_metrics
step-IsTallied p t (success now q latency) = ground (
  arith,
  eq_iff q p,
  metrics_of-update p q
      (λ m. record m {
        success_count = m.success_count + 1;
        total_latency = m.total_latency + latency;
        last_success_at = now;
      })
      t,
)
step-IsTallied p t (failure now q message) = ground (
  arith,
  eq_iff q p,
  metrics_of-update p q
      (λ m. record m {
        failure_count = m.failure_count + 1;
        last_error = message;
        last_error_at = now;
      })
      t,
)
step-IsTallied p t (auth_success q) = ground (
  arith,
  eq_iff q p,
  metrics_of-update p q (λ m. record m { auth_success_count = m.auth_success_count + 1 }) t,
)
step-IsTallied p t (auth_failure q) = ground (
  arith,
  eq_iff q p,
  metrics_of-update p q (λ m. record m { auth_failure_count = m.auth_failure_count + 1 }) t,
)
step-IsTallied p t (captcha q) = ground (
  arith,
  eq_iff q p,
  metrics_of-update p q (λ m. record m { captcha_count = m.captcha_count + 1 }) t,
)
step-IsTallied p t (popup q) =
    ground (
      arith,
      eq_iff q p,
      metrics_of-update p q (λ m. record m { popup_count = m.popup_count + 1 }) t,
    )
step-IsTallied p t (recovery q) = ground (
  arith,
  eq_iff q p,
  metrics_of-update p q (λ m. record m { recovery_count = m.recovery_count + 1 }) t,
)
step-IsTallied p t (look q) = ground (arith, eq_iff q p, metrics_of-update p q (λ m. m) t)

tally-cons :
    (p : String) (r : Report) (rs : List Report)
    → (successes p (r ∷ rs) ≡ successes p (r ∷ []) + successes p rs)
      × (failures p (r ∷ rs) ≡ failures p (r ∷ []) + failures p rs)
      × (latencies p (r ∷ rs) ≡ latencies p (r ∷ []) + latencies p rs)
tally-cons p (success now q latency) rs = omega arith
tally-cons p (failure now q message) rs = omega arith
tally-cons p _ rs = omega arith

pub run-IsTallied :
    (p : String) (t : Tracker) (rs : List Report) → IsTallied p t rs (metrics_of p (run t rs))
run-IsTallied p t [] = omega arith
run-IsTallied p t (r ∷ rs) =
    omega (arith, step-IsTallied p t r, run-IsTallied p (step t r) rs, tally-cons p r rs)

labels-sum :
    (t : Tracker)
    → count_labelled healthy t
        + count_labelled degraded t
        + count_labelled unhealthy t
        + count_labelled untested t
      ≡ length t
unfolding count_labelled
labels-sum [] = omega arith
labels-sum ((name, m) ∷ t) = ground (arith, labels-sum t)

-- After any reports to an empty tracker, a provider has as many successes and failures as were
-- reported of it, and the latency of those successes; and the four counts of the dashboard add up to
-- its number of providers.
pub run-tallied :
    (p : String) (rs : List Report)
    → let m = metrics_of p (run [] rs) in
      let d = get_dashboard (run [] rs) in
      (m.success_count ≡ successes p rs)
      × (m.failure_count ≡ failures p rs)
      × (m.total_latency ≡ latencies p rs)
      × (d.healthy_count + d.degraded_count + d.unhealthy_count + d.untested_count
          ≡ d.total_providers)
unfolding get_dashboard new get
run-tallied p rs =
    let (s, f, l) = run-IsTallied p [] rs in
    (omega arith, omega arith, omega arith, labels-sum (run [] rs))
