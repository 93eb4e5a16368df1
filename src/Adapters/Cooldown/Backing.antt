-- ===== src/Adapters/Cooldown/Backing.antt =====
-- How long a provider is refused.
use chat_to_agent.Base.{
  ◌==◌, if◌then◌else◌, ℕ, zero, suc, ◌+◌, ◌-◌, ◌*◌, ◌^◌, min, ◌<◌, String, ◌≡◌, refl, ◌↔◌, true,
  List, [], ◌∷◌, arith, str_eq, eq_iff,
}
use chat_to_agent.Base.Dict.{get, get-put}
use chat_to_agent.Base.Exec.{is_raised}
use chat_to_agent.Adapters.Cooldown.{
  ProviderCooldown, Cooldowns, cooldown_of, change, backoff_of, note_failure, note_success,
  check_cooldown, report_success, report_failure,
}

-- What is reported of providers, and the checks between.
pub data Report : Type 0 where
  failed : ℕ → String → String → Report
  succeeded : String → Report
  checked : ℕ → String → Report

unfoldable pub step : Cooldowns → Report → Cooldowns
step cs (failed now name reason) = report_failure now name reason cs
step cs (succeeded name) = report_success name cs
step cs (checked now name) = (check_cooldown now name cs).1

unfoldable pub run : Cooldowns → List Report → Cooldowns
unfolding step
run cs [] = cs
run cs (r ∷ rs) = run (step cs r) rs

-- The failures of a provider since its last success, and the time of the last, after those given.
abbrev pub streak : String → ℕ × ℕ → List Report → ℕ × ℕ
streak p s [] = s
streak p (n, t) (failed now name reason ∷ rs) =
    streak p (if str_eq name p then (n + 1, now) else (n, t)) rs
streak p (n, t) (succeeded name ∷ rs) = streak p (if str_eq name p then (0, 0) else (n, t)) rs
streak p s (checked now name ∷ rs) = streak p s rs

-- How long so many failures in a row are waited for: 30 seconds, doubled for every further one, and
-- never more than 300.
abbrev pub penalty : ℕ → ℕ
penalty zero = 0
penalty (suc zero) = 30_000_000
penalty (suc (suc n)) = min (2 * penalty (suc n)) 300_000_000

penalty_power : (n : ℕ) → min (30_000_000 * 2 ^ n) 300_000_000 ≡ penalty (suc n)
penalty_power zero = refl
penalty_power (suc n) =
    let doubled : 2 ^ suc n ≡ 2 * 2 ^ n = omega arith in
    rw (← penalty_power n) (ground (arith, doubled))

backoff_of_lem : (n : ℕ) → backoff_of (n + 1) ≡ penalty (n + 1)
backoff_of_lem n =
    let next : n + 1 ≡ suc n = omega arith in
    let before : suc n - 1 ≡ n = omega arith in rw next (rw before (penalty_power n))

-- When the cooldown of such a streak ends.
abbrev pub ends : ℕ × ℕ → ℕ
ends (n, t) = if n == 0 then 0 else t + penalty n

abbrev Tells : String → ℕ × ℕ → Cooldowns → Type 0
Tells p s cs =
    ((cooldown_of p cs).consecutive_failures ≡ s.0) × ((cooldown_of p cs).cooldown_until ≡ ends s)

cooldown_of-change :
    (p q : String) (f : ProviderCooldown → ProviderCooldown) (cs : Cooldowns)
    → cooldown_of p (change q f cs)
      ≡ (if str_eq q p then f (cooldown_of q cs) else cooldown_of p cs)
unfolding change
cooldown_of-change p q f cs = ground (arith, get-put q p (f (cooldown_of q cs)) cs)

run-Tells :
    (p : String) (s : ℕ × ℕ) (cs : Cooldowns) (rs : List Report)
    → Tells p s cs
    → Tells p (streak p s rs) (run cs rs)
unfolding run step report_failure report_success check_cooldown note_failure note_success
run-Tells p s cs [] h = h
run-Tells p (n, t) cs (failed now name reason ∷ rs) h =
    run-Tells p (if str_eq name p then (n + 1, now) else (n, t)) (report_failure now name reason cs)
      rs
      (ground (
        arith,
        h,
        eq_iff name p,
        backoff_of_lem n,
        cooldown_of-change p name (note_failure now reason) cs,
      ))
run-Tells p (n, t) cs (succeeded name ∷ rs) h =
    run-Tells p (if str_eq name p then (0, 0) else (n, t)) (report_success name cs) rs
      (ground (arith, h, eq_iff name p, cooldown_of-change p name note_success cs))
run-Tells p (n, t) cs (checked now name ∷ rs) h =
    run-Tells p (n, t) ((check_cooldown now name cs).1) rs
      (ground (arith, h, eq_iff name p, cooldown_of-change p name (λ c. c) cs))

start : (p : String) → Tells p (0, 0) []
unfolding get
start p = (refl, refl)

-- After any reports to a new engine, a provider is refused exactly until the time of its last failure
-- and 30 seconds doubled for every failure before it since its last success, at most 300 in all; one
-- without a failure since its last success is not refused.
pub check_cooldown_iff :
    (rs : List Report) (p : String) (now : ℕ)
    → (is_raised (check_cooldown now p (run [] rs)).0 ≡ true) ↔ (now < ends (streak p (0, 0) rs))
unfolding check_cooldown
check_cooldown_iff rs p now = ground (arith, run-Tells p (0, 0) [] rs (start p))
