-- ===== src/Samples/Models.antt =====
-- Tasks, accounts and leases in small histories.
use chat_to_agent.Base.{ℕ, ◌≡◌, refl, true, false, List, [], ◌∷◌, some, arith}
use chat_to_agent.Base.Exec.{raised}
use chat_to_agent.Models.Task.{
  Task, idle, planning, executing, done, dlq, halted, failed, normal, interactive, is_final,
  mark_failed, transition_to, value_error,
}
use chat_to_agent.Models.Task
use chat_to_agent.Models.Task.Lifecycle.{transitions, step, run, IsRetrying}
use chat_to_agent.Models.Account.{
  Account, AccountState, warmup, jail, cooldown, active, is_available, record_rate_limit,
}
use chat_to_agent.Models.Account
use chat_to_agent.Models.Lease.{Lease, activate, heartbeat, check_expired, is_alive, is_active}
use chat_to_agent.Models.Lease
use chat_to_agent.Models.Lease.Expiry.{check_expired-exact}

abbrev fresh : Task
fresh = Task.new "task-1" "fix the bug" normal interactive 5

abbrev finished : Task
finished = run fresh (transitions 6 planning ∷ transitions 7 executing ∷ transitions 9 done ∷ [])

finished_at : (finished.status ≡ done) × (finished.completed_at ≡ some 9)
unfolding run step transition_to Task.new
finished_at = (refl, refl)

-- A failure recorded on a finished task raises, after it has counted a retry.
failed_too_late :
    ((mark_failed 10 "late" finished).0 ≡ raised value_error)
    × ((mark_failed 10 "late" finished).1.retry_count ≡ 1)
unfolding run step mark_failed transition_to Task.new
failed_too_late = (refl, refl)

fresh-IsRetrying : IsRetrying fresh
unfolding Task.new
fresh-IsRetrying = ground arith

abbrev account : Account
account = Account.new "qwen:ui-01" "qwen_ui" warmup 131072

abbrev five : List (ℕ × ℕ)
five = (1, 10) ∷ (2, 10) ∷ (3, 10) ∷ (4, 10) ∷ (5, 10) ∷ []

abbrev jailed : Account
jailed = record account { state = jail; consecutive_failures = 5 }

abbrev lease : Lease
lease = activate 0 (Lease.new "lease-1" "qwen:ui-01" "task-1" "coder")

check_expired-exact_example :
    ((check_expired 300_000_001 lease).0 ≡ true
      → is_active (check_expired 300_000_001 lease).1.state ≡ false)
    × ((check_expired 300_000_001 lease).0 ≡ false → (check_expired 300_000_001 lease).1 ≡ lease)
    × (is_active (check_expired 300_000_001 lease).1.state ≡ is_alive 300_000_001 lease)
    × (is_alive 300_000_001 (check_expired 300_000_001 lease).1 ≡ is_alive 300_000_001 lease)
check_expired-exact_example = check_expired-exact 300_000_001 lease
