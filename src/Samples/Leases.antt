-- ===== src/Samples/Leases.antt =====
-- A pool of two accounts and what becomes of their leases.
use mathlib.Core.Option
use chat_to_agent.Models.Account
use chat_to_agent.Models.Lease
use chat_to_agent.Orchestrator.Leases.{
  empty, mark_account_unavailable, reclaim_expired, get_lease, get_account, Manager,
  register_account, request_lease,
}
use chat_to_agent.Orchestrator.Leases.Counting.{active_on, in_use}
use chat_to_agent.Orchestrator.Leases.Granting.{IsGranted, request_lease-IsGranted}
use chat_to_agent.Orchestrator.Leases.Histories.{
  releases, AreAllowed, exclusive, Call, registers, requests, step, run,
}
use chat_to_agent.Orchestrator.Leases.Reclaiming.{is_overdue, settled, reclaim_expired-exact}
use chat_to_agent.Orchestrator.Leases.Withdrawing.{jailed_not_leased}
use chat_to_agent.Base.{
  arith, String, ◌≤◌, ◌≢◌, map, any, ◌&&◌, str_eq, if◌then◌else◌, none, ◌≡◌, refl, max_by, List, [],
  ◌∷◌, some, keep,
}
use chat_to_agent.Base.Dict.{get, put, values}
use chat_to_agent.Models.Account.{
  jail, enter_cooldown, mark_idle, Account, idle, active, is_available, mark_active,
}
use chat_to_agent.Models.Lease.{
  expire, expired, is_alive, check_expired, Lease, activate, is_active, release,
}

abbrev qwen : Account
qwen = Account.new "qwen:ui-01" "qwen_ui" idle 131072

abbrev kimi : Account
kimi = record (Account.new "kimi:ui-01" "kimi_ui" idle 128000) { health_score = 85 }

abbrev first_lease : Lease
first_lease = activate 10 (Lease.new "lease-1" "kimi:ui-01" "task-1" "coder")

-- Both accounts are registered, and one is leased.
abbrev calls : List Call
calls =
    registers qwen ∷ registers kimi ∷ requests 10 "lease-1" "task-1" "coder" (some "kimi_ui") ∷ []

abbrev leased : Manager
leased = run empty calls

abbrev after_calls : Manager
after_calls = record {
  accounts = ("qwen:ui-01", qwen) ∷ ("kimi:ui-01", record kimi { state = active }) ∷ [];
  leases = ("lease-1", first_lease) ∷ [];
}

run_calls : leased ≡ after_calls
unfolding run step register_account request_lease put get keep max_by Account.new is_available
    Lease.new activate mark_active
run_calls = refl

allowed : AreAllowed empty (registers qwen ∷ requests 10 "l" "t" "coder" none ∷ releases "l" ∷ [])
unfolding step register_account request_lease put get keep max_by Account.new is_available Lease.new
    activate mark_active
allowed = (refl, (tt, ((λ l e. ground arith), tt)))

exclusive_example :
    (active_on "qwen:ui-01"
        (run empty (registers qwen ∷ requests 10 "l" "t" "coder" none ∷ releases "l" ∷ [])).leases
      ≤ 1)
    × (active_on "qwen:ui-01"
          (run empty (registers qwen ∷ requests 10 "l" "t" "coder" none ∷ releases "l" ∷ [])).leases
        ≤ in_use "qwen:ui-01"
            (run empty
              (registers qwen ∷ requests 10 "l" "t" "coder" none ∷ releases "l" ∷ [])).accounts)
exclusive_example =
    exclusive (registers qwen ∷ requests 10 "l" "t" "coder" none ∷ releases "l" ∷ []) "qwen:ui-01"
      allowed

abbrev second_lease : Lease
second_lease = activate 20 (Lease.new "lease-2" "qwen:ui-01" "task-2" "coder")

-- The preferred provider has no free account, so the other one is leased.
request_lease-IsGranted_example :
    (best : Account) × IsGranted 20 "lease-2"
      (some "kimi_ui")
      after_calls
      (request_lease 20 "lease-2" "task-2" "coder" (some "kimi_ui") after_calls).1
      second_lease
      best
unfolding request_lease keep max_by Account.new is_available put Lease.new activate mark_active get
request_lease-IsGranted_example =
    request_lease-IsGranted 20 "lease-2" "task-2" "coder" (some "kimi_ui") after_calls second_lease
      (ground arith) refl

reclaim_expired-exact_example :
    ((reclaim_expired 400_000_000 after_calls).0
      ≡ map (λ l. l.id) (keep (is_overdue 400_000_000) (values after_calls.leases)))
    × ((k : String)
        → get_lease k (reclaim_expired 400_000_000 after_calls).1
          ≡ Option.map (settled 400_000_000) (get_lease k after_calls))
    × ((a : String)
        → get_account a (reclaim_expired 400_000_000 after_calls).1 ≡ (
            if any
              (λ l. is_overdue 400_000_000 l && str_eq l.account_id a)
              (values after_calls.leases)
            then Option.map (enter_cooldown 400_000_000 300_000_000) (get_account a after_calls)
            else get_account a after_calls))
reclaim_expired-exact_example = reclaim_expired-exact 400_000_000 after_calls

jailed_not_leased_example :
    (active_on "kimi:ui-01" (mark_account_unavailable "kimi:ui-01" jail after_calls).1.leases ≡ 0)
    × ((request_lease 20 "lease-2" "task-2" "coder" none
            (mark_account_unavailable "kimi:ui-01" jail after_calls).1).0
          ≡ some second_lease
        → second_lease.account_id ≢ "kimi:ui-01")
unfolding get_account get Account.new
jailed_not_leased_example =
    jailed_not_leased after_calls "kimi:ui-01" (record kimi { state = active }) 20 "lease-2"
      "task-2" "coder" none second_lease (ground arith) refl

-- The lease of a jailed account is released, and the account is free again.
abbrev jailed : Manager
jailed = (mark_account_unavailable "kimi:ui-01" jail after_calls).1
