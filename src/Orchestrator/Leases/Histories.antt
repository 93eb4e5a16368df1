-- ===== src/Orchestrator/Leases/Histories.antt =====
-- Every history of the manager: who asks for what, in any order and at any times.
use chat_to_agent.Base.{ℕ, ◌≤◌, ◌≡◌, true, Option, some, String, List, [], ◌∷◌, arith}
use chat_to_agent.Base.Dict.{get}
use chat_to_agent.Models.Account.{Account, AccountState}
use chat_to_agent.Models.Lease.{Lease, is_active}
use chat_to_agent.Orchestrator.Leases.{
  Manager, empty, register_account, request_lease, release_lease, heartbeat_lease, reclaim_expired,
  force_expire_leases_for_account, mark_account_unavailable,
}
use chat_to_agent.Orchestrator.Leases.Counting.{active_on, in_use, in_use-le-one}
use chat_to_agent.Orchestrator.Leases.Exclusion.{
  Inv, register_account-Inv, request_lease-Inv, release_lease-Inv, heartbeat_lease-Inv,
  force_expire-Inv, mark_account_unavailable-Inv,
}
use chat_to_agent.Orchestrator.Leases.Reclaiming.{reclaim_expired-Inv}

-- A call of a public method that changes the manager, with its time and, for a new lease, its
-- identifier.
pub data Call : Type 0 where
  registers : Account → Call
  requests : ℕ → String → String → String → Option String → Call
  releases : String → Call
  heartbeats : ℕ → String → Call
  reclaims : ℕ → Call
  withdraws : String → AccountState → Call
  expires : String → Call

unfoldable pub step : Manager → Call → Manager
step m (registers a) = register_account a m
step m (requests now lease_id task agent provider) =
    (request_lease now lease_id task agent provider m).1
step m (releases lease_id) = (release_lease lease_id m).1
step m (heartbeats now lease_id) = (heartbeat_lease now lease_id m).1
step m (reclaims now) = (reclaim_expired now m).1
step m (withdraws account_id s) = (mark_account_unavailable account_id s m).1
step m (expires account_id) = (force_expire_leases_for_account account_id m).1

unfoldable pub run : Manager → List Call → Manager
run m [] = m
run m (c ∷ cs) = run (step m c) cs

-- What the callers must see to: an account that is registered is under no active lease, and a lease
-- that is released is active, if it exists.
abbrev pub IsAllowed : Manager → Call → Type 0
IsAllowed m (registers a) = active_on a.id m.leases ≡ 0
IsAllowed m (releases lease_id) =
    (l : Lease) → get lease_id m.leases ≡ some l → is_active l.state ≡ true
IsAllowed m _ = Unit

abbrev pub AreAllowed : Manager → List Call → Type 0
AreAllowed m [] = Unit
AreAllowed m (c ∷ cs) = IsAllowed m c × AreAllowed (step m c) cs

step-Inv : (m : Manager) (c : Call) → IsAllowed m c → Inv m → Inv (step m c)
unfolding step
step-Inv m (registers a) w h = register_account-Inv a m w h
step-Inv m (requests now i t g p) w h = request_lease-Inv now i t g p m h
step-Inv m (releases i) w h = release_lease-Inv i m w h
step-Inv m (heartbeats now i) w h = heartbeat_lease-Inv now i m h
step-Inv m (reclaims now) w h = reclaim_expired-Inv now m h
step-Inv m (withdraws i s) w h = mark_account_unavailable-Inv i s m h
step-Inv m (expires i) w h = force_expire-Inv i m h

pub run-Inv : (m : Manager) (cs : List Call) → AreAllowed m cs → Inv m → Inv (run m cs)
unfolding run
run-Inv m [] w h = h
run-Inv m (c ∷ cs) w h = run-Inv (step m c) cs w.1 (step-Inv m c w.0 h)

pub empty-Inv : Inv empty
empty-Inv = record { accounts_keyed = tt; leases_keyed = tt; room = λ a. omega arith }

-- In any history from the empty manager in which only active leases are released, and no account is
-- registered while it is under an active lease, no account is ever under two active leases, and an
-- account under one is registered and ACTIVE.
pub exclusive :
    (cs : List Call) (a : String)
    → AreAllowed empty cs
    → (active_on a (run empty cs).leases ≤ 1)
      × (active_on a (run empty cs).leases ≤ in_use a (run empty cs).accounts)
exclusive cs a w =
    let inv = run-Inv empty cs w empty-Inv in
    omega (arith, inv.room a, in_use-le-one a (run empty cs).accounts)
