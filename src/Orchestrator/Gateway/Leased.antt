-- ===== src/Orchestrator/Gateway/Leased.antt =====
-- How long an account of the gateway stays leased.
use chat_to_agent.Base.{
  Bool-cases, Option-cases, all, max_by, ℕ, String, ◌≡◌, refl, inl, inr, Bool, true, false, Option,
  some, List, [], ◌∷◌, arith, str_eq,
}
use chat_to_agent.Base.Dict.{get, get-put}
use chat_to_agent.Base.Number.{Number}
use chat_to_agent.Orchestrator.Gateway.{Gateway}
use chat_to_agent.Models.Account.{Account, AccountState, mark_active}
use chat_to_agent.Models.Lease.{is_alive}
use chat_to_agent.Orchestrator.Leases
use chat_to_agent.Orchestrator.Leases.{Manager, candidates, empty, register_accounts}
use chat_to_agent.Orchestrator.Leases.Histories.{Call, registers, requests, AreAllowed, exclusive}
use chat_to_agent.Orchestrator.Leases.Histories
use chat_to_agent.Orchestrator.Gateway.Histories.{
  Request, starts, submits, executes, halts, resumes, leases, heartbeats, releases, chats, handle,
  handle_all,
}
use chat_to_agent.Orchestrator.Gateway.Leasing.{calls_of, handle-calls}

-- The account is registered and in use.
abbrev pub IsLeased : String → Manager → Type 0
IsLeased i m = (a : Account) × (get i m.accounts ≡ some a) × (a.state ≡ AccountState.active)

request_lease-IsLeased :
    (now : ℕ) (lease_id task_id agent_id : String) (p : Option String) (i : String) (m : Manager)
    → IsLeased i m
    → IsLeased i (Leases.request_lease now lease_id task_id agent_id p m).1
unfolding Leases.request_lease mark_active
request_lease-IsLeased now l t g p i m (a, e, s) =
    elim (Option-cases (max_by (λ (x : Account). x.health_score) (candidates now p m))) [
      | inl none_free ↦ rw (none_free, Leases.request_lease) (a, e, s)
      | inr (best, chosen) ↦
          rw (chosen, Leases.request_lease)
            (elim (Bool-cases (str_eq best.id i)) [
              | inl same ↦ (
                mark_active best,
                ground (arith, same, get-put best.id i (mark_active best) m.accounts),
                refl,
              )
              | inr other ↦
                  (a, ground (arith, other, e, get-put best.id i (mark_active best) m.accounts), s)
            ])
    ]

heartbeat_lease-IsLeased :
    (now : ℕ) (lease_id i : String) (m : Manager)
    → IsLeased i m
    → IsLeased i (Leases.heartbeat_lease now lease_id m).1
unfolding Leases.heartbeat_lease
heartbeat_lease-IsLeased now l i m (a, e, s) = elim (Option-cases (get l m.leases)) [
  | inl missing ↦ rw (missing, Leases.heartbeat_lease) (a, e, s)
  | inr (lease, found) ↦ elim (Bool-cases (is_alive now lease)) [
    | inl alive ↦ rw (found, alive, Leases.heartbeat_lease) (a, e, s)
    | inr dead ↦ rw (found, dead, Leases.heartbeat_lease) (a, e, s)
  ]
]

-- A request that neither starts the gateway nor releases a lease.
abbrev pub leaves_leased : Request → Bool
leaves_leased starts = false
leaves_leased (releases lease_id) = false
leaves_leased _ = true

calls-IsLeased :
    (r : Request) (i : String) (m : Manager)
    → leaves_leased r ≡ true
    → IsLeased i m
    → IsLeased i (Leases.Histories.run m (calls_of r))
unfolding Leases.Histories.run Leases.Histories.step
calls-IsLeased starts i m e h = cc
calls-IsLeased (releases l) i m e h = cc
calls-IsLeased (leases now l t a p) i m e h = request_lease-IsLeased now l t a p i m h
calls-IsLeased (heartbeats now l) i m e h = heartbeat_lease-IsLeased now l i m h
calls-IsLeased (submits r j n q) i m e h = h
calls-IsLeased (executes n j s a) i m e h = h
calls-IsLeased (halts n j s) i m e h = h
calls-IsLeased (resumes n j) i m e h = h
calls-IsLeased (chats c s n q) i m e h = h

module _ (F : Type 0) ⦃o : Number F⦄ (classify : String → String)
    (occurs : String → String → Bool) where
  -- Once an account is leased, only a release gives it back: while nothing is released and the gateway
  -- is not started again, it stays ACTIVE, however much time passes and whatever else is asked.
  pub handle_all-IsLeased :
      (rs : List Request) (i : String) (g : Gateway)
      → all leaves_leased rs ≡ true
      → IsLeased i g.lease_manager
      → IsLeased i (handle_all F classify occurs g rs).lease_manager
  unfolding handle_all
  handle_all-IsLeased [] i g e h = h
  handle_all-IsLeased (r ∷ rs) i g e h =
      handle_all-IsLeased rs i (handle F classify occurs g r) (ground (arith, e)) (
        rw (handle-calls F classify occurs g r)
          (calls-IsLeased r i g.lease_manager (ground (arith, e)) h))
