-- ===== src/Orchestrator/Gateway/Leasing.antt =====
-- The lease manager of the gateway: what requests ask of it, and no others do.
use chat_to_agent.Base.{
  Bool-cases, Option-cases, all, ℕ, ◌≤◌, String, ◌≡◌, refl, sym, ap, ◌∙◌, inl, inr, Bool, none,
  List, [], ◌∷◌, ◌++◌, map, str_eq,
}
use chat_to_agent.Base.Dict.{get}
use chat_to_agent.Base.Exec.{Outcome, Outcome-cases, ◌>>=◌}
use chat_to_agent.Base.Number.{Number}
use chat_to_agent.Adapters.Sending.{ProviderResponse}
use chat_to_agent.Models.Task.{Task, is_terminal}
use chat_to_agent.Orchestrator.Resources.{SystemResources, can_accept_task}
use chat_to_agent.Orchestrator.Workflow.{TaskPlan}
use chat_to_agent.Orchestrator.Workflow.Tasks.{
  Act, start_task, execute_step, halt_task as engine_halt, resume_task as engine_resume, plan_task,
}
use chat_to_agent.Orchestrator.Gateway.{
  Gateway, initial, default_accounts, Endpoint, on_task, with_task, startup, heartbeat_lease,
  release_lease, request_lease,
}
use chat_to_agent.Orchestrator.Gateway.Tasks.{
  SubmitTaskRequest, begin, answer, answer_or, step_of, execute_found, submit_task,
  execute_task_step, halt_task, resume_task, submitted, select_preferred_provider,
}
use chat_to_agent.Orchestrator.Gateway.Chat.{ChatRequest, chat, names_asked, buildable}
use chat_to_agent.Models.Account.{Account}
use chat_to_agent.Orchestrator.Leases
use chat_to_agent.Orchestrator.Leases.{Manager, candidates, empty, register_accounts}
use chat_to_agent.Orchestrator.Leases.Counting.{active_on}
use chat_to_agent.Orchestrator.Leases.Histories.{Call, registers, requests, AreAllowed, exclusive}
use chat_to_agent.Orchestrator.Leases.Histories
use chat_to_agent.Orchestrator.Gateway.Consistency.{then_same, answer_or-same, on_task-state}
use chat_to_agent.Orchestrator.Gateway.Histories.{
  Request, starts, submits, executes, halts, resumes, leases, heartbeats, releases, chats, handle,
  handle_all,
}

-- The manager is as it was.
abbrev Keeps : Gateway → Gateway → Type 0
Keeps g s = s.lease_manager ≡ g.lease_manager

on_task-Keeps :
    {A : Type 0} (i : String) (t : Task) (m : Act A) (g : Gateway) → Keeps g (on_task i t m g).1
on_task-Keeps i t m g = ap (λ (s : Gateway). s.lease_manager) (on_task-state i t m g)

with_task-Keeps :
    {A : Type 0} (i : String) (m : Task → Endpoint A) (g : Gateway)
    → ((t : Task) → Keeps g (m t g).1)
    → Keeps g (with_task i m g).1
unfolding with_task
with_task-Keeps i m g h = elim (Option-cases (get i g.active_tasks)) [
  | inl e ↦ rw (e, with_task) refl
  | inr (t, e) ↦ rw (e, with_task) (h t)
]

answered-Keeps :
    {A B : Type 0} (i : String) (t : Task) (m : Act A) (k : A × Task → Endpoint B) (g : Gateway)
    → ((a : A × Task) (s : Gateway) → (k a s).1 ≡ s)
    → Keeps g ((on_task i t m >>= k) g).1
answered-Keeps i t m k g same =
    ap (λ (s : Gateway). s.lease_manager) (then_same (on_task i t m) k g same)
    ∙ on_task-Keeps i t m g

execute_found-Keeps :
    (now : ℕ) (i n a : String) (t : Task) (g : Gateway) → Keeps g (execute_found now i n a t g).1
unfolding execute_found
execute_found-Keeps now i n a t g =
    let m = execute_step now (step_of n t) a "ok" none in
    let performed = answered-Keeps i t m (answer_or 409) g (answer_or-same 409) in
    elim (Bool-cases (is_terminal t)) [
      | inl e ↦ rw e refl
      | inr e ↦ elim (Bool-cases (str_eq (step_of n t) "")) [
        | inl e' ↦ rw (e, e') refl
        | inr e' ↦ rw (e, e') performed
      ]
    ]

begin-Keeps :
    (i : String) (plan : TaskPlan) (x : Unit {0} × Task) (g : Gateway)
    → Keeps g (begin i plan x g).1
unfolding begin
begin-Keeps i plan (a, t) g = refl

then-Keeps :
    {A B : Type 0} (m : Endpoint A) (k : A → Endpoint B) (g : Gateway)
    → Keeps g (m g).1
    → ((a : A) (s : Gateway) → Keeps s (k a s).1)
    → Keeps g ((m >>= k) g).1
then-Keeps m k g h f = elim (Outcome-cases (m g).0) [
  | inl (a, e) ↦ rw e (f a (m g).1 ∙ h)
  | inr (x, e) ↦ rw e h
]

run-registers :
    (accounts : List Account) (m : Manager)
    → Leases.Histories.run m (map registers accounts) ≡ register_accounts accounts m
unfolding Leases.Histories.run Leases.Histories.step register_accounts
run-registers [] m = refl
run-registers (a ∷ rest) m = run-registers rest (Leases.register_account a m)

run-append :
    (m : Manager) (cs ds : List Call)
    → Leases.Histories.run m (cs ++ ds) ≡ Leases.Histories.run (Leases.Histories.run m cs) ds
unfolding Leases.Histories.run
run-append m [] ds = refl
run-append m (c ∷ cs) ds = run-append (Leases.Histories.step m c) cs ds

-- What a request asks of the lease manager.
abbrev pub calls_of : Request → List Call
calls_of starts = map registers default_accounts
calls_of (leases now lease_id task_id agent_id provider) =
    requests now lease_id task_id agent_id provider ∷ []
calls_of (heartbeats now lease_id) = Histories.heartbeats now lease_id ∷ []
calls_of (releases lease_id) = Histories.releases lease_id ∷ []
calls_of _ = []

abbrev pub all_calls : List Request → List Call
all_calls [] = []
all_calls (r ∷ rs) = calls_of r ++ all_calls rs

module _ (F : Type 0) ⦃o : Number F⦄ (classify : String → String)
    (occurs : String → String → Bool) where
  submit_task-Keeps :
      (resources : SystemResources) (i : String) (now : ℕ) (req : SubmitTaskRequest) (g : Gateway)
      → Keeps g (submit_task F classify resources i now req g).1
  unfolding submit_task
  submit_task-Keeps resources i now req g =
      let t = submitted i now req (select_preferred_provider F req g.lease_manager) in
      let plan = plan_task (classify req.prompt) in
      let m = start_task now in
      let begun =
        then-Keeps (on_task i t m) (begin i plan) g (on_task-Keeps i t m g) (begin-Keeps i plan) in
      elim (Bool-cases (can_accept_task resources req.priority)) [
        | inl e ↦ rw e begun
        | inr e ↦ rw e refl
      ]

  chat-Keeps :
      (credentials_read : String → Bool) (send : ℕ → String → Outcome String ProviderResponse)
      (now : ℕ) (req : ChatRequest) (g : Gateway)
      → Keeps g (chat occurs credentials_read send now req g).1
  unfolding chat
  chat-Keeps credentials_read send now req g = elim (Option-cases (names_asked req)) [
    | inl e ↦ rw (e, chat) refl
    | inr (names, e) ↦ elim (Bool-cases (all (buildable credentials_read) names)) [
      | inl e' ↦ rw (e, e', chat) refl
      | inr e' ↦ rw (e, e', chat) refl
    ]
  ]

  pub handle-calls :
      (g : Gateway) (r : Request)
      → (handle F classify occurs g r).lease_manager
        ≡ Leases.Histories.run g.lease_manager (calls_of r)
  unfolding handle halt_task resume_task execute_task_step request_lease heartbeat_lease
      release_lease startup Leases.Histories.run Leases.Histories.step
  handle-calls g starts = sym (run-registers default_accounts g.lease_manager)
  handle-calls g (submits resources i now req) = submit_task-Keeps resources i now req g
  handle-calls g (executes now i n a) =
      with_task-Keeps i (execute_found now i n a) g (λ t. execute_found-Keeps now i n a t g)
  handle-calls g (halts now i reason) =
      with_task-Keeps i (λ t. on_task i t (engine_halt now reason) >>= answer) g
        (λ t. answered-Keeps i t (engine_halt now reason) answer g (λ a s. refl))
  handle-calls g (resumes now i) =
      with_task-Keeps i (λ t. on_task i t (engine_resume now) >>= answer_or 400) g
        (λ t. answered-Keeps i t (engine_resume now) (answer_or 400) g (answer_or-same 400))
  handle-calls g (leases now l i a p) = refl
  handle-calls g (heartbeats now l) = refl
  handle-calls g (releases l) = refl
  handle-calls g (chats c send now req) = chat-Keeps c send now req g

  -- The lease manager of the gateway is what the requests asked of it have made of it: no other
  -- request touches it.
  pub handle_all-calls :
      (g : Gateway) (rs : List Request)
      → (handle_all F classify occurs g rs).lease_manager
        ≡ Leases.Histories.run g.lease_manager (all_calls rs)
  unfolding handle_all Leases.Histories.run
  handle_all-calls g [] = refl
  handle_all-calls g (r ∷ rs) =
      handle_all-calls (handle F classify occurs g r) rs
      ∙ ap (λ m. Leases.Histories.run m (all_calls rs)) (handle-calls g r)
      ∙ sym (run-append g.lease_manager (calls_of r) (all_calls rs))

  -- Whatever is asked of a new gateway, if only active leases are released and it is not started
  -- while an account is leased, no account is ever under two active leases.
  pub handle_all-exclusive :
      (rs : List Request) (a : String)
      → AreAllowed empty (all_calls rs)
      → active_on a (handle_all F classify occurs initial rs).lease_manager.leases ≤ 1
  handle_all-exclusive rs a w = rw (handle_all-calls initial rs) ((exclusive (all_calls rs) a w).0)
