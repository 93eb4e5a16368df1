-- ===== src/Orchestrator/Gateway/Histories.antt =====
-- The tasks of the gateway and the states that its engine has of them, over every history of requests.
use chat_to_agent.Base.{
  Bool-cases, Option-cases, all, ℕ, String, ◌≡◌, ◌≢◌, ◌↔◌, inl, inr, Bool, Option, some, List, [],
  ◌∷◌, arith,
}
use chat_to_agent.Base.Dict.{get}
use chat_to_agent.Base.Exec.{Outcome}
use chat_to_agent.Base.Number.{Number}
use chat_to_agent.Adapters.Sending.{ProviderResponse}
use chat_to_agent.Models.Task.{Task, TaskStatus}
use chat_to_agent.Orchestrator.Resources.{SystemResources}
use chat_to_agent.Orchestrator.Workflow.{review, fix, done, halted, task_status}
use chat_to_agent.Orchestrator.Gateway.{
  Gateway, initial, startup, heartbeat_lease, release_lease, request_lease,
}
use chat_to_agent.Orchestrator.Gateway.Tasks.{
  SubmitTaskRequest, submit_task, execute_task_step, halt_task, resume_task,
}
use chat_to_agent.Orchestrator.Gateway.Chat.{ChatRequest, chat, names_asked, buildable}
use chat_to_agent.Orchestrator.Gateway.Consistency.{
  state_in, IsConsistent, submit_task-IsConsistent, halt_task-IsConsistent,
  resume_task-IsConsistent, execute_task_step-IsConsistent,
}

-- A request, with what the clock, `uuid4`, the machine and the providers gave while it was served.
pub data Request : Type 0 where
  starts : Request
  submits : SystemResources → String → ℕ → SubmitTaskRequest → Request
  executes : ℕ → String → String → String → Request
  halts : ℕ → String → String → Request
  resumes : ℕ → String → Request
  leases : ℕ → String → String → String → Option String → Request
  heartbeats : ℕ → String → Request
  releases : String → Request
  chats :
      (String → Bool) → (ℕ → String → Outcome String ProviderResponse) → ℕ → ChatRequest → Request

module _ (F : Type 0) ⦃o : Number F⦄ (classify : String → String)
    (occurs : String → String → Bool) where
  unfoldable pub handle : Gateway → Request → Gateway
  handle g starts = (startup g).1
  handle g (submits resources i now req) = (submit_task F classify resources i now req g).1
  handle g (executes now i step_name agent_type) =
      (execute_task_step now i step_name agent_type g).1
  handle g (halts now i reason) = (halt_task now i reason g).1
  handle g (resumes now i) = (resume_task now i g).1
  handle g (leases now lease_id task_id agent_id provider) =
      (request_lease now lease_id task_id agent_id provider g).1
  handle g (heartbeats now lease_id) = (heartbeat_lease now lease_id g).1
  handle g (releases lease_id) = (release_lease lease_id g).1
  handle g (chats credentials_read send now req) = (chat occurs credentials_read send now req g).1

  unfoldable pub handle_all : Gateway → List Request → Gateway
  unfolding handle
  handle_all g [] = g
  handle_all g (r ∷ rs) = handle_all (handle g r) rs

  chat-IsConsistent :
      (credentials_read : String → Bool) (send : ℕ → String → Outcome String ProviderResponse)
      (now : ℕ) (req : ChatRequest) (g : Gateway)
      → IsConsistent g
      → IsConsistent (chat occurs credentials_read send now req g).1
  unfolding chat
  chat-IsConsistent credentials_read send now req g h = elim (Option-cases (names_asked req)) [
    | inl e ↦ rw (e, chat) h
    | inr (names, e) ↦ elim (Bool-cases (all (buildable credentials_read) names)) [
      | inl e' ↦ rw (e, e', chat) h
      | inr e' ↦ rw (e, e', chat) h
    ]
  ]

  handle-IsConsistent : (g : Gateway) (r : Request) → IsConsistent g → IsConsistent (handle g r)
  unfolding handle startup request_lease heartbeat_lease release_lease
  handle-IsConsistent g starts h = h
  handle-IsConsistent g (submits resources i now req) h =
      submit_task-IsConsistent F classify resources i now req g h
  handle-IsConsistent g (executes now i n a) h = execute_task_step-IsConsistent now i n a g h
  handle-IsConsistent g (halts now i reason) h = halt_task-IsConsistent now i reason g h
  handle-IsConsistent g (resumes now i) h = resume_task-IsConsistent now i g h
  handle-IsConsistent g (leases now l i a p) h = h
  handle-IsConsistent g (heartbeats now l) h = h
  handle-IsConsistent g (releases l) h = h
  handle-IsConsistent g (chats c send now req) h = chat-IsConsistent c send now req g h

  pub handle_all-IsConsistent :
      (g : Gateway) (rs : List Request) → IsConsistent g → IsConsistent (handle_all g rs)
  unfolding handle_all
  handle_all-IsConsistent g [] h = h
  handle_all-IsConsistent g (r ∷ rs) h =
      handle_all-IsConsistent (handle g r) rs (handle-IsConsistent g r h)

  pub initial-IsConsistent : IsConsistent initial
  unfolding get
  initial-IsConsistent i t e = cc

  -- After any requests to a new gateway, a task that it keeps has the identifier under which it is
  -- kept and the status that belongs to the state its engine has for it; so it is HALTED or DONE
  -- exactly when the engine has it so. No task is ever in FIX or REVIEW.
  pub handle_all-agreement :
      (rs : List Request) (i : String) (t : Task)
      → get i (handle_all initial rs).active_tasks ≡ some t
      → let st = state_in (handle_all initial rs) i in
        (t.id ≡ i)
        × (t.status ≡ task_status st)
        × ((t.status ≡ TaskStatus.halted) ↔ (st ≡ halted))
        × ((t.status ≡ TaskStatus.done) ↔ (st ≡ done))
        × (st ≢ fix)
        × (st ≢ review)
  unfolding task_status
  handle_all-agreement rs i t e =
      ground (arith, handle_all-IsConsistent initial rs initial-IsConsistent i t e)
