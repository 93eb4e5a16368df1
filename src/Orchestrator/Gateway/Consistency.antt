-- ===== src/Orchestrator/Gateway/Consistency.antt =====
-- Every task that the gateway keeps has the status of the state that its engine has for it: what the
-- endpoints of tasks do to that.
use chat_to_agent.Base.{
  Bool-cases, Option-cases, truthy, ℕ, String, ◌≡◌, refl, inl, inr, Bool, true, false, none, some,
  arith, str_eq, eq_iff,
}
use chat_to_agent.Base.Dict.{get, put, get-put}
use chat_to_agent.Base.Exec.{Outcome-cases, returned, ◌>>=◌}
use chat_to_agent.Base.Number.{Number}
use chat_to_agent.Models.Task.{Task, is_terminal}
use chat_to_agent.Orchestrator.Resources.{SystemResources, can_accept_task}
use chat_to_agent.Orchestrator.Workflow.{TaskPlan, WorkflowState, idle, Session}
use chat_to_agent.Orchestrator.Workflow.Tasks.{
  Act, start_task, execute_step, current_state, halt_task as engine_halt,
  resume_task as engine_resume, plan_task,
}
use chat_to_agent.Orchestrator.Gateway.{Gateway, Endpoint, on_task, with_task}
use chat_to_agent.Orchestrator.Gateway.Tasks.{
  SubmitTaskRequest, planned, begin, answer, answer_or, step_of, execute_found, submit_task,
  execute_task_step, halt_task, resume_task, submitted, select_preferred_provider,
}
use chat_to_agent.Orchestrator.Gateway.Frames.{
  IsExact, Follows, start_task-Follows, halt_task-Follows, resume_task-Follows,
  execute_step-Follows,
}

-- The state that the engine holds for a task, IDLE where it holds none.
abbrev pub state_in : Gateway → String → WorkflowState
state_in g i = truthy (get i g.workflow_engine.task_states) idle

abbrev pub IsFiled : Gateway → String → Task → Type 0
IsFiled g i t = (t.id ≡ i) × IsExact (state_in g i) t.status

abbrev pub IsConsistent : Gateway → Type 0
IsConsistent g = (i : String) (t : Task) → get i g.active_tasks ≡ some t → IsFiled g i t

module _ {A B : Type 0} where
  pub then_same :
      (m : Endpoint A) (k : A → Endpoint B) (g : Gateway)
      → ((a : A) (s : Gateway) → (k a s).1 ≡ s)
      → ((m >>= k) g).1 ≡ (m g).1
  then_same m k g same = elim (Outcome-cases (m g).0) [
    | inl (a, e) ↦ rw e (same a (m g).1)
    | inr (x, e) ↦ rw e refl
  ]

module _ {A : Type 0} (i : String) (t : Task) (m : Act A) (g : Gateway) where
  abbrev pub after : Session
  after = (m (record { engine = g.workflow_engine; task = t })).1

  pub on_task-state :
      (on_task i t m g).1
      ≡ record g { workflow_engine = after.engine; active_tasks = put i after.task g.active_tasks }
  unfolding on_task
  on_task-state = elim (Outcome-cases (m (record { engine = g.workflow_engine; task = t })).0) [
    | inl (a, e) ↦ rw e refl
    | inr (x, e) ↦ rw e refl
  ]

  on_task-IsConsistent :
      t.id ≡ i
      → IsConsistent g
      → ((j : String) → Follows j (record { engine = g.workflow_engine; task = t }) after)
      → IsConsistent (on_task i t m g).1
  on_task-IsConsistent named h f = rw on_task-state (λ j u e.
      ground (arith, named, e, f j, h j u, get-put i j after.task g.active_tasks, eq_iff i j))

with_task-IsConsistent :
    {A : Type 0} (i : String) (m : Task → Endpoint A) (g : Gateway)
    → IsConsistent g
    → ((t : Task) → IsFiled g i t → IsConsistent (m t g).1)
    → IsConsistent (with_task i m g).1
unfolding with_task
with_task-IsConsistent i m g h step = elim (Option-cases (get i g.active_tasks)) [
  | inl e ↦ rw (e, with_task) h
  | inr (t, e) ↦ rw (e, with_task) (step t (h i t e))
]

-- The state that a method of a task's own session begins with.
session-IsExact :
    (g : Gateway) (i : String) (t : Task)
    → IsFiled g i t
    → IsExact (current_state (record { engine = g.workflow_engine; task = t })) t.status
session-IsExact g i t f = rw (f.0) (f.1)

pub answer_or-same : (status : ℕ) (a : Bool × Task) (s : Gateway) → (answer_or status a s).1 ≡ s
answer_or-same status (true, t) s = refl
answer_or-same status (false, t) s = refl

pub halt_task-IsConsistent :
    (now : ℕ) (i reason : String) (g : Gateway)
    → IsConsistent g
    → IsConsistent (halt_task now i reason g).1
unfolding halt_task
halt_task-IsConsistent now i reason g h =
    with_task-IsConsistent i (λ t. on_task i t (engine_halt now reason) >>= answer) g h
      λ t f. rw (then_same (on_task i t (engine_halt now reason)) answer g (λ a s. refl)) (
        on_task-IsConsistent i t (engine_halt now reason) g f.0 h
          (λ j. halt_task-Follows j now reason _ (session-IsExact g i t f)))

pub resume_task-IsConsistent :
    (now : ℕ) (i : String) (g : Gateway) → IsConsistent g → IsConsistent (resume_task now i g).1
unfolding resume_task
resume_task-IsConsistent now i g h =
    with_task-IsConsistent i (λ t. on_task i t (engine_resume now) >>= answer_or 400) g h
      λ t f.
        rw (then_same (on_task i t (engine_resume now)) (answer_or 400) g (answer_or-same 400)) (
          on_task-IsConsistent i t (engine_resume now) g f.0 h
            (λ j. resume_task-Follows j now _ (session-IsExact g i t f)))

execute_found-IsConsistent :
    (now : ℕ) (i step_name agent_type : String) (t : Task) (g : Gateway)
    → IsConsistent g
    → IsFiled g i t
    → IsConsistent (execute_found now i step_name agent_type t g).1
unfolding execute_found
execute_found-IsConsistent now i n a t g h f =
    let m = execute_step now (step_of n t) a "ok" none in
    let done_so : IsConsistent ((on_task i t m >>= answer_or 409) g).1 =
      rw (then_same (on_task i t m) (answer_or 409) g (answer_or-same 409)) (
        on_task-IsConsistent i t m g f.0 h
          (λ j. execute_step-Follows j now (step_of n t) a none _ (session-IsExact g i t f))) in
    elim (Bool-cases (is_terminal t)) [
      | inl e ↦ rw e h
      | inr e ↦ elim (Bool-cases (str_eq (step_of n t) "")) [
        | inl e' ↦ rw (e, e') h
        | inr e' ↦ rw (e, e') done_so
      ]
    ]

pub execute_task_step-IsConsistent :
    (now : ℕ) (i step_name agent_type : String) (g : Gateway)
    → IsConsistent g
    → IsConsistent (execute_task_step now i step_name agent_type g).1
unfolding execute_task_step
execute_task_step-IsConsistent now i n a g h =
    with_task-IsConsistent i (execute_found now i n a) g h
      (λ t f. execute_found-IsConsistent now i n a t g h f)

put-IsConsistent :
    (g : Gateway) (i : String) (t : Task)
    → IsConsistent g
    → IsFiled g i t
    → IsConsistent (record g { active_tasks = put i t g.active_tasks })
put-IsConsistent g i t h f j u e =
    ground (arith, e, f, h j u, get-put i j t g.active_tasks, eq_iff i j)

-- The task object that a method left is the one that is kept.
on_task-kept :
    {A : Type 0} (i : String) (t : Task) (m : Act A) (g : Gateway) (a : A) (u : Task)
    → (on_task i t m g).0 ≡ returned (a, u)
    → get i (on_task i t m g).1.active_tasks ≡ some u
unfolding on_task
on_task-kept i t m g a u e =
    let r = m (record { engine = g.workflow_engine; task = t }) in
    elim (Outcome-cases r.0) [
      | inl (b, e') ↦ ground (arith, e, e', get-put i i r.1.task g.active_tasks, eq_iff i i)
      | inr (x, e') ↦ ground (arith, e, e')
    ]

begin-IsConsistent :
    (i : String) (plan : TaskPlan) (x : Unit {0} × Task) (g : Gateway)
    → IsConsistent g
    → get i g.active_tasks ≡ some x.1
    → IsConsistent (begin i plan x g).1
unfolding begin
begin-IsConsistent i plan (a, t) g h e = put-IsConsistent g i (planned plan t) h (h i t e)

module _ {A B : Type 0} where
  then_IsConsistent :
      (m : Endpoint A) (k : A → Endpoint B) (g : Gateway)
      → IsConsistent (m g).1
      → ((a : A) → (m g).0 ≡ returned a → IsConsistent (k a (m g).1).1)
      → IsConsistent ((m >>= k) g).1
  then_IsConsistent m k g h f = elim (Outcome-cases (m g).0) [
    | inl (a, e) ↦ rw e (f a e)
    | inr (x, e) ↦ rw e h
  ]

pub submit_task-IsConsistent :
    (F : Type 0) ⦃o : Number F⦄ (classify : String → String) (resources : SystemResources)
    (i : String) (now : ℕ) (req : SubmitTaskRequest) (g : Gateway)
    → IsConsistent g
    → IsConsistent (submit_task F classify resources i now req g).1
unfolding submit_task
submit_task-IsConsistent F classify resources i now req g h =
    let t = submitted i now req (select_preferred_provider F req g.lease_manager) in
    let m = start_task now in
    let plan = plan_task (classify req.prompt) in
    let started : IsConsistent (on_task i t m g).1 =
      on_task-IsConsistent i t m g refl h
        (λ j. start_task-Follows j now (record { engine = g.workflow_engine; task = t }) refl) in
    elim (Bool-cases (can_accept_task resources req.priority)) [
      | inl e ↦ rw e (
          then_IsConsistent (on_task i t m) (begin i plan) g started (λ x e'.
            begin-IsConsistent i plan x (on_task i t m g).1 started
              (on_task-kept i t m g x.0 x.1 e')))
      | inr e ↦ rw e h
    ]
