-- ===== src/Orchestrator/Workflow/Agreement.antt =====
-- The engine's state of a task and the task's own status, over every history of the two.
use mathlib.Core.Option
use chat_to_agent.Base.{
  ℕ, ◌≡◌, ◌≢◌, ◌⊎◌, ◌↔◌, inl, inr, refl, false, ◌&&◌, Option, none, String, List, [], ◌∷◌, arith,
  str_eq, eq_iff, if◌then◌else◌, Bool-cases,
}
use chat_to_agent.Base.Dict.{Dict, get, get-put}
use chat_to_agent.Base.Exec.{then_pure}
use chat_to_agent.Models.Task.{TaskStatus, transition_to}
use chat_to_agent.Orchestrator.Leases.{AccountEvent}
use chat_to_agent.Orchestrator.Workflow.{
  WorkflowState, idle, planning, executing, testing, review, fix, done, halted, Session,
  task_status, is_working, concerns, replan, handle_account_event, bind_task_account,
  unbind_task_account,
}
use chat_to_agent.Orchestrator.Workflow.Tasks.{
  effective_hash, start_task, halt_task, resume_task, execute_step, perform, advance,
  resolve_next_state, is_refused, current_state, handle_loop_detection,
}

-- What the rest of the program asks of the engine about one task. A caller that catches an exception
-- goes on with what the method left.
pub data Call : Type 0 where
  starts resumes : ℕ → Call
  steps : ℕ → String → String → String → Option String → Call
  halts : ℕ → String → Call
  hears : AccountEvent → Call
  binds : String → Call
  unbinds : Call

unfoldable pub step : Session → Call → Session
step s (starts now) = (start_task now s).1
step s (resumes now) = (resume_task now s).1
step s (steps now step_name agent_type result action_hash) =
    (execute_step now step_name agent_type result action_hash s).1
step s (halts now reason) = (halt_task now reason s).1
step s (hears event) = record s { engine = handle_account_event event s.engine }
step s (binds account_id) = record s { engine = bind_task_account s.task.id account_id s.engine }
step s unbinds = record s { engine = unbind_task_account s.task.id s.engine }

unfoldable pub run : Session → List Call → Session
run s [] = s
run s (c ∷ cs) = run (step s c) cs

-- The status says what the state does, or the task is to be planned again while its status is still
-- that of the work that was interrupted. REVIEW does not occur.
abbrev pub Agrees : WorkflowState → TaskStatus → Type 0
Agrees st status =
    ((status ≡ task_status st)
      ⊎ ((st ≡ planning) × ((status ≡ TaskStatus.executing) ⊎ (status ≡ TaskStatus.verification))))
    × (st ≢ review)

abbrev pub replanned : String → Option String → WorkflowState → WorkflowState
replanned account_id bound s = if is_working s && concerns account_id bound then planning else s

pub get-replan :
    (account_id i : String) (accounts : Dict String) (states : Dict WorkflowState)
    → get i (replan account_id accounts states)
      ≡ Option.map (replanned account_id (get i accounts)) (get i states)
unfolding get replan
get-replan account_id i accounts [] = refl
get-replan account_id i accounts ((j, s) ∷ states) =
    ground (arith, get-replan account_id i accounts states, eq_iff j i)

start_task-Agrees :
    (now : ℕ) (s : Session)
    → Agrees (current_state s) s.task.status
    → Agrees (current_state (start_task now s).1) (start_task now s).1.task.status
unfolding start_task transition_to task_status
start_task-Agrees now s h =
    ground
      (arith, get-put s.task.id s.task.id planning s.engine.task_states, eq_iff s.task.id s.task.id)

halt_task-Agrees :
    (now : ℕ) (reason : String) (s : Session)
    → Agrees (current_state s) s.task.status
    → Agrees (current_state (halt_task now reason s).1) (halt_task now reason s).1.task.status
unfolding halt_task transition_to task_status
halt_task-Agrees now reason s h =
    ground
      (arith, get-put s.task.id s.task.id halted s.engine.task_states, eq_iff s.task.id s.task.id)

resume_task-Agrees :
    (now : ℕ) (s : Session)
    → Agrees (current_state s) s.task.status
    → Agrees (current_state (resume_task now s).1) (resume_task now s).1.task.status
unfolding resume_task transition_to task_status
resume_task-Agrees now s h =
    ground
      (arith, get-put s.task.id s.task.id planning s.engine.task_states, eq_iff s.task.id s.task.id)

advance-Agrees :
    (now : ℕ) (n r : String) (st : WorkflowState) (s : Session)
    → current_state s ≡ st
    → Agrees st s.task.status
    → is_refused s.task.status ≡ false
    → Agrees
        (current_state (advance now n r st (resolve_next_state st r) s).1)
        (advance now n r st (resolve_next_state st r) s).1.task.status
unfolding advance resolve_next_state transition_to task_status
advance-Agrees now n r testing s e h w = elim (Bool-cases (str_eq r "failed")) [
  | inl f ↦ rw f (
      ground
        (arith, get-put s.task.id s.task.id fix s.engine.task_states, eq_iff s.task.id s.task.id))
  | inr f ↦ rw f (
      ground
        (arith, get-put s.task.id s.task.id done s.engine.task_states, eq_iff s.task.id s.task.id))
]
advance-Agrees now n r review s e h w = absurd (h.1 refl)
advance-Agrees now n r done s e h w = ground arith
advance-Agrees now n r halted s e h w = ground arith
advance-Agrees now n r idle s e h w =
    ground
      (arith, get-put s.task.id s.task.id planning s.engine.task_states, eq_iff s.task.id s.task.id)
advance-Agrees now n r planning s e h w =
    ground (
      arith,
      get-put s.task.id s.task.id executing s.engine.task_states,
      eq_iff s.task.id s.task.id,
    )
advance-Agrees now n r executing s e h w =
    ground
      (arith, get-put s.task.id s.task.id testing s.engine.task_states, eq_iff s.task.id s.task.id)
advance-Agrees now n r fix s e h w =
    ground (
      arith,
      get-put s.task.id s.task.id executing s.engine.task_states,
      eq_iff s.task.id s.task.id,
    )

perform-Agrees :
    (now : ℕ) (n r k : String) (s : Session)
    → is_refused s.task.status ≡ false
    → Agrees (current_state s) s.task.status
    → Agrees (current_state (perform now n r k s).1) (perform now n r k s).1.task.status
unfolding perform
perform-Agrees now n r k s w h =
    let counted : Session = record s { engine = (handle_loop_detection s.task k s.engine).1 } in
    elim (Bool-cases (handle_loop_detection s.task k s.engine).0) [
      | inl e ↦
          rw e (rw (then_pure false (halt_task now _) counted) (halt_task-Agrees now _ counted h))
      | inr e ↦ rw e (advance-Agrees now n r (current_state s) counted refl h w)
    ]

execute_step-Agrees :
    (now : ℕ) (n a r : String) (i : Option String) (s : Session)
    → Agrees (current_state s) s.task.status
    → Agrees
        (current_state (execute_step now n a r i s).1)
        (execute_step now n a r i s).1.task.status
unfolding execute_step
execute_step-Agrees now n a r i s h = elim (Bool-cases (is_refused s.task.status)) [
  | inl e ↦ rw e h
  | inr e ↦ rw e (perform-Agrees now n r (effective_hash n a i) s e h)
]

event-Agrees :
    (event : AccountEvent) (s : Session)
    → Agrees (current_state s) s.task.status
    → Agrees
        (current_state (record s { engine = handle_account_event event s.engine }))
        s.task.status
unfolding handle_account_event task_status
event-Agrees event s h =
    ground
      (arith, get-replan event.account_id s.task.id s.engine.task_accounts s.engine.task_states)

step-Agrees :
    (s : Session) (c : Call)
    → Agrees (current_state s) s.task.status
    → Agrees (current_state (step s c)) (step s c).task.status
unfolding step bind_task_account unbind_task_account
step-Agrees s (starts now) h = start_task-Agrees now s h
step-Agrees s (resumes now) h = resume_task-Agrees now s h
step-Agrees s (steps now n a r i) h = execute_step-Agrees now n a r i s h
step-Agrees s (halts now reason) h = halt_task-Agrees now reason s h
step-Agrees s (hears event) h = event-Agrees event s h
step-Agrees s (binds account_id) h = h
step-Agrees s unbinds h = h

run-Agrees :
    (s : Session) (cs : List Call)
    → Agrees (current_state s) s.task.status
    → Agrees (current_state (run s cs)) (run s cs).task.status
unfolding run
run-Agrees s [] h = h
run-Agrees s (c ∷ cs) h = run-Agrees (step s c) cs (step-Agrees s c h)

-- In any history of a task that is IDLE and unknown to the engine, account events included, the
-- task is HALTED or DONE exactly when the engine has it so, and the engine never has it in REVIEW.
pub run-agreement :
    (s : Session) (cs : List Call)
    → s.task.status ≡ TaskStatus.idle
    → get s.task.id s.engine.task_states ≡ none
    → let r = run s cs in
      ((r.task.status ≡ TaskStatus.halted) ↔ (current_state r ≡ halted))
      × ((r.task.status ≡ TaskStatus.done) ↔ (current_state r ≡ done))
      × (current_state r ≢ review)
unfolding task_status
run-agreement s cs i u = ground (arith, run-Agrees s cs (ground arith))
