-- ===== src/Orchestrator/Gateway/Frames.antt =====
-- What the methods of the engine, called as the gateway calls them, do to the task they are given and
-- to the other tasks.
use chat_to_agent.Base.{
  Bool-cases, ℕ, String, ◌≡◌, refl, ◌≢◌, ◌⊎◌, inl, inr, true, false, Option, some, arith, str_eq,
  eq_iff,
}
use chat_to_agent.Base.Exec.{then_pure}
use chat_to_agent.Base.Dict.{get, get-put}
use chat_to_agent.Models.Task.{done, executing, TaskStatus, transition_to}
use chat_to_agent.Orchestrator.Workflow.{
  WorkflowState, idle, planning, executing, testing, review, fix, done, halted, Session,
  task_status,
}
use chat_to_agent.Orchestrator.Workflow.Tasks.{
  effective_hash, start_task, halt_task, resume_task, execute_step, perform, advance,
  resolve_next_state, is_refused, current_state, handle_loop_detection,
}

-- The task has the status of its state, which is neither REVIEW nor FIX.
abbrev pub IsExact : WorkflowState → TaskStatus → Type 0
IsExact st status = (status ≡ task_status st) × (st ≢ review) × (st ≢ fix)

-- The task keeps its identifier and is exact, and the state of another task is what it was.
abbrev pub Follows : String → Session → Session → Type 0
Follows j s s' =
    (s'.task.id ≡ s.task.id)
    × ((str_eq s.task.id j ≡ true) ⊎ (get j s'.engine.task_states ≡ get j s.engine.task_states))
    × IsExact (current_state s') s'.task.status

module _ (j : String) where
  pub start_task-Follows :
      (now : ℕ) (s : Session) → s.task.status ≡ TaskStatus.idle → Follows j s (start_task now s).1
  unfolding start_task transition_to task_status
  start_task-Follows now s h = ground (
    arith,
    get-put s.task.id s.task.id planning s.engine.task_states,
    get-put s.task.id j planning s.engine.task_states,
    eq_iff s.task.id s.task.id,
  )

  pub halt_task-Follows :
      (now : ℕ) (reason : String) (s : Session)
      → IsExact (current_state s) s.task.status
      → Follows j s (halt_task now reason s).1
  unfolding halt_task transition_to task_status
  halt_task-Follows now reason s h = ground (
    arith,
    get-put s.task.id s.task.id halted s.engine.task_states,
    get-put s.task.id j halted s.engine.task_states,
    eq_iff s.task.id s.task.id,
  )

  pub resume_task-Follows :
      (now : ℕ) (s : Session)
      → IsExact (current_state s) s.task.status
      → Follows j s (resume_task now s).1
  unfolding resume_task transition_to task_status
  resume_task-Follows now s h = ground (
    arith,
    get-put s.task.id s.task.id planning s.engine.task_states,
    get-put s.task.id j planning s.engine.task_states,
    eq_iff s.task.id s.task.id,
  )

  advance-Follows :
      (now : ℕ) (n : String) (st next : WorkflowState) (s : Session)
      → is_refused s.task.status ≡ false
      → (next ≢ review) × (next ≢ fix)
      → Follows j s (advance now n "ok" st (some next) s).1
  unfolding advance transition_to task_status
  advance-Follows now n st next s w h = ground (
    arith,
    get-put s.task.id s.task.id next s.engine.task_states,
    get-put s.task.id j next s.engine.task_states,
    eq_iff s.task.id s.task.id,
  )

  -- A step whose result is "ok".
  resolve-Follows :
      (now : ℕ) (n : String) (st : WorkflowState) (s : Session)
      → current_state s ≡ st
      → IsExact st s.task.status
      → is_refused s.task.status ≡ false
      → Follows j s (advance now n "ok" st (resolve_next_state st "ok") s).1
  unfolding resolve_next_state task_status
  resolve-Follows now n idle s e h w = advance-Follows now n idle planning s w (ground arith)
  resolve-Follows now n planning s e h w =
      advance-Follows now n planning executing s w (ground arith)
  resolve-Follows now n executing s e h w =
      advance-Follows now n executing testing s w (ground arith)
  resolve-Follows now n testing s e h w = advance-Follows now n testing done s w (ground arith)
  resolve-Follows now n review s e h w = absurd (h.1 refl)
  resolve-Follows now n fix s e h w = absurd (h.2 refl)
  resolve-Follows now n done s e h w = ground arith
  resolve-Follows now n halted s e h w = ground arith

  perform-Follows :
      (now : ℕ) (n k : String) (s : Session)
      → is_refused s.task.status ≡ false
      → IsExact (current_state s) s.task.status
      → Follows j s (perform now n "ok" k s).1
  unfolding perform
  perform-Follows now n k s w h =
      let counted : Session = record s { engine = (handle_loop_detection s.task k s.engine).1 } in
      elim (Bool-cases (handle_loop_detection s.task k s.engine).0) [
        | inl e ↦
            rw e
              (rw (then_pure false (halt_task now _) counted) (halt_task-Follows now _ counted h))
        | inr e ↦ rw e (resolve-Follows now n (current_state s) counted refl h w)
      ]

  pub execute_step-Follows :
      (now : ℕ) (n a : String) (i : Option String) (s : Session)
      → IsExact (current_state s) s.task.status
      → Follows j s (execute_step now n a "ok" i s).1
  unfolding execute_step
  execute_step-Follows now n a i s h = elim (Bool-cases (is_refused s.task.status)) [
    | inl e ↦ rw e (refl, inr refl, h)
    | inr e ↦ rw e (perform-Follows now n (effective_hash n a i) s e h)
  ]
