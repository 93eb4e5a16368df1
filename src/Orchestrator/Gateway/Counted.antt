-- ===== src/Orchestrator/Gateway/Counted.antt =====
-- How the request for a step counts its action.
use chat_to_agent.Base.{
  if◌then◌else◌, Bool-cases, ℕ, ◌+◌, String, ◌≡◌, inl, inr, false, none, arith, str_eq,
}
use chat_to_agent.Models.Task.{Task, is_terminal}
use chat_to_agent.Orchestrator.Workflow.{Session, task_status}
use chat_to_agent.Orchestrator.Workflow.Tasks.{
  is_refused, effective_hash, count_of, execute_step, current_state,
}
use chat_to_agent.Orchestrator.Workflow.Repeats.{perform-count_of}
use chat_to_agent.Orchestrator.Gateway.{Gateway, on_task}
use chat_to_agent.Orchestrator.Gateway.Tasks.{answer_or, step_of, execute_found}
use chat_to_agent.Orchestrator.Gateway.Consistency.{
  IsFiled, then_same, answer_or-same, on_task-state,
}
use chat_to_agent.Orchestrator.Gateway.Frames.{IsExact}

execute_step-count_of :
    (now : ℕ) (n a h : String) (s : Session)
    → IsExact (current_state s) s.task.status
    → is_terminal s.task ≡ false
    → count_of s.task.id h (execute_step now n a "ok" none s).1.engine
      ≡ count_of s.task.id h s.engine + (if str_eq (effective_hash n a none) h then 1 else 0)
unfolding execute_step task_status
execute_step-count_of now n a h s e w =
    let open_ : is_refused s.task.status ≡ false = ground (arith, e, w) in
    rw open_ (perform-count_of now n "ok" (effective_hash n a none) h s)

-- By how much the request raises the count of an action of this task: by one for its own action, if
-- it comes to the engine.
abbrev pub raised_by : String → String → Task → String → ℕ
raised_by step_name agent_type t h =
    let step = step_of step_name t in
    if is_terminal t
    then 0
    else if str_eq step ""
    then 0
    else if str_eq (effective_hash step agent_type none) h
    then 1
    else 0

pub execute_found-count_of :
    (now : ℕ) (i n a h : String) (t : Task) (g : Gateway)
    → IsFiled g i t
    → count_of t.id h (execute_found now i n a t g).1.workflow_engine
      ≡ count_of t.id h g.workflow_engine + raised_by n a t h
unfolding execute_found
execute_found-count_of now i n a h t g f =
    let m = execute_step now (step_of n t) a "ok" none in
    let s : Session = record { engine = g.workflow_engine; task = t } in
    let exact : IsExact (current_state s) t.status = rw (f.0) (f.1) in
    elim (Bool-cases (is_terminal t)) [
      | inl e ↦ rw e (omega arith)
      | inr e ↦ elim (Bool-cases (str_eq (step_of n t) "")) [
        | inl e' ↦ rw (e, e') (omega arith)
        | inr e' ↦
            let left = then_same (on_task i t m) (answer_or 409) g (answer_or-same 409) in
            rw (e, e', left, on_task-state i t m g)
              (execute_step-count_of now (step_of n t) a h s exact e)
      ]
    ]
