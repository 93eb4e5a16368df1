-- ===== src/Orchestrator/Workflow/Tasks.antt =====
-- The methods of workflow_engine.py that drive a task: start, step, halt and resume, and the plan.
use Prim.Native.String.{◌++◌ as append}
use chat_to_agent.Base.{
  ℕ, ◌+◌, Bool, true, false, ◌||◌, Option, none, some, String, List, [], ◌∷◌, ltb, str_eq,
  if◌then◌else◌, truthy,
}
use chat_to_agent.Base.Dict.{Dict, get, put, remove}
use chat_to_agent.Base.Exec.{Outcome, Method, ◌>>◌, pure, raise, modify}
use chat_to_agent.Models.Task.{Task, TaskStatus, ValueError, is_final, value_error, transition_to}
use chat_to_agent.Orchestrator.Workflow.{
  WorkflowState, idle, planning, executing, testing, review, fix, done, halted, TaskPlan, Engine,
  Session, task_status,
}

abbrev counts_of : String → Engine → Dict ℕ
counts_of task_id e = truthy (get task_id e.action_counts) []

-- How often the task has been asked for the action; 0 for one that is not counted.
abbrev pub count_of : String → String → Engine → ℕ
count_of task_id action_hash e = truthy (get action_hash (counts_of task_id e)) 0

unfoldable pub handle_loop_detection : Task → String → Engine → Bool × Engine
handle_loop_detection t action_hash e =
    let count = count_of t.id action_hash e + 1 in
    (
      ltb 3 count,
      record e {
        action_counts = put t.id (put action_hash count (counts_of t.id e)) e.action_counts;
      },
    )

-- `task.status in (DONE, DLQ)` and the other tests by which methods refuse a task.
abbrev pub is_refused : TaskStatus → Bool
is_refused TaskStatus.done = true
is_refused TaskStatus.dlq = true
is_refused TaskStatus.failed = true
is_refused TaskStatus.halted = true
is_refused _ = false

abbrev pub Act : Type 0 → Type 0
Act A = Method Session ValueError A

-- A call of a method of the task, whose exception passes through.
abbrev on_task : (Task → Outcome ValueError (Unit {0}) × Task) → Act (Unit {0})
on_task f s = let (r, t) = f s.task in (r, record s { task = t })

abbrev set_task : (Task → Task) → Act (Unit {0})
set_task f = modify (λ s. record s { task = f s.task })

abbrev set_engine : (String → Engine → Engine) → Act (Unit {0})
set_engine f = modify (λ s. record s { engine = f s.task.id s.engine })

abbrev enter : WorkflowState → Act (Unit {0})
enter state = set_engine (λ i e. record e { task_states = put i state e.task_states })

abbrev is_idle : TaskStatus → Bool
is_idle TaskStatus.idle = true
is_idle _ = false

abbrev is_halted : TaskStatus → Bool
is_halted TaskStatus.halted = true
is_halted _ = false

unfoldable pub start_task : ℕ → Act (Unit {0})
start_task now s =
    if is_idle s.task.status
    then (do
      enter planning
      on_task (transition_to now TaskStatus.planning)
      set_task (λ t. record t { assigned_agent = some "planner" })
      set_engine (λ i e. record e {
        step_index = put i 0 e.step_index;
        action_counts = remove i e.action_counts;
      }))
        s
    else raise value_error s

unfoldable pub halt_task : ℕ → String → Act (Unit {0})
halt_task now reason s =
    if is_final s.task.status
    then raise value_error s
    else (do
      enter halted
      on_task (transition_to now TaskStatus.halted)
      set_task (λ t. record t { error_message = some reason }))
        s

unfoldable pub resume_task : ℕ → Act Bool
resume_task now s =
    if is_halted s.task.status
    then (do
      set_task (λ t. record t { error_message = none })
      enter planning
      on_task (transition_to now TaskStatus.planning)
      set_engine (λ i e. record e {
        action_counts = remove i e.action_counts;
        step_index = put i 0 e.step_index;
      })
      pure true)
        s
    else pure false s

-- _resolve_next_state; `agent_type`, which it does not read, is left out.
unfoldable pub resolve_next_state : WorkflowState → String → Option WorkflowState
resolve_next_state testing result = some (if str_eq result "failed" then fix else done)
resolve_next_state review result =
    some (if str_eq result "rejected" || str_eq result "failed" then fix else done)
resolve_next_state fix result = some executing
resolve_next_state idle result = some planning
resolve_next_state planning result = some executing
resolve_next_state executing result = some testing
resolve_next_state done result = none
resolve_next_state halted result = none

abbrev state_name : WorkflowState → String
state_name idle = "WorkflowState.IDLE"
state_name planning = "WorkflowState.PLANNING"
state_name executing = "WorkflowState.EXECUTING"
state_name testing = "WorkflowState.TESTING"
state_name review = "WorkflowState.REVIEW"
state_name fix = "WorkflowState.FIX"
state_name done = "WorkflowState.DONE"
state_name halted = "WorkflowState.HALTED"

infixl 65 ◌++◌
abbrev ◌++◌ : String → String → String
s ++ t = append s t

-- The end of `execute_step`, once the next state is known.
unfoldable pub advance : ℕ → String → String → WorkflowState → Option WorkflowState → Act Bool
advance now step_name result current none = do
  set_task (λ t. record t {
    error_message = some (
        "workflow stalled: no transition from " ++ state_name current ++ " with result=" ++ result);
  })
  pure false
advance now step_name result current (some next) = do
  enter next
  on_task (transition_to now (task_status next))
  set_task (λ t. record t { current_step = step_name })
  set_engine
      (λ i e. record e { step_index = put i (truthy (get i e.step_index) 0 + 1) e.step_index })
  pure true

-- action_hash or f"{step_name}:{agent_type}"
unfoldable pub effective_hash : String → String → Option String → String
effective_hash step_name agent_type none = step_name ++ ":" ++ agent_type
effective_hash step_name agent_type (some h) =
    if str_eq h "" then step_name ++ ":" ++ agent_type else h

-- The state that the engine holds for a task, IDLE where it holds none.
abbrev pub current_state : Session → WorkflowState
current_state s = truthy (get s.task.id s.engine.task_states) idle

-- `execute_step` after its tests of the status, with the effective hash.
unfoldable pub perform : ℕ → String → String → String → Act Bool
unfolding halt_task advance handle_loop_detection task_status resolve_next_state
perform now step_name result hash s =
    let (looped, e) = handle_loop_detection s.task hash s.engine in
    let counted = record s { engine = e } in
    if looped
    then (do halt_task now ("loop detected: repeated action " ++ hash); pure false) counted
    else advance now step_name result (current_state counted)
        (resolve_next_state (current_state counted) result) counted

unfoldable pub execute_step : ℕ → String → String → String → Option String → Act Bool
unfolding perform effective_hash
execute_step now step_name agent_type result action_hash s =
    if is_refused s.task.status
    then raise value_error s
    else perform now step_name result (effective_hash step_name agent_type action_hash) s

-- The plan of a task whose prompt the control plane has put in this class.
unfoldable pub plan_task : String → TaskPlan
plan_task task_type =
    if str_eq task_type "coding"
    then coding
    else if str_eq task_type "translation"
    then record {
      steps = "translate" ∷ "review" ∷ [];
      required_agents = "planner" ∷ "reviewer" ∷ [];
      max_parallel_steps = 2;
    }
    else if str_eq task_type "research"
    then record {
      steps = "research" ∷ "summarize" ∷ "review" ∷ [];
      required_agents = "planner" ∷ "researcher" ∷ "reviewer" ∷ [];
      max_parallel_steps = 2;
    }
    else coding
  where
    coding : TaskPlan
    coding = record {
      steps = "implement" ∷ "test" ∷ "review" ∷ [];
      required_agents = "planner" ∷ "coder" ∷ "tester" ∷ "reviewer" ∷ [];
      max_parallel_steps = 2;
    }

abbrev head? : List String → Option String
head? [] = none
head? (x ∷ xs) = some x

-- What follows the first occurrence of a step; `none` is the ValueError of `list.index`.
abbrev pub after_step : String → List String → Option (List String)
after_step x [] = none
after_step x (y ∷ ys) = if str_eq y x then some ys else after_step x ys

unfoldable pub get_next_step : Task → TaskPlan → Option String
get_next_step t plan =
    if str_eq t.current_step ""
    then head? plan.steps
    else (elim (after_step t.current_step plan.steps) [
      | none ↦ head? plan.steps
      | some rest ↦ head? rest
    ])
