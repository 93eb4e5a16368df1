-- ===== src/Orchestrator/Workflow.antt =====
-- ai_orchestrator/orchestrator/workflow_engine.py. A method works on the engine and on the task
-- object that it is given, and returns both beside its result; what it has written before it raises
-- stays written. The classification that `plan_task` asks of the control plane is an argument.
pub mod Tasks
pub mod Routing
pub mod Agreement
pub mod Repeats
pub mod Reacting
use Prim.Native.String.{◌++◌ as append}
use mathlib.Core.Logic.{ite}
use chat_to_agent.Base.{
  truthy, ℕ, suc, ◌+◌, Bool, true, false, ◌&&◌, ◌||◌, Option, none, some, String, List, [], ◌∷◌,
  ltb, str_eq, if◌then◌else◌,
}
use chat_to_agent.Base.Dict.{Dict, get, put, remove}
use chat_to_agent.Base.Exec.{Outcome, Method, ◌>>=◌, ◌>>◌, pure, raise, modify}
use chat_to_agent.Models.Account.{AccountState, jail}
use chat_to_agent.Models.Task.{Task, TaskStatus, ValueError, is_final, value_error, transition_to}
use chat_to_agent.Models.Task
use chat_to_agent.Orchestrator.Leases.{AccountEvent}

pub data WorkflowState : Type 0 where
  idle planning executing testing review fix done halted : WorkflowState

pub WorkflowState-discrete : Discrete WorkflowState
WorkflowState-discrete = hlevel

-- _VALID_TRANSITIONS
unfoldable pub valid_transitions : WorkflowState → List WorkflowState
valid_transitions idle = planning ∷ []
valid_transitions planning = executing ∷ []
valid_transitions executing = testing ∷ halted ∷ []
valid_transitions testing = review ∷ fix ∷ []
valid_transitions review = done ∷ fix ∷ []
valid_transitions fix = executing ∷ []
valid_transitions done = []
valid_transitions halted = []

pub record TaskPlan : Type 0 where
  pub steps : List String
  pub required_agents : List String
  pub max_parallel_steps : ℕ

pub record Engine : Type 0 where
  pub task_states : Dict WorkflowState
  pub action_counts : Dict (Dict ℕ)
  pub step_index : Dict ℕ
  pub task_accounts : Dict String

abbrev pub new : Engine
new = record { task_states = []; action_counts = []; step_index = []; task_accounts = [] }

-- The engine and the task object that a method is given.
pub record Session : Type 0 where
  pub engine : Engine
  pub task : Task

-- self._state_to_task_status
unfoldable pub task_status : WorkflowState → TaskStatus
task_status idle = TaskStatus.idle
task_status planning = TaskStatus.planning
task_status executing = TaskStatus.executing
task_status testing = TaskStatus.verification
task_status review = TaskStatus.verification
task_status fix = TaskStatus.executing
task_status done = TaskStatus.done
task_status halted = TaskStatus.halted

-- The status map of `can_proceed`.
abbrev state_of : TaskStatus → Option WorkflowState
state_of TaskStatus.idle = some idle
state_of TaskStatus.planning = some planning
state_of TaskStatus.executing = some executing
state_of TaskStatus.verification = some testing
state_of TaskStatus.done = some done
state_of TaskStatus.halted = some halted
state_of _ = none

abbrev contains : List WorkflowState → WorkflowState → Bool
contains [] s = false
contains (x ∷ xs) s = ite (WorkflowState-discrete s x) true (contains xs s)

-- target_state in _VALID_TRANSITIONS.get(current, []), with False where there is no current state
abbrev may_follow : Option WorkflowState → WorkflowState → Bool
may_follow none target = false
may_follow (some s) target = contains (valid_transitions s) target

abbrev or_else : Option WorkflowState → Option WorkflowState → Option WorkflowState
or_else none other = other
or_else (some s) other = some s

unfoldable pub can_proceed : Engine → Task → WorkflowState → Bool
unfolding valid_transitions WorkflowState-discrete
can_proceed e t target =
    if Task.is_terminal t
    then false
    else may_follow (or_else (get t.id e.task_states) (state_of t.status)) target

abbrev is_jail : AccountState → Bool
is_jail jail = true
is_jail _ = false

-- state in (EXECUTING, TESTING, FIX)
abbrev pub is_working : WorkflowState → Bool
is_working executing = true
is_working testing = true
is_working fix = true
is_working _ = false

-- bound_account is None or bound_account == event.account_id
abbrev pub concerns : String → Option String → Bool
concerns account_id none = true
concerns account_id (some a) = str_eq a account_id

pub replan : String → Dict String → Dict WorkflowState → Dict WorkflowState
replan account_id accounts [] = []
replan account_id accounts ((task_id, s) ∷ states) =
    (task_id, if is_working s && concerns account_id (get task_id accounts) then planning else s)
    ∷ replan account_id accounts states

unfoldable pub handle_account_event : AccountEvent → Engine → Engine
unfolding replan
handle_account_event event e =
    if is_jail event.new_state
    then record e { task_states = replan event.account_id e.task_accounts e.task_states }
    else e

unfoldable pub bind_task_account : String → String → Engine → Engine
bind_task_account task_id account_id e = record e {
  task_accounts = put task_id account_id e.task_accounts;
}

unfoldable pub unbind_task_account : String → Engine → Engine
unbind_task_account task_id e = record e { task_accounts = remove task_id e.task_accounts }
