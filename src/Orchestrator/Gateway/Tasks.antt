-- ===== src/Orchestrator/Gateway/Tasks.antt =====
-- The endpoints of tasks in ai_orchestrator/orchestrator/main.py.
use chat_to_agent.Base.{
  if◌then◌else◌, keep, ℕ, String, Bool, true, false, Option, none, some, List, [], ◌∷◌, map, str_eq,
}
use mathlib.Core.Logic.{ite}
use mathlib.Core.Option
use chat_to_agent.Base.Dict.{put, values}
use chat_to_agent.Base.Exec.{returned, ◌>>=◌, pure, raise, gets}
use chat_to_agent.Base.Number.{Number}
use chat_to_agent.Models.Account.{Account}
use chat_to_agent.Models.Capabilities.{TaskRequirements, default_priority}
use chat_to_agent.Models.Task
use chat_to_agent.Models.Task.{
  Task, is_terminal, TaskStatus, TaskStatus-discrete, TaskPriority, TaskType,
}
use chat_to_agent.Orchestrator.Leases.{Manager, list_accounts}
use chat_to_agent.Orchestrator.Resources.{SystemResources, can_accept_task}
use chat_to_agent.Orchestrator.Router.{default_weights, select_account}
use chat_to_agent.Orchestrator.Workflow.{TaskPlan}
use chat_to_agent.Orchestrator.Workflow.Tasks.{start_task, plan_task, execute_step}
use chat_to_agent.Orchestrator.Workflow.Tasks
use chat_to_agent.Orchestrator.Gateway.{
  http, Endpoint, TaskResponse, task_to_response, on_task, with_task,
}

pub record SubmitTaskRequest : Type 0 where
  pub prompt : String
  pub task_type : TaskType
  pub priority : TaskPriority
  pub context_length : ℕ

abbrev first_step : List String → String
first_step [] = ""
first_step (x ∷ xs) = x

abbrev requirements_of : (F : Type 0) ⦃o : Number F⦄ → SubmitTaskRequest → TaskRequirements F
requirements_of F req = record {
  context_length = req.context_length;
  requires_reasoning = true;
  requires_coding = false;
  requires_translation = false;
  requires_multimodality = false;
  priority = default_priority;
}

unfoldable pub select_preferred_provider :
    (F : Type 0) ⦃o : Number F⦄ → SubmitTaskRequest → Manager → Option String
unfolding list_accounts select_account default_weights
select_preferred_provider F req m =
    Option.map (λ (a : Account). a.provider)
      (select_account default_weights (requirements_of F req) (list_accounts none none m))

-- The task that `submit_task` makes, before the workflow is started.
unfoldable pub submitted : String → ℕ → SubmitTaskRequest → Option String → Task
unfolding Task.new
submitted task_id now req preferred =
    let t = Task.new task_id req.prompt req.priority req.task_type now in
    record t { assigned_agent = some "planner"; assigned_account_id = preferred }

-- The first step of the plan becomes the task's current step.
unfoldable pub planned : TaskPlan → Task → Task
planned plan t = record t { current_step = first_step plan.steps }

unfoldable pub begin : String → TaskPlan → Unit {0} × Task → Endpoint TaskResponse
unfolding planned task_to_response
begin task_id plan (a, t) g = (
  returned (task_to_response (planned plan t)),
  record g { active_tasks = put task_id (planned plan t) g.active_tasks },
)

module _ (F : Type 0) ⦃o : Number F⦄ (classify : String → String) where
  unfoldable pub submit_task :
      SystemResources → String → ℕ → SubmitTaskRequest → Endpoint TaskResponse
  unfolding can_accept_task submitted select_preferred_provider on_task start_task plan_task begin
  submit_task resources task_id now req g =
      let preferred = select_preferred_provider F req g.lease_manager in
      let submit =
        on_task task_id (submitted task_id now req preferred) (start_task now)
        >>= begin task_id (plan_task (classify req.prompt)) in
      if can_accept_task resources req.priority then submit g else raise (http 503) g

abbrev of_status : Option TaskStatus → Task → Bool
of_status none t = true
of_status (some s) t = ite (TaskStatus-discrete t.status s) true false

unfoldable pub list_tasks : Option TaskStatus → Endpoint (List TaskResponse)
unfolding task_to_response keep
list_tasks status = gets λ g. map task_to_response (keep (of_status status) (values g.active_tasks))

unfoldable pub get_task : String → Endpoint TaskResponse
unfolding with_task task_to_response
get_task task_id = with_task task_id λ t. pure (task_to_response t)

-- The answer of an endpoint that does not look at what the engine's method returned, and of one that
-- answers with a status when it returned False.
abbrev pub answer : {A : Type 0} → A × Task → Endpoint TaskResponse
answer (a, t) = pure (task_to_response t)

abbrev pub answer_or : ℕ → Bool × Task → Endpoint TaskResponse
answer_or status (ok, t) = if ok then pure (task_to_response t) else raise (http status)

-- step_name or task.current_step
abbrev pub step_of : String → Task → String
step_of step_name t = if str_eq step_name "" then t.current_step else step_name

-- The result of the step is the default of `execute_step`, "ok", and no hash is given.
unfoldable pub execute_found : ℕ → String → String → String → Task → Endpoint TaskResponse
unfolding on_task execute_step task_to_response
execute_found now task_id step_name agent_type t =
    if is_terminal t
    then raise (http 400)
    else if str_eq (step_of step_name t) ""
    then raise (http 400)
    else on_task task_id t (execute_step now (step_of step_name t) agent_type "ok" none)
      >>= answer_or 409

unfoldable pub execute_task_step : ℕ → String → String → String → Endpoint TaskResponse
unfolding with_task execute_found
execute_task_step now task_id step_name agent_type =
    with_task task_id (execute_found now task_id step_name agent_type)

unfoldable pub halt_task : ℕ → String → String → Endpoint TaskResponse
unfolding with_task on_task Tasks.halt_task task_to_response
halt_task now task_id reason =
    with_task task_id λ t. on_task task_id t (Tasks.halt_task now reason) >>= answer

unfoldable pub resume_task : ℕ → String → Endpoint TaskResponse
unfolding with_task on_task Tasks.resume_task task_to_response
resume_task now task_id =
    with_task task_id λ t. on_task task_id t (Tasks.resume_task now) >>= answer_or 400
