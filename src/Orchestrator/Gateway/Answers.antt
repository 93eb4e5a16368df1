-- ===== src/Orchestrator/Gateway/Answers.antt =====
-- What the endpoints of tasks answer.
use Prim.Native.String.{◌++◌ as append}
use chat_to_agent.Base.{
  ltb, if◌then◌else◌, ℕ, ◌+◌, String, ◌≡◌, Bool, Option, none, some, arith, str_eq,
}
use chat_to_agent.Base.Dict.{get}
use chat_to_agent.Base.Exec.{Outcome, returned, raised}
use chat_to_agent.Base.Number.{Number}
use chat_to_agent.Models.Task.{Task, TaskStatus, is_terminal}
use chat_to_agent.Orchestrator.Workflow.{done}
use chat_to_agent.Orchestrator.Workflow.Tasks.{effective_hash, count_of, halt_task as engine_halt}
use chat_to_agent.Orchestrator.Gateway.{
  Engine, Gateway, http, uncaught, HttpError, TaskResponse, on_task, with_task,
}
use chat_to_agent.Orchestrator.Gateway.Tasks.{step_of, halt_task}
use chat_to_agent.Orchestrator.Gateway.Counted.{raised_by}

-- The count of the action is three or more.
abbrev pub is_loop : String → String → Engine → Bool
is_loop i hash e = ltb 3 (count_of i hash e + 1)

-- The status of a failed answer.
abbrev pub status_of : {A : Type 0} → Outcome HttpError A → Option HttpError
status_of (returned a) = none
status_of (raised x) = some x

-- The status that the request for a step is answered with when it is for this task.
abbrev pub refusal : String → String → Gateway → Task → Option HttpError
refusal step_name agent_type g t =
    let step = step_of step_name t in
    if is_terminal t
    then some (http 400)
    else if str_eq step ""
    then some (http 400)
    else if is_loop t.id (effective_hash step agent_type none) g.workflow_engine
    then some (http 409)
    else none

-- The answer to a request for a step when this task is kept, and the counts of actions afterwards.
abbrev pub IsAnswered :
    String → String → Gateway → Option Task → Outcome HttpError TaskResponse × Gateway → Type 0
IsAnswered step_name agent_type g none (r, g') = (status_of r ≡ some (http 404)) × (g' ≡ g)
IsAnswered step_name agent_type g (some t) (r, g') =
    (status_of r ≡ refusal step_name agent_type g t)
    × ((h : String)
        → count_of t.id h g'.workflow_engine
          ≡ count_of t.id h g.workflow_engine + raised_by step_name agent_type t h)

-- A request to halt a DONE task ends in an uncaught exception.
pub halt_done-uncaught :
    (now : ℕ) (i reason : String) (g : Gateway) (t : Task)
    → get i g.active_tasks ≡ some t
    → t.status ≡ TaskStatus.done
    → (halt_task now i reason g).0 ≡ raised uncaught
unfolding halt_task on_task engine_halt
halt_done-uncaught now i reason g t e d = rw (e, with_task) (ground (arith, d))
