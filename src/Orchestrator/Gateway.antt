-- ===== src/Orchestrator/Gateway.antt =====
-- The gateway, ai_orchestrator/orchestrator/main.py: the state that its endpoints share, and the
-- endpoints. A request is a method on the state that answers or fails with an HTTP status; an
-- exception that no endpoint catches is `uncaught`, the server's 500. The clock, the identifiers of
-- `uuid4`, the resources of the machine and the class that the control plane gives a prompt are
-- arguments.
pub mod Tasks
pub mod Chat
pub mod Frames
pub mod Consistency
pub mod Histories
pub mod Leasing
pub mod Leased
pub mod Counted
pub mod Answers
use chat_to_agent.Base.{
  ltb, length, keep, ℕ, String, Bool, not, Option, none, some, List, [], ◌∷◌, map,
}
use mathlib.Core.Option
use chat_to_agent.Base.Dict.{Dict, get, put, values}
use chat_to_agent.Base.Exec.{Outcome, returned, raised, Method, modify, gets}
use chat_to_agent.Models.Account
use chat_to_agent.Models.Account.{Account, AccountState, is_available}
use chat_to_agent.Models.Lease.{Lease, is_alive}
use chat_to_agent.Models.Task.{Task, is_terminal, TaskStatus, TaskStatus-discrete, ValueError}
use chat_to_agent.Orchestrator.Leases
use chat_to_agent.Orchestrator.Leases.{Manager, register_accounts, get_active_leases}
use chat_to_agent.Orchestrator.Health.{Tracker}
use chat_to_agent.Orchestrator.Resources.{
  SystemResources, get_watermark_level, rank, WatermarkLevel,
}
use chat_to_agent.Orchestrator.Workflow
use chat_to_agent.Orchestrator.Workflow.{Engine, Session}
use chat_to_agent.Orchestrator.Workflow.Tasks.{Act}

-- The singletons of the module.
pub record Gateway : Type 0 where
  pub lease_manager : Manager
  pub workflow_engine : Engine
  pub active_tasks : Dict Task
  pub health_tracker : Tracker

abbrev pub initial : Gateway
initial = record {
  lease_manager = Leases.empty;
  workflow_engine = Workflow.new;
  active_tasks = [];
  health_tracker = [];
}

pub data HttpError : Type 0 where
  http : ℕ → HttpError
  uncaught : HttpError

abbrev pub Endpoint : Type 0 → Type 0
Endpoint A = Method Gateway HttpError A

pub record TaskResponse : Type 0 where
  pub id : String
  pub status : TaskStatus
  pub prompt : String
  pub current_step : String
  pub error_message : Option String
  pub created_at : ℕ
  pub updated_at : ℕ
  pub completed_at : Option ℕ

unfoldable pub task_to_response : Task → TaskResponse
task_to_response t = record {
  id = t.id;
  status = t.status;
  prompt = t.prompt;
  current_step = t.current_step;
  error_message = t.error_message;
  created_at = t.created_at;
  updated_at = t.updated_at;
  completed_at = t.completed_at;
}

pub record AccountResponse : Type 0 where
  pub id : String
  pub provider : String
  pub state : AccountState
  pub health_score : ℕ
  pub consecutive_failures : ℕ
  pub context_limit : ℕ
  pub available : Bool

unfoldable pub account_to_response : ℕ → Account → AccountResponse
account_to_response now a = record {
  id = a.id;
  provider = a.provider;
  state = a.state;
  health_score = a.health_score;
  consecutive_failures = a.consecutive_failures;
  context_limit = a.context_limit;
  available = is_available now a;
}

-- The fields of the lease, and whether it is alive.
unfoldable pub lease_to_response : ℕ → Lease → Lease × Bool
lease_to_response now l = (l, is_alive now l)

-- A method of the engine, called with the task object that is kept under an identifier.
unfoldable pub on_task : {A : Type 0} → String → Task → Act A → Endpoint (A × Task)
on_task {A} i t m g =
    let (r, s) = m (record { engine = g.workflow_engine; task = t }) in
    let g₁ = record g { workflow_engine = s.engine; active_tasks = put i s.task g.active_tasks } in
    answer r s.task g₁
  where
    answer : Outcome ValueError A → Task → Endpoint (A × Task)
    answer (returned a) t₁ g₁ = (returned (a, t₁), g₁)
    answer (raised e) t₁ g₁ = (raised uncaught, g₁)

-- `_active_tasks.get(task_id)`, with 404 where there is none.
unfoldable pub with_task : {A : Type 0} → String → (Task → Endpoint A) → Endpoint A
unfolding get
with_task i m g = elim (get i g.active_tasks) [ none ↦ (raised (http 404), g) | some t ↦ m t g ]

abbrev default_account : String → String → ℕ → Account
default_account i provider limit = Account.new i provider AccountState.idle limit

abbrev pub default_accounts : List Account
default_accounts =
    default_account "chatgpt:ui-01" "chatgpt_ui" 32768
    ∷ default_account "qwen:ui-01" "qwen_ui" 131072
    ∷ default_account "local:dev-01" "local_llm" 256000
    ∷ default_account "deepseek:ui-01" "deepseek_ui" 1048576
    ∷ default_account "zai:ui-01" "z_ai_ui" 131072
    ∷ default_account "xiaomimimo:ui-01" "xiaomimimo_ui" 131072
    ∷ default_account "minimax:ui-01" "minimax_ui" 131072
    ∷ default_account "kimi:ui-01" "kimi_ui" 128000
    ∷ []

unfoldable pub startup : Endpoint (Unit {0})
unfolding register_accounts
startup =
    modify λ g. record g { lease_manager = register_accounts default_accounts g.lease_manager }

pub record HealthResponse : Type 0 where
  pub ok : Bool
  pub watermark_level : WatermarkLevel
  pub active_tasks : ℕ
  pub active_leases : ℕ
  pub registered_accounts : ℕ

unfoldable pub health : SystemResources → Endpoint HealthResponse
unfolding get_watermark_level get_active_leases Leases.list_accounts keep
health r = gets λ g.
    let level = get_watermark_level r.available_ram in
    record {
      ok = ltb (rank level) (rank WatermarkLevel.at_critical);
      watermark_level = level;
      active_tasks = length (keep (λ t. not (is_terminal t)) (values g.active_tasks));
      active_leases = length (get_active_leases g.lease_manager);
      registered_accounts = length (Leases.list_accounts none none g.lease_manager);
    }

unfoldable pub list_accounts :
    ℕ → Option String → Option AccountState → Endpoint (List AccountResponse)
unfolding Leases.list_accounts account_to_response
list_accounts now provider state =
    gets λ g. map (account_to_response now) (Leases.list_accounts provider state g.lease_manager)

unfoldable pub list_leases : ℕ → Endpoint (List (Lease × Bool))
unfolding get_active_leases lease_to_response
list_leases now = gets λ g. map (lease_to_response now) (get_active_leases g.lease_manager)

-- Any exception of the manager is answered with 503.
unfoldable pub request_lease :
    ℕ → String → String → String → Option String → Endpoint (Lease × Bool)
unfolding Leases.request_lease lease_to_response
request_lease now lease_id task_id agent_id provider g =
    let (r, m) = Leases.request_lease now lease_id task_id agent_id provider g.lease_manager in
    let g₁ = record g { lease_manager = m } in
    (elim r [ none ↦ raised (http 503) | some l ↦ returned (lease_to_response now l) ], g₁)

unfoldable pub heartbeat_lease : ℕ → String → Endpoint (String × Bool)
unfolding Leases.heartbeat_lease
heartbeat_lease now lease_id g =
    let (ok, m) = Leases.heartbeat_lease now lease_id g.lease_manager in
    (returned (lease_id, ok), record g { lease_manager = m })

unfoldable pub release_lease : String → Endpoint (String × Option String)
unfolding Leases.release_lease
release_lease lease_id g =
    let (a, m) = Leases.release_lease lease_id g.lease_manager in
    (returned (lease_id, Option.map (λ (x : Account). x.id) a), record g { lease_manager = m })
