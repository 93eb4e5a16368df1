-- ===== src/Models/Task.antt =====
-- ai_orchestrator/models/task.py. The clock is an argument, in microseconds; `metadata`, which no
-- operation reads, is left out.
pub mod Lifecycle
use mathlib.Core.Logic.{ite}
use chat_to_agent.Base.{
  ℕ, suc, ◌+◌, ◌≡◌, Bool, true, false, Option, none, some, String, leb, if◌then◌else◌,
}
use chat_to_agent.Base.Exec.{Outcome, returned, raised}

pub data TaskStatus : Type 0 where
  idle planning executing verification done failed halted dlq : TaskStatus

pub data TaskPriority : Type 0 where
  critical high normal low background : TaskPriority

pub data TaskType : Type 0 where
  interactive batch background_work maintenance : TaskType

pub TaskStatus-discrete : Discrete TaskStatus
TaskStatus-discrete = hlevel

pub record Task : Type 0 where
  pub id : String
  pub status : TaskStatus
  pub type : TaskType
  pub priority : TaskPriority
  pub user_id : Option String
  pub prompt : String
  pub current_step : String
  pub assigned_account_id : Option String
  pub assigned_agent : Option String
  pub created_at : ℕ
  pub updated_at : ℕ
  pub completed_at : Option ℕ
  pub error_message : Option String
  pub retry_count : ℕ
  pub max_retries : ℕ

-- `Task(id=…, prompt=…, priority=…, type=…)`, with the defaults of the other fields.
unfoldable pub new : String → String → TaskPriority → TaskType → ℕ → Task
new task_id text urgency kind now = record {
  id = task_id;
  status = idle;
  type = kind;
  priority = urgency;
  user_id = none;
  prompt = text;
  current_step = "";
  assigned_account_id = none;
  assigned_agent = none;
  created_at = now;
  updated_at = now;
  completed_at = none;
  error_message = none;
  retry_count = 0;
  max_retries = 3;
}

-- status in (DONE, DLQ)
abbrev pub is_final : TaskStatus → Bool
is_final done = true
is_final dlq = true
is_final _ = false

-- The one exception that these methods raise.
pub data ValueError : Type 0 where
  value_error : ValueError

-- The assignments of `transition_to`, behind its two tests.
abbrev moved : ℕ → TaskStatus → Task → Task
moved now new_status t =
    if is_final new_status
    then record t { status = new_status; updated_at = now; completed_at = some now }
    else record t { status = new_status; updated_at = now }

unfoldable pub transition_to : ℕ → TaskStatus → Task → Outcome ValueError (Unit {0}) × Task
unfolding TaskStatus-discrete
transition_to now new_status t =
    ite (TaskStatus-discrete new_status t.status) (returned tt, t)
      (if is_final t.status then (raised value_error, t) else (returned tt, moved now new_status t))

unfoldable pub mark_failed : ℕ → String → Task → Outcome ValueError (Unit {0}) × Task
unfolding transition_to
mark_failed now error t =
    let counted = record t { retry_count = suc t.retry_count; error_message = some error } in
    transition_to now (if leb t.max_retries (suc t.retry_count) then dlq else failed) counted

-- The property `is_terminal` of a task.
abbrev pub is_terminal : Task → Bool
is_terminal t = terminal t.status
  where
    terminal : TaskStatus → Bool
    terminal done = true
    terminal dlq = true
    terminal halted = true
    terminal _ = false
