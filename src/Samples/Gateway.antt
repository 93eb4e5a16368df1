-- ===== src/Samples/Gateway.antt =====
-- A gateway that is started and given a task, a lease and a chat.
use chat_to_agent.Base.{
  if◌then◌else◌, max_by, keep, ℕ, ◌≤◌, String, ◌≡◌, refl, ◌≢◌, ◌↔◌, Bool, true, false, none, some,
  List, [], ◌∷◌, str_eq,
}
use chat_to_agent.Base.Dict.{get, put, remove}
use chat_to_agent.Base.Exec.{Outcome, returned, raised}
use chat_to_agent.Adapters.Sending.{ProviderResponse}
use chat_to_agent.Models.Account
use chat_to_agent.Models.Account.{Account, AccountState}
use chat_to_agent.Models.Capabilities.{provider_profiles}
use chat_to_agent.Models.Task.{Task, TaskStatus, normal, interactive, transition_to}
use chat_to_agent.Models.Task
use chat_to_agent.Orchestrator.Leases
use chat_to_agent.Orchestrator.Leases.Histories
use chat_to_agent.Orchestrator.Leases.{empty, register_account}
use chat_to_agent.Orchestrator.Leases.Counting.{active_on}
use chat_to_agent.Orchestrator.Leases.Histories.{AreAllowed}
use chat_to_agent.Orchestrator.Resources.{SystemResources}
use chat_to_agent.Orchestrator.Router.{default_weights}
use chat_to_agent.Orchestrator.Workflow.{WorkflowState, task_status}
use chat_to_agent.Orchestrator.Gateway
use chat_to_agent.Models.Account.{is_available, mark_active}
use chat_to_agent.Orchestrator.Gateway.{
  Gateway, initial, HttpError, http, uncaught, startup, default_accounts,
}
use chat_to_agent.Orchestrator.Gateway.Tasks.{SubmitTaskRequest, submit_task, execute_task_step}
use chat_to_agent.Orchestrator.Gateway.Chat.{ChatRequest, answers}
use chat_to_agent.Orchestrator.Gateway.Chat.Reports.{succeeded}
use chat_to_agent.Orchestrator.Gateway.Consistency.{state_in}
use chat_to_agent.Orchestrator.Gateway.Histories.{
  Request, starts, submits, executes, leases, heartbeats, handle_all, handle_all-agreement,
}
use chat_to_agent.Orchestrator.Gateway.Leasing.{all_calls, handle_all-exclusive}
use chat_to_agent.Orchestrator.Gateway.Leased.{IsLeased, handle_all-IsLeased}
use chat_to_agent.Orchestrator.Workflow.Tasks.{effective_hash}
use chat_to_agent.Orchestrator.Gateway.Counted.{raised_by}
use chat_to_agent.Orchestrator.Gateway.Answers.{refusal}
use chat_to_agent.Samples.Router.{scaled}

abbrev machine : SystemResources
machine = record { total_ram = 32_000_000; available_ram = 16_000_000; available_cores = 8_000_000 }

abbrev asked : SubmitTaskRequest
asked = record {
  prompt = "fix the bug";
  task_type = interactive;
  priority = normal;
  context_length = 4096;
}

abbrev coding : String → String
coding prompt = "coding"

-- No error text of these names an exception.
abbrev occurs : String → String → Bool
occurs word text = false

abbrev after : List Request → Gateway
after rs = handle_all ℕ coding occurs initial rs

abbrev working : List Request
working = starts ∷ submits machine "t1" 5 asked ∷ executes 6 "t1" "" "executor" ∷ []

abbrev finished : List Request
finished =
    submits machine "t1" 5 asked
    ∷ executes 6 "t1" "a" "executor"
    ∷ executes 7 "t1" "b" "executor"
    ∷ executes 8 "t1" "c" "executor"
    ∷ []

-- The provider is stored where an account's identifier belongs.
abbrev worked : Task
worked = record (Task.new "t1" "fix the bug" normal interactive 5) {
  status = TaskStatus.executing;
  current_step = "implement";
  assigned_account_id = some "deepseek_ui";
  assigned_agent = some "planner";
  updated_at = 6;
}

working_task : get "t1" (after working).active_tasks ≡ some worked
unfolding handle_all startup submit_task execute_task_step get put scaled default_weights
    provider_profiles Account.new transition_to remove Task.new
working_task = refl

handle_all-agreement_example :
    let st = state_in (after working) "t1" in
    (worked.id ≡ "t1")
    × (worked.status ≡ task_status st)
    × ((worked.status ≡ TaskStatus.halted) ↔ (st ≡ WorkflowState.halted))
    × ((worked.status ≡ TaskStatus.done) ↔ (st ≡ WorkflowState.done))
    × (st ≢ WorkflowState.fix)
    × (st ≢ WorkflowState.review)
handle_all-agreement_example = handle_all-agreement ℕ coding occurs working "t1" worked working_task

-- Without accounts no provider is preferred; three steps finish the task.
abbrev finished_task : Task
finished_task = record (Task.new "t1" "fix the bug" normal interactive 5) {
  status = TaskStatus.done;
  current_step = "c";
  assigned_agent = some "planner";
  updated_at = 8;
  completed_at = some 8;
}

task_finished : get "t1" (after finished).active_tasks ≡ some finished_task
unfolding handle_all startup submit_task execute_task_step get put scaled default_weights
    provider_profiles Account.new transition_to remove Task.new
task_finished = refl

repeated_once :
    (refusal "implement" "executor" (after working) worked ≡ none)
    × (raised_by "implement" "executor" worked (effective_hash "implement" "executor" none) ≡ 1)
unfolding handle_all startup submit_task execute_task_step get put scaled default_weights
    provider_profiles Account.new transition_to remove Task.new
repeated_once = (refl, refl)

finished_refused : refusal "d" "executor" (after finished) finished_task ≡ some (http 400)
unfolding Task.new
finished_refused = refl

abbrev leasing : List Request
leasing =
    starts
    ∷ leases 10 "l1" "t1" "executor" none
    ∷ leases 11 "l2" "t2" "executor" (some "kimi_ui")
    ∷ heartbeats 12 "l1"
    ∷ []

leasing-allowed : AreAllowed empty (all_calls leasing)
unfolding Leases.Histories.step register_account
leasing-allowed =
    (refl, (refl, (refl, (refl, (refl, (refl, (refl, (refl, (tt, (tt, (tt, tt)))))))))))

handle_all-exclusive_example : active_on "chatgpt:ui-01" (after leasing).lease_manager.leases ≤ 1
handle_all-exclusive_example =
    handle_all-exclusive ℕ coding occurs leasing "chatgpt:ui-01" leasing-allowed

-- The account that the first lease gave out.
abbrev kept_busy : Gateway
kept_busy = after (starts ∷ leases 10 "l1" "t1" "executor" none ∷ [])

abbrev busy : Account
busy = record (Account.new "chatgpt:ui-01" "chatgpt_ui" AccountState.idle 32768) {
  state = AccountState.active;
}

busy-IsLeased : IsLeased "chatgpt:ui-01" kept_busy.lease_manager
unfolding handle_all startup Gateway.request_lease get put keep max_by Account.new is_available
    mark_active
busy-IsLeased = (busy, refl, refl)

abbrev later : List Request
later = heartbeats 20 "l1" ∷ leases 999_000_000 "l2" "t2" "executor" none ∷ []

handle_all-IsLeased_example :
    IsLeased "chatgpt:ui-01" (handle_all ℕ coding occurs kept_busy later).lease_manager
handle_all-IsLeased_example =
    handle_all-IsLeased ℕ coding occurs later "chatgpt:ui-01" kept_busy refl busy-IsLeased

-- Of two providers one answers and one raises; the first is asked twice.
abbrev send : ℕ → String → Outcome String ProviderResponse
send n name =
    if str_eq name "kimi_ui"
    then raised "CloudflareBlockError: blocked"
    else returned (record {
      success = true;
      content = "hello";
      reasoning_content = none;
      model = name;
      error = none;
      latency = 700;
    })

abbrev chatting : ChatRequest
chatting = record {
  prompt = "hi";
  provider = none;
  providers = "qwen_ui" ∷ "kimi_ui" ∷ "qwen_ui" ∷ [];
}

abbrev credentials : String → Bool
credentials name = true

two_successes : succeeded "qwen_ui" (answers send 0 chatting.providers) ≡ 2
unfolding answers
two_successes = refl
