-- ===== src/Orchestrator/Workflow/Reacting.antt =====
-- What an account event does to the tasks.

use chat_to_agent.Base.{◌≡◌, ◌≢◌, ◌⊎◌, true, false, none, some, String, arith, eq_iff}
use chat_to_agent.Base.Dict.{get}
use chat_to_agent.Models.Account.{jail}
use chat_to_agent.Orchestrator.Leases.{AccountEvent}
use chat_to_agent.Orchestrator.Workflow.{
  WorkflowState, planning, Engine, is_working, handle_account_event,
}
use chat_to_agent.Orchestrator.Workflow.Agreement.{get-replan}

-- A jailed account sends back to PLANNING exactly the tasks that are EXECUTING, TESTING or in FIX
-- and are bound to that account or to none; every other task keeps its state.
pub handle_account_event-replans :
    (event : AccountEvent) (e : Engine) (task_id : String) (st : WorkflowState)
    → event.new_state ≡ jail
    → get task_id e.task_states ≡ some st
    → (is_working st ≡ true
        → (get task_id e.task_accounts ≡ some event.account_id)
          ⊎ (get task_id e.task_accounts ≡ none)
        → get task_id (handle_account_event event e).task_states ≡ some planning)
      × ((b : String)
          → get task_id e.task_accounts ≡ some b
          → b ≢ event.account_id
          → get task_id (handle_account_event event e).task_states ≡ some st)
      × (is_working st ≡ false → get task_id (handle_account_event event e).task_states ≡ some st)
unfolding handle_account_event
handle_account_event-replans event e task_id st j h = (
  λ w bound. ground (
    arith,
    get-replan event.account_id task_id e.task_accounts e.task_states,
    eq_iff event.account_id event.account_id,
  ),
  λ b bound other. ground (
    arith,
    get-replan event.account_id task_id e.task_accounts e.task_states,
    eq_iff b event.account_id,
  ),
  λ w. ground (arith, get-replan event.account_id task_id e.task_accounts e.task_states),
)

-- An event of any other kind changes nothing.
pub handle_account_event-ignores :
    (event : AccountEvent) (e : Engine) → event.new_state ≢ jail → handle_account_event event e ≡ e
unfolding handle_account_event
handle_account_event-ignores event e h = ground arith
