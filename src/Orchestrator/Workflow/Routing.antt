-- ===== src/Orchestrator/Workflow/Routing.antt =====
-- The edges that the workflow takes, against the table of valid transitions.
use chat_to_agent.Base.{◌≡◌, ◌≢◌, ◌⊎◌, some, String, arith, eq_iff}
use chat_to_agent.Base.Members.{Has}
use chat_to_agent.Orchestrator.Workflow.{
  WorkflowState, testing, review, done, halted, valid_transitions,
}
use chat_to_agent.Orchestrator.Workflow.Tasks.{resolve_next_state}

-- Every state that a step leads to is a valid transition, except that TESTING without a failure
-- leads to DONE, which is none; and no step leads to REVIEW or to HALTED.
pub resolve_next_state-valid :
    (s next : WorkflowState) (result : String)
    → resolve_next_state s result ≡ some next
    → (Has next (valid_transitions s) ⊎ ((s ≡ testing) × (next ≡ done) × (result ≢ "failed")))
      × (next ≢ review)
      × (next ≢ halted)
unfolding resolve_next_state valid_transitions
resolve_next_state-valid s next result e = ground (arith, eq_iff result "failed")

-- TESTING without a failure leads to DONE, past REVIEW, and this is no valid transition.
pub testing_skips_review :
    (result : String)
    → result ≢ "failed"
    → (resolve_next_state testing result ≡ some done) × (Has done (valid_transitions testing) → ⊥)
unfolding resolve_next_state valid_transitions
testing_skips_review result h = ground (arith, eq_iff result "failed")
