-- ===== src/Intelligence/Recovery/Builtin.antt =====
-- The built-in handlers and the cascade of them. The context is a dictionary of flags; a flag that is
-- missing is not set.
pub mod Flags
use chat_to_agent.Base.{if◌then◌else◌, ℕ, String, Bool, true, false, none, some}
use chat_to_agent.Base.Exec.{returned}
use chat_to_agent.Base.Dict.{Dict, get}
use chat_to_agent.Intelligence.Recovery.{
  RecoveryStep, RecoveryOutcome, RecoveryAction, RecoveryCascade, new, register, selector_cache,
  a11y, graph, network, session, worker, provider, workflow,
}

abbrev pub Context : Type 0
Context = Dict Bool

-- `if context.get(flag):`
unfoldable pub is_set : String → Context → Bool
unfolding get
is_set flag context = elim (get flag context) [ none ↦ false | some b ↦ b ]

-- An outcome as the handlers make it, with the default cost.
abbrev pub outcome_of : RecoveryStep → Bool → ℕ → String → RecoveryOutcome
outcome_of s ok sure text = record {
  step = s;
  success = ok;
  confidence = sure;
  detail = text;
  cost = 0;
}

abbrev pub answer : RecoveryOutcome → RecoveryAction Context
answer o context = (returned o, context)

unfoldable pub selector_cache_recovery : RecoveryAction Context
unfolding is_set
selector_cache_recovery context =
    if is_set "selector_cache_hit" context
    then answer (outcome_of selector_cache true 95 "cache_hit") context
    else answer (outcome_of selector_cache false 0 "cache_miss") context

unfoldable pub a11y_recovery : RecoveryAction Context
unfolding is_set
a11y_recovery context =
    if is_set "a11y_recovered" context
    then answer (outcome_of a11y true 80 "a11y_query_succeeded") context
    else answer (outcome_of a11y false 0 "no_a11y_root") context

unfoldable pub graph_recovery : RecoveryAction Context
unfolding is_set
graph_recovery context =
    if is_set "graph_recovered" context
    then answer (outcome_of graph true 70 "graph_query_succeeded") context
    else answer (outcome_of graph false 0 "no_graph_match") context

unfoldable pub network_recovery : RecoveryAction Context
unfolding is_set
network_recovery context =
    if is_set "network_recovered" context
    then answer (outcome_of network true 65 "stream_recovered") context
    else answer (outcome_of network false 0 "stream_still_stalled") context

unfoldable pub session_recovery : RecoveryAction Context
unfolding is_set
session_recovery context =
    if is_set "session_refreshed" context
    then answer (outcome_of session true 85 "session_refreshed") context
    else answer (outcome_of session false 0 "session_refresh_failed") context

unfoldable pub worker_recovery : RecoveryAction Context
unfolding is_set
worker_recovery context =
    if is_set "worker_replaced" context
    then answer (outcome_of worker true 90 "worker_replaced") context
    else answer (outcome_of worker false 0 "no_spare_worker") context

unfoldable pub provider_recovery : RecoveryAction Context
unfolding is_set
provider_recovery context =
    if is_set "provider_switched" context
    then answer (outcome_of provider true 95 "provider_switched") context
    else answer (outcome_of provider false 0 "no_alternate_provider") context

unfoldable pub workflow_recovery : RecoveryAction Context
unfolding is_set
workflow_recovery context =
    if is_set "workflow_replanned" context
    then answer (outcome_of workflow true 99 "workflow_replanned") context
    else answer (outcome_of workflow false 0 "replan_failed") context

unfoldable pub build_default_cascade : RecoveryCascade Context
unfolding new register selector_cache_recovery a11y_recovery graph_recovery network_recovery
    session_recovery worker_recovery provider_recovery workflow_recovery
build_default_cascade = register workflow workflow_recovery (
    register provider provider_recovery (
      register worker worker_recovery (
        register session session_recovery (
          register network network_recovery (
            register graph graph_recovery (
              register a11y a11y_recovery
                (register selector_cache selector_cache_recovery new)))))))
