-- ===== src/Samples/Recovery.antt =====
-- The recovery cascade on a small context, and the build-test-fix loop on a counter.
use chat_to_agent.Base.{true, none, some, [], ◌∷◌}
use chat_to_agent.Base.Exec.{raised}
use chat_to_agent.Intelligence.Recovery.{RecoveryCascade, cascade_order, run, selector_cache, graph}
use chat_to_agent.Intelligence.Recovery.Builtin.{Context, graph_recovery}
use chat_to_agent.Intelligence.Recovery.Cheapest.{IsChain, answers, run-IsChain}

abbrev context : Context
context = ("graph_recovered", true) ∷ ("worker_replaced", true) ∷ []

-- A cascade of two steps, the first of which raises, with a history of one outcome.
abbrev partial : RecoveryCascade Context
partial = record {
  handlers = λ s. elim s [
    | selector_cache ↦ some (λ c. (raised "closed page", c))
    | graph ↦ some graph_recovery
    | _ ↦ none
  ];
  min_confidence = 55;
  history = [];
  max_history = 1;
}

run-IsChain_example :
    IsChain 55 (answers partial.handlers cascade_order context) (run partial context).0
run-IsChain_example = run-IsChain partial context
