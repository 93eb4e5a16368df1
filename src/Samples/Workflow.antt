-- ===== src/Samples/Workflow.antt =====
-- A task driven through the workflow.

use chat_to_agent.Base.{◌-◌, ◌≤◌, ◌≡◌, ◌≢◌, ◌↔◌, refl, List, [], ◌∷◌, some, none}
use chat_to_agent.Base.Dict.{get, put, remove}
use chat_to_agent.Models.Account.{jail, active}
use chat_to_agent.Models.Task.{Task, TaskStatus, normal, interactive, transition_to}
use chat_to_agent.Models.Task
use chat_to_agent.Orchestrator.Leases.{AccountEvent}
use chat_to_agent.Orchestrator.Workflow.{executing, review, done, halted, Session, new}
use chat_to_agent.Orchestrator.Workflow.Tasks.{start_task, execute_step, current_state, count_of}
use chat_to_agent.Orchestrator.Workflow.Agreement.{Call, starts, steps, step, run, run-agreement}
use chat_to_agent.Orchestrator.Workflow.Repeats.{Ask, times_performed, times_performed-le}

abbrev fresh : Session
fresh = record { engine = new; task = Task.new "task-1" "fix the bug" normal interactive 5 }

abbrev history : List Call
history =
    starts 6
    ∷ steps 7 "implement" "coder" "ok" none
    ∷ steps 8 "test" "tester" "ok" none
    ∷ steps 9 "review" "reviewer" "ok" none
    ∷ []

-- The three steps of the plan end in DONE.
history_ends :
    (current_state (run fresh history) ≡ done) × ((run fresh history).task.status ≡ TaskStatus.done)
unfolding run step start_task execute_step transition_to get put remove Task.new
history_ends = (refl, refl)

run-agreement_example :
    (((run fresh history).task.status ≡ TaskStatus.halted)
      ↔ (current_state (run fresh history) ≡ halted))
    × (((run fresh history).task.status ≡ TaskStatus.done)
        ↔ (current_state (run fresh history) ≡ done))
    × (current_state (run fresh history) ≢ review)
unfolding Task.new get
run-agreement_example = run-agreement fresh history refl refl

abbrev implement : Ask
implement = record {
  now = 7;
  step_name = "implement";
  agent_type = "coder";
  result = "ok";
  action_hash = some "0";
}

times_performed-le_example :
    times_performed "0" (implement ∷ implement ∷ implement ∷ implement ∷ []) fresh
    ≤ 3 - count_of "task-1" "0" fresh.engine
unfolding Task.new
times_performed-le_example =
    times_performed-le "0" (implement ∷ implement ∷ implement ∷ implement ∷ []) fresh

abbrev tired : Session
tired = record {
  engine = record new {
    task_states = ("task-1", executing) ∷ [];
    action_counts = ("task-1", ("0", 3) ∷ []) ∷ [];
  };
  task = record (Task.new "task-1" "fix the bug" normal interactive 5) {
    status = TaskStatus.executing;
  };
}

abbrev jailing : AccountEvent
jailing = record {
  account_id = "kimi:ui-01";
  provider = "kimi_ui";
  old_state = active;
  new_state = jail;
  lease_id = none;
}
