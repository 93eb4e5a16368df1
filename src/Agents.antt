-- ===== src/Agents.antt =====
-- ai_orchestrator/agents/base.py. What a concrete agent's `execute` does with the state of its
-- surroundings is an argument. Clock readings are in milliseconds.
pub mod Limits
use chat_to_agent.Base.{
  ltb, leb, if◌then◌else◌, truthy, ℕ, ◌+◌, ◌-◌, String, Bool, true, false, Option, none, some, List,
  [], ◌∷◌, ◌++◌,
}
use chat_to_agent.Base.Exec.{Outcome, returned, raised}

pub record AgentResult : Type 0 where
  pub success : Bool
  pub output : String
  pub duration_ms : ℕ
  pub error : Option String

-- An entry of the log: the type of the agent, the number of the step, and its output.
pub record Action : Type 0 where
  pub action : String
  pub step : ℕ
  pub result : String

pub record BaseAgent : Type 0 where
  pub agent_type : String
  pub max_steps : ℕ
  pub max_runtime_ms : ℕ
  pub step_count : ℕ
  pub start_time : Option ℕ
  pub actions : List Action

unfoldable pub new_agent : String → ℕ → ℕ → BaseAgent
new_agent kind steps runtime = record {
  agent_type = kind;
  max_steps = steps;
  max_runtime_ms = runtime;
  step_count = 0;
  start_time = none;
  actions = [];
}

abbrev in_time : ℕ → ℕ → Option ℕ → Bool
in_time now limit none = true
in_time now limit (some start) = ltb (now - start) limit

unfoldable pub check_limits : ℕ → BaseAgent → Bool
check_limits now a =
    if leb a.max_steps a.step_count then false else in_time now a.max_runtime_ms a.start_time

unfoldable pub record_action : Action → BaseAgent → BaseAgent
record_action x a = record a { actions = a.actions ++ (x ∷ []) }

abbrev limits_exceeded : AgentResult
limits_exceeded = record {
  success = false;
  output = "Limits exceeded";
  duration_ms = 0;
  error = some "Max steps or runtime exceeded";
}

-- The agent as `execute` finds it.
abbrev started : ℕ → BaseAgent → BaseAgent
started now a = record a {
  step_count = a.step_count + 1;
  start_time = some (truthy a.start_time now);
}

-- `execute` changes its surroundings, and returns a result or raises.
module _ {W E : Type 0} (run_execute : W → Outcome E AgentResult × W) where
  abbrev noted : ℕ → BaseAgent → Outcome E AgentResult → Outcome E AgentResult × BaseAgent
  noted now a (raised e) = (raised e, a)
  noted now a (returned r) = (
    returned (record r { duration_ms = now - truthy a.start_time now }),
    record_action (record { action = a.agent_type; step = a.step_count; result = r.output }) a,
  )

  -- `run_step`, with the clock before and after.
  unfoldable pub run_step : ℕ → ℕ → BaseAgent × W → Outcome E AgentResult × (BaseAgent × W)
  unfolding check_limits record_action
  run_step now later (a, w) =
      if check_limits now a
      then (let (o, w') = run_execute w in
          let (r, b) = noted later (started now a) o in (r, (b, w')))
      else (returned limits_exceeded, (a, w))
