-- ===== src/Samples/Testing.antt =====
-- Two tests in a sandbox whose parent has a secret.
use chat_to_agent.Base.{
  ◌==◌, if◌then◌else◌, length, ℕ, ◌+◌, String, ◌≡◌, refl, inr, true, false, none, some, List, [],
  ◌∷◌, arith, str_eq,
}
use chat_to_agent.Base.Dict.{Dict, get}
use chat_to_agent.Base.Exec.{Outcome, returned, raised}
use chat_to_agent.Security.Sandbox.{
  World, ended, exited, SandboxResult, new_sandbox, close, closed_error, bash, command, build_env,
  execute, run_process,
}
use chat_to_agent.Security.Sandbox.Secrets.{execute-IsSame}
use chat_to_agent.Security.Sandbox.Outputs.{IsCapped, run_process-IsCapped}
use chat_to_agent.Agents.{AgentResult, new_agent, run_step}
use chat_to_agent.Agents.Limits
use chat_to_agent.Agents.Limits.{IsWithin, new_agent-run-IsWithin}
use chat_to_agent.Testing.Reading.{
  Patterns, passed_status, failed_status, npm, parse_pytest, parse_raw,
}
use chat_to_agent.Testing.Totals.{IsTallied, parse_pytest-IsTallied}

abbrev here : Dict String
here = ("PATH", "/bin") ∷ ("OPENAI_API_KEY", "sk-1") ∷ []

abbrev there : Dict String
there = ("AWS_SECRET_ACCESS_KEY", "k") ∷ ("PATH", "/bin") ∷ []

abbrev world : World
world = record {
  environ = here;
  executable = "/usr/bin/python3";
  which = λ s. if str_eq s "go" then some "/usr/bin/go" else none;
  limits_memory = true;
  launch = λ c. (ended (length c.env ∷ []) [] (exited 0), 12);
  not_found_message = λ s. [];
}

execute-IsSame_example :
    execute (record world { environ = here }) new_sandbox (bash "env" 1000 none true)
    ≡ execute (record world { environ = there }) new_sandbox (bash "env" 1000 none true)
unfolding get
execute-IsSame_example =
    execute-IsSame world here there (refl, (refl, (refl, (refl, (refl, tt))))) new_sandbox
      (bash "env" 1000 none true)

no_secret : get "OPENAI_API_KEY" (build_env world true) ≡ none
unfolding build_env get
no_secret = refl

-- A closed sandbox runs nothing.
closed_refuses : execute world (close new_sandbox) (bash "ls" 1000 none true) ≡ raised closed_error
unfolding execute close
closed_refuses = refl

-- Asked for the network, a command gets the environment of one that is not.
network_refused :
    execute world new_sandbox (command "go" [] 1000 none true)
    ≡ execute world new_sandbox (command "go" [] 1000 none false)
unfolding execute
network_refused = refl

abbrev patterns : Patterns
patterns = record {
  decode = λ b. "out";
  splitlines = λ s. "t::a PASSED" ∷ "t::b FAILED" ∷ "short test summary info" ∷ "FAILED t::b" ∷ [];
  is_header = str_eq "short test summary info";
  failure_line = λ s. if str_eq s "FAILED t::b" then some "t::b" else none;
  test_line = λ s.
      if str_eq s "t::a PASSED"
      then some ("t::a", passed_status)
      else if str_eq s "t::b FAILED"
      then some ("t::b", failed_status)
      else none;
  footer_counts = λ s. [];
}

abbrev raw : SandboxResult
raw = record {
  stdout = [];
  stderr = [];
  return_code = exited 1;
  timed_out = false;
  duration_ms = 7;
  truncated = false;
}

parse_pytest-IsTallied_example : IsTallied patterns 2 (parse_pytest patterns raw)
parse_pytest-IsTallied_example = parse_pytest-IsTallied patterns raw (inr (omega arith))

-- A failed run of npm is one failure among no tests.
npm_failed : ((parse_raw patterns npm raw).total ≡ 0) × ((parse_raw patterns npm raw).failed ≡ 1)
unfolding parse_raw
npm_failed = (refl, refl)

run_process-IsCapped_example :
    IsCapped
      (1 ∷ [])
      []
      (run_process world ("/bin/bash" ∷ []) (("PATH", "/bin") ∷ []) 1000 none none)
run_process-IsCapped_example =
    run_process-IsCapped world ("/bin/bash" ∷ []) (("PATH", "/bin") ∷ []) 1000 none none (1 ∷ []) []
      refl

-- An agent that may take two steps, and whose `execute` counts and fails the second time.
abbrev counting : ℕ → Outcome String AgentResult × ℕ
counting n = (
  if n == 1
      then raised "lost"
      else returned (record { success = true; output = "done"; duration_ms = 0; error = none }),
  n + 1,
)

abbrev steps : List (ℕ × ℕ)
steps = (0, 5) ∷ (6, 7) ∷ (8, 9) ∷ []

new_agent-run-IsWithin_example :
    IsWithin counting 2 0 (Limits.run counting steps (new_agent "coder" 2 300000, 0))
new_agent-run-IsWithin_example = new_agent-run-IsWithin counting "coder" 2 300000 steps 0

-- The third step does nothing, and the failed one is not in the log.
two_executed :
    let (a, n) = Limits.run counting steps (new_agent "coder" 2 300000, 0) in
    (n ≡ 2) × (length a.actions ≡ 1)
unfolding Limits.run run_step new_agent
two_executed = (refl, refl)
