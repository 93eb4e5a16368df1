-- ===== src/Testing.antt =====
-- ai_orchestrator/testrunner/runner.py: the choice of a test framework, and the call of the sandbox,
-- whose result Testing.Reading reads.
pub mod Reading
pub mod Totals
use chat_to_agent.Base.{
  if◌then◌else◌, truthy, ℕ, ◌/◌, String, Bool, false, ◌&&◌, Option, some, List, [], ◌∷◌,
}
use Prim.Native.String.{◌++◌ as append}
use chat_to_agent.Base.Dict.{Dict, get, put}
use chat_to_agent.Base.Exec.{Outcome, returned, raised}
use chat_to_agent.Security.Sandbox.{
  World, Sandbox, SandboxResult, SandboxFailure, ReturnCode, exited, execute, bash, command,
  module_of,
}
use chat_to_agent.Testing.Reading.{
  TestFramework, pytest, npm, go, unknown, TestRun, Patterns, parse_raw,
}

-- What `detect_framework` asks of a workspace: which files it has, their texts, and all paths.
pub record Probe : Type 0 where
  pub exists : String → Bool
  -- The file's text has the section of pytest.
  pub configures_pytest : String → Bool
  -- Some path begins with "test_" or ends with "_test.py".
  pub has_test_file : Bool

unfoldable pub detect_framework : Probe → TestFramework
detect_framework p =
    if p.exists "pytest.ini"
    then pytest
    else if p.exists "conftest.py"
    then pytest
    else if p.exists "setup.cfg" && p.configures_pytest "setup.cfg"
    then pytest
    else if p.exists "pyproject.toml" && p.configures_pytest "pyproject.toml"
    then pytest
    else if p.has_test_file
    then pytest
    else if p.exists "package.json"
    then npm
    else if p.exists "go.mod"
    then go
    else unknown

-- " ".join(args)
abbrev spaced : List String → String
spaced [] = ""
spaced (a ∷ []) = a
spaced (a ∷ (b ∷ rest)) = append a (append " " (spaced (b ∷ rest)))

abbrev npm_line : List String → String
npm_line [] = "npm test"
npm_line (a ∷ rest) = append "npm test " (spaced (a ∷ rest))

-- The call of the sandbox for a framework.
unfoldable pub launch_tests :
    World
    → Sandbox
    → Probe
    → String
    → TestFramework
    → List String
    → ℕ
    → Outcome SandboxFailure SandboxResult
unfolding execute
launch_tests w s p root pytest args time = execute w s (
    module_of "pytest" ("-v" ∷ "--tb=short" ∷ "-p" ∷ "no:cacheprovider" ∷ "--no-header" ∷ args) time
      512 false (some root))
launch_tests w s p root npm args time = execute w s (bash (npm_line args) time (some root) false)
launch_tests w s p root go args time =
    execute w s (command "go" ("test" ∷ "./..." ∷ "-v" ∷ args) time (some root) false)
launch_tests w s p root unknown args time = execute w s (
    bash (if p.exists "Makefile" then "make test" else "echo 'no test command'") time (some root)
      false)

abbrev parse_answer :
    Patterns → TestFramework → Outcome SandboxFailure SandboxResult → Outcome SandboxFailure TestRun
parse_answer P f (raised e) = raised e
parse_answer P f (returned raw) = returned (parse_raw P f raw)

unfoldable pub run_tests :
    Patterns
    → World
    → Sandbox
    → Probe
    → String
    → Option TestFramework
    → List String
    → ℕ
    → Outcome SandboxFailure TestRun
unfolding detect_framework launch_tests parse_raw
run_tests P w s p root chosen args time =
    let f = truthy chosen (detect_framework p) in
    parse_answer P f (launch_tests w s p root f args time)
