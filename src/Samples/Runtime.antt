-- ===== src/Samples/Runtime.antt =====
-- The build-test-fix loop on a count of bugs.
use chat_to_agent.Base.{[], ℕ, ◌-◌, min, ◌≡◌, refl, Option, Bool, true, false, none, some}
use chat_to_agent.Base.Exec.{Outcome, returned, raised}
use chat_to_agent.Runtime.{FixResult, LoopResult, LoopError, negsuc, run}
use chat_to_agent.Security.Sandbox.{exited, killed}
use chat_to_agent.Testing.Reading.{TestRun, pytest}
use chat_to_agent.Runtime.Cycles.{IsAnswer, run-IsAnswer}

-- The workspace is its number of bugs; each fails a test.
abbrev run_bugs : ℕ → TestRun × ℕ
run_bugs bugs = (
  record {
    passed = 10 - bugs;
    failed = bugs;
    error = 0;
    framework = pytest;
    skipped = 0;
    results = [];
    total = 10;
    return_code = exited (min bugs 1);
    timed_out = false;
  },
  bugs,
)

abbrev commit_all : ℕ → TestRun → ℕ → Bool × ℕ
commit_all n t bugs = (true, bugs)

abbrev fix_one : TestRun → ℕ → ℕ → FixResult × ℕ
fix_one t n bugs = (record { fixes_applied = 1; message = ""; abort = false }, bugs - 1)

run-IsAnswer_example : IsAnswer none (run run_bugs commit_all (some fix_one) none 2).0
run-IsAnswer_example = run-IsAnswer run_bugs commit_all (some fix_one) none 2

abbrev verdict_of : Outcome LoopError LoopResult → Option (Bool × ℕ)
verdict_of (returned r) = some (r.success, r.iterations_used)
verdict_of (raised e) = none

two_bugs : verdict_of (run run_bugs commit_all (some fix_one) none 2).0 ≡ some (true, 3)
unfolding run
two_bugs = refl

no_iteration : verdict_of (run run_bugs commit_all (some fix_one) (some (negsuc 0)) 2).0 ≡ none
unfolding run
no_iteration = refl

-- A run that is stopped by its time limit with three tests failed.
abbrev stuck : ℕ → TestRun × ℕ
stuck bugs = (
  record {
    passed = 0;
    failed = 3;
    error = 0;
    framework = pytest;
    skipped = 0;
    results = [];
    total = 10;
    return_code = killed 9;
    timed_out = true;
  },
  bugs,
)

stuck_passes : verdict_of (run stuck commit_all (some fix_one) none 2).0 ≡ some (true, 1)
unfolding run
stuck_passes = refl
