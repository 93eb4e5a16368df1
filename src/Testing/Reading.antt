-- ===== src/Testing/Reading.antt =====
-- ai_orchestrator/testrunner/runner.py: the reading of the output of a run. What the regular
-- expressions find is the argument `Patterns`; durations of single tests, which are not read, are left
-- out.
use chat_to_agent.Base.{
  ◌==◌, if◌then◌else◌, to_ℕ, truthy, length, ℕ, zero, suc, ◌+◌, ◌-◌, String, Bool, true, false, not,
  ◌&&◌, Option, none, some, List, [], ◌∷◌, ◌++◌, map,
}
use chat_to_agent.Base.Dict.{Dict, get, put}
use chat_to_agent.Security.Sandbox.{SandboxResult, ReturnCode, exited}

pub data TestFramework : Type 0 where
  pytest npm go unknown : TestFramework

-- The statuses that the expression for a line of `pytest -v` allows.
pub data Status : Type 0 where
  passed_status failed_status error_status skipped_status : Status

pub record TestResult : Type 0 where
  pub name : String
  pub passed : Bool
  pub message : String

pub record TestRun : Type 0 where
  pub framework : TestFramework
  pub total : ℕ
  pub passed : ℕ
  pub failed : ℕ
  pub skipped : ℕ
  pub error : ℕ
  pub results : List TestResult
  pub return_code : ReturnCode
  pub timed_out : Bool

-- The three counts of a footer.
pub data Footer : Type 0 where
  of_passed of_failed of_skipped : ℕ → Footer

pub record Patterns : Type 0 where
  pub decode : List ℕ → String
  pub splitlines : String → List String
  pub is_header : String → Bool
  -- The test's name in a line of the summary of failures.
  pub failure_line : String → Option String
  pub test_line : String → Option (String × Status)
  -- The counts in a line, if it has one of the three words.
  pub footer_counts : String → List Footer

-- The five counters beside the results.
pub record Summary : Type 0 where
  pub results : List TestResult
  pub n_passed : ℕ
  pub n_failed : ℕ
  pub n_skipped : ℕ
  pub n_error : ℕ

abbrev pub nothing_yet : Summary
nothing_yet = record { results = []; n_passed = 0; n_failed = 0; n_skipped = 0; n_error = 0 }

-- What a line of a test adds; a failure has its message from the summary.
unfoldable pub add_test : Dict String → String → Status → Summary → Summary
unfolding get
add_test messages test passed_status s = record s {
  results = s.results ++ (record { name = test; passed = true; message = "" } ∷ []);
  n_passed = s.n_passed + 1;
}
add_test messages test skipped_status s = record s {
  results = s.results ++ (record { name = test; passed = true; message = "" } ∷ []);
  n_skipped = s.n_skipped + 1;
}
add_test messages test failed_status s = record s {
  results =
      s.results
      ++ (record { name = test; passed = false; message = truthy (get test messages) "" } ∷ []);
  n_failed = s.n_failed + 1;
}
add_test messages test error_status s = record s {
  results =
      s.results
      ++ (record { name = test; passed = false; message = truthy (get test messages) "" } ∷ []);
  n_error = s.n_error + 1;
}

abbrev pub add_line : Dict String → Option (String × Status) → Summary → Summary
add_line messages none s = s
add_line messages (some (test, status)) s = add_test messages test status s

-- So many tests of unknown name that passed.
abbrev unknown_passed : ℕ → List TestResult
unknown_passed zero = []
unknown_passed (suc n) =
    record { name = "<unknown>"; passed = true; message = "" } ∷ unknown_passed n

abbrev failures_of : Dict String → List TestResult
failures_of = map (λ e. record { name = e.0; passed = false; message = e.1 })

abbrev add_count : Footer → ℕ × ℕ × ℕ → ℕ × ℕ × ℕ
add_count (of_passed n) (p, f, s) = (p + n, f, s)
add_count (of_failed n) (p, f, s) = (p, f + n, s)
add_count (of_skipped n) (p, f, s) = (p, f, s + n)

abbrev add_counts : List Footer → ℕ × ℕ × ℕ → ℕ × ℕ × ℕ
add_counts [] n = n
add_counts (x ∷ xs) n = add_counts xs (add_count x n)

-- The results where only the footer can be read.
abbrev footer_results : Dict String → ℕ → ℕ → List TestResult
footer_results messages failed_ft total_ft =
    if failed_ft == 0
    then unknown_passed total_ft
    else let failures = failures_of messages in
      failures ++ unknown_passed (total_ft - length failures)

abbrev pub from_footer : Dict String → ℕ × ℕ × ℕ → Summary → Summary
from_footer messages (p, f, k) s = if p + f + k == 0 then s else record s {
  results = footer_results messages f (p + f + k);
  n_passed = p;
  n_failed = f;
  n_skipped = k;
}

abbrev pub is_empty : List TestResult → Bool
is_empty [] = true
is_empty (r ∷ rs) = false

module _ (P : Patterns) where
  abbrev note_failure : String → Option String → Dict String → Dict String
  note_failure line none messages = messages
  note_failure line (some test) messages = put test line messages

  -- The first loop, with whether the header was passed.
  unfoldable pub failure_messages : Bool → List String → Dict String → Dict String
  unfolding put
  failure_messages in_failures [] messages = messages
  failure_messages in_failures (line ∷ lines) messages =
      if P.is_header line
      then failure_messages true lines messages
      else if in_failures
      then failure_messages true lines (note_failure line (P.failure_line line) messages)
      else failure_messages false lines messages

  -- The second loop.
  unfoldable pub read_tests : Dict String → List String → Summary → Summary
  unfolding add_test
  read_tests messages [] s = s
  read_tests messages (line ∷ lines) s =
      read_tests messages lines (add_line messages (P.test_line line) s)

  -- `_extract_footer_counts`
  unfoldable pub extract_footer_counts : List String → ℕ × ℕ × ℕ → ℕ × ℕ × ℕ
  extract_footer_counts [] n = n
  extract_footer_counts (line ∷ lines) n =
      extract_footer_counts lines (add_counts (P.footer_counts line) n)

  unfoldable pub summary_of : Bool → List String → Summary
  unfolding failure_messages read_tests extract_footer_counts
  summary_of timed_out lines =
      let messages = failure_messages false lines [] in
      let s = read_tests messages lines nothing_yet in
      if is_empty s.results && not timed_out
      then from_footer messages (extract_footer_counts lines (0, 0, 0)) s
      else s

  -- `_parse_pytest`
  unfoldable pub parse_pytest : SandboxResult → TestRun
  unfolding summary_of
  parse_pytest raw =
      let s = summary_of raw.timed_out (P.splitlines (P.decode raw.stdout)) in
      record {
        framework = pytest;
        total = s.n_passed + s.n_failed + s.n_skipped + s.n_error;
        passed = s.n_passed;
        failed = s.n_failed;
        skipped = s.n_skipped;
        error = s.n_error;
        results = s.results;
        return_code = raw.return_code;
        timed_out = raw.timed_out;
      }

  abbrev is_zero : ReturnCode → Bool
  is_zero (exited zero) = true
  is_zero _ = false

  -- `_parse_raw`
  unfoldable pub parse_raw : TestFramework → SandboxResult → TestRun
  unfolding parse_pytest
  parse_raw pytest raw = parse_pytest raw
  parse_raw f raw =
      let ok = is_zero raw.return_code && not raw.timed_out in
      record {
        framework = f;
        total = to_ℕ ok;
        passed = to_ℕ ok;
        failed = to_ℕ (not ok);
        skipped = 0;
        error = 0;
        results = [];
        return_code = raw.return_code;
        timed_out = raw.timed_out;
      }
