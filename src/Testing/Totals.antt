-- ===== src/Testing/Totals.antt =====
-- The counts of a run and its results agree.
use chat_to_agent.Base.{
  Bool-cases, to_ℕ, is_some, length, length-append, ℕ, ◌+◌, ◌<◌, String, ◌≡◌, refl, ◌⊎◌, inl, inr,
  true, false, not, ◌&&◌, Option, none, some, List, [], ◌∷◌, ◌++◌, arith,
}
use chat_to_agent.Base.Dict.{Dict}
use chat_to_agent.Security.Sandbox.{SandboxResult}
use chat_to_agent.Testing.Reading.{
  Status, passed_status, failed_status, error_status, skipped_status, TestResult, TestRun, Patterns,
  Summary, nothing_yet, add_test, add_line, is_empty, failure_messages, read_tests, summary_of,
  parse_pytest,
}

-- How many results passed, and how many did not.
abbrev pub passing : List TestResult → ℕ
passing [] = 0
passing (r ∷ rs) = to_ℕ r.passed + passing rs

abbrev pub failing : List TestResult → ℕ
failing [] = 0
failing (r ∷ rs) = to_ℕ (not r.passed) + failing rs

passing-append : (rs ts : List TestResult) → passing (rs ++ ts) ≡ passing rs + passing ts
passing-append [] ts = omega arith
passing-append (r ∷ rs) ts = omega (arith, passing-append rs ts)

failing-append : (rs ts : List TestResult) → failing (rs ++ ts) ≡ failing rs + failing ts
failing-append [] ts = omega arith
failing-append (r ∷ rs) ts = omega (arith, failing-append rs ts)

-- The counters count the results.
abbrev IsCounted : Summary → Type 0
IsCounted s =
    (s.n_passed + s.n_skipped ≡ passing s.results) × (s.n_failed + s.n_error ≡ failing s.results)

module _ (P : Patterns) where
  add_test-IsCounted :
      (messages : Dict String) (test : String) (status : Status) (s : Summary)
      → IsCounted s
      → IsCounted (add_test messages test status s)
  unfolding add_test
  add_test-IsCounted messages test passed_status s h = (
    omega (arith, h.0, passing-append s.results (_ ∷ [])),
    omega (arith, h.1, failing-append s.results (_ ∷ [])),
  )
  add_test-IsCounted messages test skipped_status s h = (
    omega (arith, h.0, passing-append s.results (_ ∷ [])),
    omega (arith, h.1, failing-append s.results (_ ∷ [])),
  )
  add_test-IsCounted messages test failed_status s h = (
    omega (arith, h.0, passing-append s.results (_ ∷ [])),
    omega (arith, h.1, failing-append s.results (_ ∷ [])),
  )
  add_test-IsCounted messages test error_status s h = (
    omega (arith, h.0, passing-append s.results (_ ∷ [])),
    omega (arith, h.1, failing-append s.results (_ ∷ [])),
  )

  add_test-length :
      (messages : Dict String) (test : String) (status : Status) (s : Summary)
      → length (add_test messages test status s).results ≡ length s.results + 1
  unfolding add_test
  add_test-length messages test passed_status s = length-append s.results (_ ∷ [])
  add_test-length messages test skipped_status s = length-append s.results (_ ∷ [])
  add_test-length messages test failed_status s = length-append s.results (_ ∷ [])
  add_test-length messages test error_status s = length-append s.results (_ ∷ [])

  -- How many lines are those of tests.
  abbrev pub test_lines : List String → ℕ
  test_lines [] = 0
  test_lines (line ∷ lines) = to_ℕ (is_some (P.test_line line)) + test_lines lines

  add_line-IsCounted :
      (messages : Dict String) (found : Option (String × Status)) (s : Summary)
      → IsCounted s
      → IsCounted (add_line messages found s)
        × (length (add_line messages found s).results ≡ length s.results + to_ℕ (is_some found))
  add_line-IsCounted messages none s h = (h, omega arith)
  add_line-IsCounted messages (some (test, status)) s h =
      (add_test-IsCounted messages test status s h, add_test-length messages test status s)

  read_tests-IsCounted :
      (messages : Dict String) (lines : List String) (s : Summary)
      → IsCounted s
      → IsCounted (read_tests P messages lines s)
        × (length (read_tests P messages lines s).results ≡ length s.results + test_lines lines)
  unfolding read_tests
  read_tests-IsCounted messages [] s h = (h, omega arith)
  read_tests-IsCounted messages (line ∷ lines) s h =
      let (kept, longer) = add_line-IsCounted messages (P.test_line line) s h in
      let next = add_line messages (P.test_line line) s in
      let (counted, all_read) = read_tests-IsCounted messages lines next kept in
      (counted, omega (arith, longer, all_read))

  -- The counters and the results of a run that counts.
  abbrev pub IsTallied : ℕ → TestRun → Type 0
  IsTallied n r =
      (r.total ≡ n)
      × (length r.results ≡ n)
      × (r.passed + r.skipped ≡ passing r.results)
      × (r.failed + r.error ≡ failing r.results)

  passing-failing : (rs : List TestResult) → passing rs + failing rs ≡ length rs
  passing-failing [] = refl
  passing-failing (r ∷ rs) = elim (Bool-cases r.passed) [
    | inl e ↦ rw e (omega (arith, passing-failing rs))
    | inr e ↦ rw e (omega (arith, passing-failing rs))
  ]

  filled : (rs : List TestResult) → 0 < length rs → is_empty rs ≡ false
  filled [] h = absurd (omega (arith, h))
  filled (r ∷ rs) h = refl

  -- Where the output of pytest has the line of a test, or the run was cut off, the total of the run is
  -- the number of those lines and of its results, the passed and skipped tests are the results that
  -- passed, and the failed tests and errors are the others.
  pub parse_pytest-IsTallied :
      (raw : SandboxResult)
      → (raw.timed_out ≡ true) ⊎ (0 < test_lines (P.splitlines (P.decode raw.stdout)))
      → IsTallied (test_lines (P.splitlines (P.decode raw.stdout))) (parse_pytest P raw)
  unfolding parse_pytest summary_of
  parse_pytest-IsTallied raw h =
      let lines = P.splitlines (P.decode raw.stdout) in
      let messages = failure_messages P false lines [] in
      let s = read_tests P messages lines nothing_yet in
      let (counted, all_read) = read_tests-IsCounted messages lines nothing_yet (refl, refl) in
      let kept : (is_empty s.results && not raw.timed_out) ≡ false = elim h [
        | inl e ↦ ground (arith, e)
        | inr p ↦ ground (arith, filled s.results (omega (arith, p, all_read)))
      ] in
      rw kept (
        omega (arith, counted.0, counted.1, all_read, passing-failing s.results),
        omega (arith, all_read),
        counted.0,
        counted.1,
      )
