-- ===== src/Runtime/Cycles.antt =====
-- What the loop reports: its verdict, the number of its iterations and their record.
use chat_to_agent.Base.{
  ltb, Bool-cases, length, ℕ, zero, suc, ◌+◌, ◌≤◌, ◌≡◌, refl, sym, ◌∙◌, ◌⊎◌, ◌↔◌, inl, inr, Bool,
  true, false, Option, none, some, List, [], ◌∷◌, ◌++◌, arith,
}
use mathlib.Core.List.{append_assoc}
use chat_to_agent.Base.Exec.{Outcome, returned, raised}
use chat_to_agent.Security.Sandbox.{exited}
use chat_to_agent.Runtime.{
  ℤ, pos, negsuc, LoopError, unbound_local_error, iterate, TestRun, FixResult, CycleRecord,
  LoopResult, has_passed, cycle_of, finish, loop, run,
}

-- A run that was stopped by its time limit, or that ended with the return code 0 and without failures
-- and errors.
abbrev pub IsPassed : TestRun → Type 0
IsPassed t = (t.timed_out ≡ true) ⊎ ((t.return_code ≡ exited 0) × (t.failed ≡ 0) × (t.error ≡ 0))

has_passed_iff : (t : TestRun) → (has_passed t ≡ true) ↔ IsPassed t
has_passed_iff t = ground arith

failed-IsPassed : (t : TestRun) → has_passed t ≡ false → ¬ IsPassed t
failed-IsPassed t e h = ground (arith, e, (has_passed_iff t).1 h)

-- Numbered from `n` on; every test run but the last failed, and the last is `t`.
abbrev pub IsHistory : ℕ → TestRun → List CycleRecord → Type 0
IsHistory n t [] = ⊥
IsHistory n t (c ∷ []) = (c.iteration ≡ n) × (c.test_run ≡ t)
IsHistory n t (c ∷ d ∷ cs) =
    (c.iteration ≡ n) × ¬ IsPassed c.test_run × IsHistory (n + 1) t (d ∷ cs)

IsHistory-cons :
    (n : ℕ) (t : TestRun) (c : CycleRecord) (cs : List CycleRecord)
    → c.iteration ≡ n
    → ¬ IsPassed c.test_run
    → IsHistory (n + 1) t cs
    → IsHistory n t (c ∷ cs)
IsHistory-cons n t c [] i f h = absurd h
IsHistory-cons n t c (d ∷ cs) i f h = (i, f, h)

-- What is reported of at most so many iterations: as many as there are cycles, the last of which has
-- the test run that is reported and decides on the success.
pub record IsReported (most : ℕ) (r : LoopResult) : Type 0 where
  pub verdict : (r.success ≡ true) ↔ IsPassed r.test_run
  pub one : 1 ≤ r.iterations_used
  pub bounded : r.iterations_used ≤ most
  pub counted : length r.cycles ≡ r.iterations_used
  pub recorded : IsHistory 1 r.test_run r.cycles

abbrev IsReturned : ℕ → Outcome LoopError LoopResult → Type 0
IsReturned most o = (r : LoopResult) × (o ≡ returned r) × IsReported most r

-- What a run with this number as max_iterations ends with.
abbrev pub IsAnswer : Option ℤ → Outcome LoopError LoopResult → Type 0
IsAnswer none o = IsReturned 5 o
IsAnswer (some (pos zero)) o = IsReturned 5 o
IsAnswer (some (pos (suc n))) o = IsReturned (suc n) o
IsAnswer (some (negsuc n)) o = o ≡ raised unbound_local_error

-- An iteration ends the loop with the verdict on its test run, or goes on after a failed one.
iterate-cases :
    {W : Type 0} (run_tests : W → TestRun × W) (commit : ℕ → TestRun → W → Bool × W)
    (fix_callback : Option (TestRun → ℕ → W → FixResult × W))
    (rest : List CycleRecord → TestRun → W → LoopResult × W) (n : ℕ) (before : List CycleRecord)
    (w : W) (Q : LoopResult → Type 0)
    → ((s : Bool) (t : TestRun) (fixed ok : Bool)
        → s ≡ has_passed t
        → Q (finish s t (before ++ (cycle_of n t fixed ok ∷ [])) n))
    → ((t : TestRun) (fixed ok : Bool) (w' : W)
        → has_passed t ≡ false
        → Q (rest (before ++ (cycle_of n t fixed ok ∷ [])) t w').0)
    → Q (iterate run_tests commit fix_callback rest n before w).0
iterate-cases run_tests commit none rest n before w Q stop go = stop _ _ _ _ refl
iterate-cases run_tests commit (some fixer) rest n before w Q stop go =
    let (t, w₁) = run_tests w in
    let (ok, w₂) = commit n t w₁ in
    let (f, w₃) = fixer t n w₂ in
    elim (Bool-cases (has_passed t)) [
      | inl e ↦ rw e (stop true t false ok (sym e))
      | inr e ↦ rw e (elim (Bool-cases f.abort) [
        | inl a ↦ rw a (stop false t (ltb 0 f.fixes_applied) ok (sym e))
        | inr a ↦ rw a (go t (ltb 0 f.fixes_applied) ok w₃ e)
      ])
    ]

iterate-timed_out :
    {W : Type 0} (run_tests : W → TestRun × W) (commit : ℕ → TestRun → W → Bool × W)
    (fix_callback : Option (TestRun → ℕ → W → FixResult × W))
    (rest : List CycleRecord → TestRun → W → LoopResult × W) (w : W)
    → (run_tests w).0.timed_out ≡ true
    → let r = (iterate run_tests commit fix_callback rest 1 [] w).0 in
      (r.success ≡ true) × (r.iterations_used ≡ 1) × (r.test_run ≡ (run_tests w).0)
iterate-timed_out run_tests commit none rest w h = rw h (refl, refl, refl)
iterate-timed_out run_tests commit (some fixer) rest w h = rw h (refl, refl, refl)

module _ {W : Type 0} (run_tests : W → TestRun × W) (commit : ℕ → TestRun → W → Bool × W)
    (fix_callback : Option (TestRun → ℕ → W → FixResult × W)) where
  -- A report, with the cycles it adds to those before.
  abbrev IsReport : ℕ → ℕ → List CycleRecord → LoopResult → Type 0
  IsReport left done before r =
      (r.success ≡ has_passed r.test_run)
      × (done + 1 ≤ r.iterations_used)
      × (r.iterations_used ≤ done + left + 1)
      × ((new : List CycleRecord) × (r.cycles ≡ before ++ new)
          × (done + length new ≡ r.iterations_used)
          × IsHistory (done + 1) r.test_run new)

  loop-IsReport :
      (left done : ℕ) (before : List CycleRecord) (w : W)
      → IsReport left done before (loop run_tests commit fix_callback left done before w).0
  unfolding loop
  loop-IsReport zero done before w =
      iterate-cases run_tests commit fix_callback (λ cs t w. (finish false t cs (done + 1), w))
        (done + 1) before w (IsReport 0 done before)
        (λ s t fixed ok e. (
          e,
          omega arith,
          omega arith,
          (cycle_of (done + 1) t fixed ok ∷ [], refl, omega arith, (refl, refl)),
        ))
        (λ t fixed ok w' e. (
          sym e,
          omega arith,
          omega arith,
          (cycle_of (done + 1) t fixed ok ∷ [], refl, omega arith, (refl, refl)),
        ))
  loop-IsReport (suc left) done before w =
      iterate-cases run_tests commit fix_callback
        (λ cs t w. loop run_tests commit fix_callback left (done + 1) cs w) (done + 1) before w
        (IsReport (suc left) done before)
        (λ s t fixed ok e. (
          e,
          omega arith,
          omega arith,
          (cycle_of (done + 1) t fixed ok ∷ [], refl, omega arith, (refl, refl)),
        ))
        (λ t fixed ok w' e.
          let c = cycle_of (done + 1) t fixed ok in
          let (s, lo, hi, (new, eq, len, h)) =
            loop-IsReport left (done + 1) (before ++ (c ∷ [])) w' in
          (
            s,
            omega arith,
            omega arith,
            (
              c ∷ new,
              eq ∙ append_assoc before (c ∷ []) new,
              omega arith,
              IsHistory-cons _ _ c new refl (failed-IsPassed t e) h,
            ),
          ))

  loop-IsReturned :
      (left : ℕ) (w : W)
      → IsReturned (suc left) (returned (loop run_tests commit fix_callback left 0 [] w).0)
  loop-IsReturned left w =
      let r = (loop run_tests commit fix_callback left 0 [] w).0 in
      let (s, lo, hi, (new, eq, len, h)) = loop-IsReport left 0 [] w in
      let (passed, failed) = has_passed_iff r.test_run in
      (
        r,
        refl,
        record {
          verdict = ((λ e. passed (sym s ∙ e)), (λ p. s ∙ failed p));
          one = omega arith;
          bounded = omega arith;
          counted = rw eq (omega arith);
          recorded = rw eq h;
        },
      )

  -- Where max_iterations is not negative the loop returns: it runs at least once and at most so often,
  -- or five times where the number is 0 or none is given. It reports success exactly if its last test
  -- run was stopped by its time limit, or ended with the return code 0 and without failures and errors;
  -- it counts its cycles rightly and records them in order from 1: of every test run but the last this
  -- is not so, and the last is the one reported. A negative number ends in an UnboundLocalError.
  pub run-IsAnswer :
      (max_iterations : Option ℤ) (w : W)
      → IsAnswer max_iterations (run run_tests commit fix_callback max_iterations w).0
  unfolding run
  run-IsAnswer none w = loop-IsReturned 4 w
  run-IsAnswer (some (pos zero)) w = loop-IsReturned 4 w
  run-IsAnswer (some (pos (suc n))) w = loop-IsReturned n w
  run-IsAnswer (some (negsuc n)) w = refl

  loop-timed_out :
      (left : ℕ) (w : W)
      → (run_tests w).0.timed_out ≡ true
      → let r = (loop run_tests commit fix_callback left 0 [] w).0 in
        (r.success ≡ true) × (r.iterations_used ≡ 1) × (r.test_run ≡ (run_tests w).0)
  unfolding loop
  loop-timed_out zero w h =
      iterate-timed_out run_tests commit fix_callback (λ cs t w. (finish false t cs 1, w)) w h
  loop-timed_out (suc left) w h =
      iterate-timed_out run_tests commit fix_callback
        (λ cs t w. loop run_tests commit fix_callback left 1 cs w) w h

  -- If the first test run times out and max_iterations is not negative, the loop reports success after
  -- one iteration, whatever failures and errors that run has counted and whatever its return code.
  pub run-timed_out :
      (n : ℕ) (w : W)
      → (run_tests w).0.timed_out ≡ true
      → (r : LoopResult) × ((run run_tests commit fix_callback (some (pos n)) w).0 ≡ returned r)
        × (r.success ≡ true)
        × (r.iterations_used ≡ 1)
        × (r.test_run ≡ (run_tests w).0)
  unfolding run
  run-timed_out zero w h = let (a, b, c) = loop-timed_out 4 w h in (_, refl, a, b, c)
  run-timed_out (suc n) w h = let (a, b, c) = loop-timed_out n w h in (_, refl, a, b, c)
