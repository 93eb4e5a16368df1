-- ===== src/Runtime.antt =====
-- ai_orchestrator/runtime/loop.py and types.py. The test runner, the commit and the fixer are
-- arguments: methods on a workspace of the caller's choice. An exception of the runner or the fixer,
-- which leaves `run` at once, is not modelled; one of the commit is, as its result. Durations are
-- left out.
pub mod Cycles
use chat_to_agent.Base.{
  ltb, ◌==◌, if◌then◌else◌, ℕ, zero, suc, ◌+◌, ◌-◌, String, Bool, true, false, ◌&&◌, ◌||◌, Option,
  none, some, List, [], ◌∷◌, ◌++◌,
}
use chat_to_agent.Base.Exec.{Outcome, returned, raised}
use chat_to_agent.Security.Sandbox.{ReturnCode, exited, killed}
use chat_to_agent.Testing.Reading.{TestRun}

pub record FixResult : Type 0 where
  pub fixes_applied : ℕ
  pub message : String
  pub abort : Bool

pub record CycleRecord : Type 0 where
  pub iteration : ℕ
  pub test_run : TestRun
  pub fix_applied : Bool
  pub committed : Bool

pub record LoopResult : Type 0 where
  pub success : Bool
  pub test_run : TestRun
  pub cycles : List CycleRecord
  pub iterations_used : ℕ

abbrev pub is_success_code : ReturnCode → Bool
is_success_code (exited n) = n == 0
is_success_code (killed n) = false

abbrev pub has_passed : TestRun → Bool
has_passed r = r.timed_out || (is_success_code r.return_code && (r.failed == 0) && (r.error == 0))

-- A Python int: `pos n` is n, `negsuc n` is - (n + 1).
pub data ℤ : Type 0 where
  pos negsuc : ℕ → ℤ

-- A name is read that no iteration has bound.
pub data LoopError : Type 0 where
  unbound_local_error : LoopError

-- `max_iterations or self.MAX_ITERATIONS`
abbrev pub limit_of : Option ℤ → ℤ
limit_of none = pos 5
limit_of (some (pos zero)) = pos 5
limit_of (some (pos (suc n))) = pos (suc n)
limit_of (some (negsuc n)) = negsuc n

abbrev pub cycle_of : ℕ → TestRun → Bool → Bool → CycleRecord
cycle_of n t fixed ok = record { iteration = n; test_run = t; fix_applied = fixed; committed = ok }

abbrev pub finish : Bool → TestRun → List CycleRecord → ℕ → LoopResult
finish s t cs n = record { success = s; test_run = t; cycles = cs; iterations_used = n }

-- The test runner on a workspace, with the detection of the framework and the purge of bytecode
-- before it; the commit with its iteration and run, which tells whether it went through; and the
-- fixer with its run and iteration, if there is one.
module _ {W : Type 0} (run_tests : W → TestRun × W) (commit : ℕ → TestRun → W → Bool × W)
    (fix_callback : Option (TestRun → ℕ → W → FixResult × W)) where
  -- One iteration; the rest of the loop is an argument, with the cycles and the last test run.
  abbrev iterate :
      (List CycleRecord → TestRun → W → LoopResult × W) → ℕ → List CycleRecord → W → LoopResult × W
  iterate rest iteration cycles w =
      let (t, w₁) = run_tests w in
      let (ok, w₂) = commit iteration t w₁ in
      elim fix_callback [
        | none ↦
            (finish (has_passed t) t (cycles ++ (cycle_of iteration t false ok ∷ [])) iteration, w₂)
        | some fixer ↦
            if has_passed t
            then (finish true t (cycles ++ (cycle_of iteration t false ok ∷ [])) iteration, w₂)
            else (let (f, w₃) = fixer t iteration w₂ in
                let cs = cycles ++ (cycle_of iteration t (ltb 0 f.fixes_applied) ok ∷ []) in
                if f.abort then (finish false t cs iteration, w₃) else rest cs t w₃)
      ]

  -- The iterations from the one after `done` on, with so many left after that one.
  unfoldable pub loop : ℕ → ℕ → List CycleRecord → W → LoopResult × W
  loop zero done = iterate (λ cs t w. (finish false t cs (done + 1), w)) (done + 1)
  loop (suc left) done = iterate (λ cs t w. loop left (done + 1) cs w) (done + 1)

  -- The loop with this limit: without an iteration there is no test run for the result.
  abbrev run_limited : ℤ → W → Outcome LoopError LoopResult × W
  run_limited (pos zero) w = (raised unbound_local_error, w)
  run_limited (pos (suc left)) w = let (r, w') = loop left 0 [] w in (returned r, w')
  run_limited (negsuc n) w = (raised unbound_local_error, w)

  -- `run`, after the repository is initialised.
  unfoldable pub run : Option ℤ → W → Outcome LoopError LoopResult × W
  unfolding loop
  run max_iterations = run_limited (limit_of max_iterations)
