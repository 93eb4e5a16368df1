-- ===== src/Security/Sandbox/Outputs.antt =====
-- How much of a command's output is kept.
use chat_to_agent.Base.{
  ltb, Bool-cases, length, ℕ, zero, suc, ◌≤◌, String, ◌≡◌, refl, sym, ap, ◌↔◌, inl, inr, Bool, true,
  false, ◌||◌, Option, none, some, List, [], ◌∷◌, take, arith,
}
use chat_to_agent.Base.{take}
use chat_to_agent.Base.Dict.{Dict}
use chat_to_agent.Security.Sandbox.{
  World, Command, SandboxResult, Launch, missing, ended, overran, ReturnCode, build_preexec,
  run_process, max_output_bytes, is_cut, capped, result_of,
}

length-take : {A : Type 0} (n : ℕ) (xs : List A) → length (take n xs) ≤ n
length-take zero xs = omega arith
length-take (suc n) [] = omega arith
length-take (suc n) (x ∷ xs) = omega (arith, length-take n xs)

take_all : {A : Type 0} (n : ℕ) (xs : List A) → length xs ≤ n → take n xs ≡ xs
take_all zero [] h = refl
take_all zero (x ∷ xs) h = absurd (omega (arith, h))
take_all (suc n) [] h = refl
take_all (suc n) (x ∷ xs) h = ap (λ ys. x ∷ ys) (take_all n xs (omega (arith, h)))

capped_lem : (out : List ℕ) → capped out ≡ take max_output_bytes out
capped_lem out = elim (Bool-cases (is_cut out)) [
  | inl e ↦ rw e refl
  | inr e ↦ rw e (sym (take_all max_output_bytes out (ground (arith, e))))
]

-- What is at hand of the two streams when the result is made: all that a process wrote that has ended,
-- and of one that was killed for its time what was still in the pipes.
abbrev pub streams : Launch → Option (List ℕ × List ℕ)
streams missing = none
streams (ended out err code) = some (out, err)
streams (overran read_out read_err out err code) = some (out, err)

-- The streams of a result are the beginnings of these, and it tells whether they are more.
pub record IsCapped (out err : List ℕ) (r : SandboxResult) : Type 0 where
  pub out_first : r.stdout ≡ take max_output_bytes out
  pub err_first : r.stderr ≡ take max_output_bytes err
  pub out_bounded : length r.stdout ≤ max_output_bytes
  pub err_bounded : length r.stderr ≤ max_output_bytes
  pub told :
      (r.truncated ≡ false) ↔ ((length out ≤ max_output_bytes) × (length err ≤ max_output_bytes))

uncut_iff : (n m k : ℕ) → ((ltb n m || ltb n k) ≡ false) ↔ ((m ≤ n) × (k ≤ n))
uncut_iff n m k = ground arith

abbrev kept : List ℕ → List ℕ → ReturnCode → Bool → ℕ → SandboxResult
kept out err code late ms = record {
  stdout = capped out;
  stderr = capped err;
  return_code = code;
  timed_out = late;
  duration_ms = ms;
  truncated = is_cut out || is_cut err;
}

kept-IsCapped :
    (out err : List ℕ) (code : ReturnCode) (late : Bool) (ms : ℕ)
    → IsCapped out err (kept out err code late ms)
kept-IsCapped out err code late ms = record {
  out_first = capped_lem out;
  err_first = capped_lem err;
  out_bounded = rw (capped_lem out) (length-take max_output_bytes out);
  err_bounded = rw (capped_lem err) (length-take max_output_bytes err);
  told = uncut_iff max_output_bytes (length out) (length err);
}

pair_same :
    (a b out err : List ℕ)
    → ◌≡◌ {A = Option (List ℕ × List ℕ)} (some (a, b)) (some (out, err))
    → (a ≡ out) × (b ≡ err)
pair_same a b out err e = ground arith

module _ (w : World) (words : List String) (variables : Dict String) (time : ℕ)
    (directory : Option String) (memory : Option ℕ) where
  abbrev issued : Command
  issued = record {
    cmd = words;
    env = variables;
    cwd = directory;
    timeout_ms = time;
    limit = build_preexec w memory;
  }

  abbrev pub launched : Launch
  launched = (w.launch issued).0

  result-IsCapped :
      (l : Launch) (out err : List ℕ) (c : Command) (ms : ℕ)
      → streams l ≡ some (out, err)
      → IsCapped out err (result_of w c l ms)
  result-IsCapped missing out err c ms e = cc
  result-IsCapped (ended a b code) out err c ms e =
      let (p, q) = pair_same a b out err e in rw (← p, ← q) (kept-IsCapped a b code false ms)
  result-IsCapped (overran read_out read_err a b code) out err c ms e =
      let (p, q) = pair_same a b out err e in rw (← p, ← q) (kept-IsCapped a b code true ms)

  -- The result of a command that has ended has the first 1048576 bytes of each of the two streams that
  -- it wrote, and is marked as truncated exactly when one of them is longer. For one that ran out of time
  -- the same holds of what was still in the pipes after it was killed: what had been read before is
  -- lost, and does not count for the mark.
  pub run_process-IsCapped :
      (out err : List ℕ)
      → streams launched ≡ some (out, err)
      → IsCapped out err (run_process w words variables time directory memory)
  unfolding run_process
  run_process-IsCapped out err e = result-IsCapped launched out err issued (w.launch issued).1 e
