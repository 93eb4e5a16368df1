-- ===== src/Intelligence/Recovery/History.antt =====
-- What a run leaves in the history.
use chat_to_agent.Base.{
  Bool-cases, Option-cases, length, drop, ℕ, zero, suc, ◌-◌, ◌≤◌, ◌≡◌, refl, inl, inr, List, [],
  ◌∷◌, ◌++◌, arith,
}
use chat_to_agent.Base.Exec.{Outcome-cases}
use chat_to_agent.Base.{
  Bool-cases, Option-cases, length, drop, ℕ, zero, suc, ◌-◌, ◌≤◌, ◌≡◌, refl, inl, inr, List, [],
  ◌∷◌, ◌++◌, arith,
}
use chat_to_agent.Intelligence.Recovery.{
  RecoveryStep, RecoveryOutcome, RecoveryCascade, cost, cascade_order, is_confident, failed_outcome,
  record_outcome, run_steps, run, last_slice,
}

length-drop : {A : Type 0} (n : ℕ) (xs : List A) → length (drop n xs) ≡ length xs - n
length-drop zero xs = omega arith
length-drop (suc n) [] = omega arith
length-drop (suc n) (x ∷ xs) = omega (arith, length-drop n xs)

length-last_slice : {A : Type 0} (n : ℕ) (xs : List A) → 1 ≤ n → length (last_slice n xs) ≤ n
length-last_slice zero xs h = absurd (omega arith)
length-last_slice (suc n) xs h = omega (arith, length-drop (length xs - suc n) xs)

module _ {S : Type 0} where
  record_outcome-le :
      (o : RecoveryOutcome) (c : RecoveryCascade S)
      → 1 ≤ c.max_history
      → length (record_outcome o c).history ≤ c.max_history
  unfolding record_outcome
  record_outcome-le o c h =
      ground (arith, length-last_slice c.max_history (c.history ++ (o ∷ [])) h)

  run_steps-history :
      (steps : List RecoveryStep) (c : RecoveryCascade S) (context : S)
      → 1 ≤ c.max_history
      → length c.history ≤ c.max_history
      → let d = (run_steps steps c context).1 in
        (length d.history ≤ d.max_history) × (d.max_history ≡ c.max_history)
  unfolding run_steps failed_outcome record_outcome
  run_steps-history [] c context m h = (h, refl)
  run_steps-history (s ∷ steps) c context m h = elim (Option-cases (c.handlers s)) [
    | inl e ↦ rw (e, run_steps) (run_steps-history steps c context m h)
    | inr (handler, e) ↦
        rw (e, run_steps)
          (elim (Outcome-cases (handler context).0) [
            | inr (text, f) ↦ rw (f, run_steps) (run_steps-history steps c (handler context).1 m h)
            | inl (result, f) ↦
                let o = record result { cost = cost s } in
                let le = record_outcome-le o c m in
                rw (f, run_steps)
                  (elim (Bool-cases (is_confident c.min_confidence o)) [
                    | inl g ↦ rw (g, run_steps) (le, refl)
                    | inr g ↦
                        rw (g, run_steps)
                          (run_steps-history steps (record_outcome o c) (handler context).1 m le)
                  ])
          ])
  ]

  -- A history within a positive limit stays within it, whatever the handlers do.
  pub run-history-le :
      (c : RecoveryCascade S) (context : S)
      → 1 ≤ c.max_history
      → length c.history ≤ c.max_history
      → length (run c context).1.history ≤ c.max_history
  unfolding run
  run-history-le c context m h =
      let (le, e) = run_steps-history cascade_order c context m h in ground (arith, le, e)
