-- ===== src/Intelligence/Recovery/Cheapest.antt =====
-- Which steps the cascade tries, and where it stops.
use chat_to_agent.Base.{
  if◌then◌else◌, Bool-cases, Option-cases, leb, ◌&&◌, String, false, ℕ, ◌≡◌, refl, inl, inr, Option,
  none, some, List, [], ◌∷◌,
}
use chat_to_agent.Base.Exec.{Outcome, returned, raised, Outcome-cases}
use chat_to_agent.Intelligence.Recovery.{
  RecoveryStep, RecoveryAction, RecoveryOutcome, RecoveryCascade, cost, cascade_order, is_confident,
  failed_outcome, record_outcome, run_steps, run,
}

-- The outcome that stands for the answer of a step's handler: what it returned, with the cost of the
-- step, and for an exception a failure of the step without confidence, with its text.
abbrev pub IsOutcomeOf : RecoveryStep → Outcome String RecoveryOutcome → RecoveryOutcome → Type 0
IsOutcomeOf s (returned r) o =
    (o.step ≡ r.step)
    × (o.success ≡ r.success)
    × (o.confidence ≡ r.confidence)
    × (o.detail ≡ r.detail)
    × (o.cost ≡ cost s)
IsOutcomeOf s (raised text) o =
    (o.step ≡ s) × (o.success ≡ false) × (o.confidence ≡ 0) × (o.detail ≡ text) × (o.cost ≡ cost s)

-- The outcomes of a cascade whose steps would answer so, each tried after those before it: an outcome
-- for every answer, in order, up to the first that is a success of at least the least confidence.
abbrev pub IsChain :
    ℕ → List (RecoveryStep × Outcome String RecoveryOutcome) → List RecoveryOutcome → Type 0
IsChain least [] [] = Unit
IsChain least [] (o ∷ os) = ⊥
IsChain least (x ∷ xs) [] = ⊥
IsChain least ((s, answer) ∷ xs) (o ∷ os) =
    IsOutcomeOf s answer o
    × (if o.success && leb least o.confidence then os ≡ [] else IsChain least xs os)

module _ {S : Type 0} where
  -- What the handlers of the steps that have one answer, when each gets the context as the one before
  -- leaves it.
  abbrev pub answers :
      (RecoveryStep → Option (RecoveryAction S))
      → List RecoveryStep
      → S
      → List (RecoveryStep × Outcome String RecoveryOutcome)
  answers hs [] context = []
  answers hs (s ∷ steps) context = elim (hs s) [
    | none ↦ answers hs steps context
    | some handler ↦ (s, (handler context).0) ∷ answers hs steps (handler context).1
  ]

  run_steps-IsChain :
      (steps : List RecoveryStep) (c : RecoveryCascade S) (context : S)
      → IsChain c.min_confidence (answers c.handlers steps context) (run_steps steps c context).0
  unfolding run_steps failed_outcome record_outcome
  run_steps-IsChain [] c context = tt
  run_steps-IsChain (s ∷ steps) c context = elim (Option-cases (c.handlers s)) [
    | inl e ↦ rw (e, run_steps, answers) (run_steps-IsChain steps c context)
    | inr (handler, e) ↦
        let context' = (handler context).1 in
        rw (e, run_steps, answers)
          (elim (Outcome-cases (handler context).0) [
            | inr (text, f) ↦
                rw (f, run_steps)
                  ((refl, refl, refl, refl, refl), run_steps-IsChain steps c context')
            | inl (result, f) ↦
                let o = record result { cost = cost s } in
                rw (f, run_steps)
                  (elim (Bool-cases (is_confident c.min_confidence o)) [
                    | inl g ↦ rw (g, run_steps) ((refl, refl, refl, refl, refl), rw g refl)
                    | inr g ↦
                        rw (g, run_steps)
                          (
                            (refl, refl, refl, refl, refl),
                            rw (g, run_steps)
                                (run_steps-IsChain steps (record_outcome o c) context'),
                          )
                  ])
          ])
  ]

  -- A run asks the handlers of the steps in the order of the cascade, each in the context that the one
  -- before left, and gives an outcome for each, up to the first success of at least the least
  -- confidence, and for all if there is none. An outcome is what the handler returned, with the cost
  -- of the step; for a handler that raises it is a failure without confidence, so that the next step
  -- is tried.
  pub run-IsChain :
      (c : RecoveryCascade S) (context : S)
      → IsChain c.min_confidence (answers c.handlers cascade_order context) (run c context).0
  unfolding run
  run-IsChain c context = run_steps-IsChain cascade_order c context
