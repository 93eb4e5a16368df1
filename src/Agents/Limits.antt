-- ===== src/Agents/Limits.antt =====
-- How much an agent can do.
use chat_to_agent.Base.{
  Bool-cases, length, length-append, ℕ, zero, suc, ◌+◌, ◌≤◌, ◌<◌, String, ◌≡◌, refl, sym, ap, ◌∙◌,
  inl, inr, true, List, [], ◌∷◌, arith,
}
use chat_to_agent.Base.Exec.{Outcome, Outcome-cases}
use chat_to_agent.Agents.{AgentResult, BaseAgent, new_agent, check_limits, record_action, run_step}

room_left : (now : ℕ) (a : BaseAgent) → check_limits now a ≡ true → a.step_count < a.max_steps
unfolding check_limits
room_left now a e = ground arith

module _ {W E : Type 0} (run_execute : W → Outcome E AgentResult × W) where
  -- The steps, each with the clock before and after it.
  unfoldable pub run : List (ℕ × ℕ) → BaseAgent × W → BaseAgent × W
  run [] s = s
  run ((now, later) ∷ rest) s = run rest (run_step run_execute now later s).1

  -- The surroundings after so many executions.
  abbrev pub executed : ℕ → W → W
  executed zero w = w
  executed (suc n) w = (run_execute (executed n w)).1

  executed_next : (n : ℕ) (w : W) → executed (n + 1) w ≡ (run_execute (executed n w)).1
  executed_next n w = let e : n + 1 ≡ suc n = omega arith in ap (λ (k : ℕ). executed k w) e

  -- Against the surroundings at the start.
  pub record IsWithin (steps : ℕ) (start : W) (s : BaseAgent × W) : Type 0 where
    pub same_limit : s.0.max_steps ≡ steps
    pub few_steps : s.0.step_count ≤ steps
    pub few_actions : length s.0.actions ≤ s.0.step_count
    pub all_counted : s.1 ≡ executed s.0.step_count start

  step-IsWithin :
      (steps now later : ℕ) (start : W) (s : BaseAgent × W)
      → IsWithin steps start s
      → IsWithin steps start (run_step run_execute now later s).1
  unfolding run_step record_action
  step-IsWithin steps now later start (a, w) h = elim (Bool-cases (check_limits now a)) [
    | inr e ↦ rw e h
    | inl e ↦
        let room : a.step_count < a.max_steps = room_left now a e in
        let next : (run_execute w).1 ≡ executed (a.step_count + 1) start =
          ap (λ v. (run_execute v).1) h.all_counted ∙ sym (executed_next a.step_count start) in
        elim (Outcome-cases (run_execute w).0) [
          | inr (x, f) ↦
              rw (e, f)
                (record {
                  same_limit = h.same_limit;
                  few_steps = omega (arith, room, h.same_limit);
                  few_actions = omega (arith, h.few_actions);
                  all_counted = next;
                })
          | inl (r, f) ↦
              rw (e, f)
                (record {
                  same_limit = h.same_limit;
                  few_steps = omega (arith, room, h.same_limit);
                  few_actions = omega (arith, h.few_actions, length-append a.actions (_ ∷ []));
                  all_counted = next;
                })
        ]
  ]

  run-IsWithin :
      (rs : List (ℕ × ℕ)) (steps : ℕ) (start : W) (s : BaseAgent × W)
      → IsWithin steps start s
      → IsWithin steps start (run rs s)
  unfolding run
  run-IsWithin [] steps start s h = h
  run-IsWithin ((now, later) ∷ rest) steps start s h =
      run-IsWithin rest steps start (run_step run_execute now later s).1
        (step-IsWithin steps now later start s h)

  -- After any steps of a new agent, whatever its `execute` does, it has executed as often as it has
  -- counted, which is at most its maximum of steps, and its log has no more entries than that.
  pub new_agent-run-IsWithin :
      (kind : String) (steps runtime : ℕ) (rs : List (ℕ × ℕ)) (w : W)
      → IsWithin steps w (run rs (new_agent kind steps runtime, w))
  unfolding new_agent
  new_agent-run-IsWithin kind steps runtime rs w =
      run-IsWithin rs steps w (new_agent kind steps runtime, w)
        (record {
          same_limit = refl;
          few_steps = omega arith;
          few_actions = omega arith;
          all_counted = refl;
        })
