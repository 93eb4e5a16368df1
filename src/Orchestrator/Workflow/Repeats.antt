-- ===== src/Orchestrator/Workflow/Repeats.antt =====
-- Loop detection: an action is performed at most three times between two resets.
use chat_to_agent.Base.{
  ◌-◌, ◌&&◌, ℕ, ◌+◌, ◌≤◌, ◌<◌, ◌≡◌, ◌⊎◌, inl, inr, refl, Bool, true, false, Option, none, some,
  String, List, [], ◌∷◌, arith, str_eq, eq_iff, if◌then◌else◌, truthy, Bool-cases, to_ℕ, ltb,
}
use chat_to_agent.Base.Dict.{Dict, get, put, get-put}
use chat_to_agent.Base.Exec.{Outcome, returned, raised, then_pure, then_pure_result}
use chat_to_agent.Models.Task.{TaskStatus, ValueError, value_error, transition_to}
use chat_to_agent.Orchestrator.Workflow.{WorkflowState, Session}
use chat_to_agent.Orchestrator.Workflow.Tasks.{
  halt_task, execute_step, perform, advance, is_refused, current_state, effective_hash,
  handle_loop_detection, count_of,
}

abbrev counts : Session → Dict (Dict ℕ)
counts s = s.engine.action_counts

halt_task-counts :
    (now : ℕ) (reason : String) (s : Session)
    → (counts (halt_task now reason s).1 ≡ counts s)
      × ((halt_task now reason s).1.task.id ≡ s.task.id)
unfolding halt_task transition_to
halt_task-counts now reason s = ground arith

advance-counts :
    (now : ℕ) (n r : String) (st : WorkflowState) (next : Option WorkflowState) (s : Session)
    → (counts (advance now n r st next s).1 ≡ counts s)
      × ((advance now n r st next s).1.task.id ≡ s.task.id)
unfolding advance transition_to
advance-counts now n r st none s = ground arith
advance-counts now n r st (some next) s = ground arith

perform-counts :
    (now : ℕ) (n r k : String) (s : Session)
    → (counts (perform now n r k s).1 ≡ (handle_loop_detection s.task k s.engine).1.action_counts)
      × ((perform now n r k s).1.task.id ≡ s.task.id)
unfolding perform
perform-counts now n r k s =
    let counted : Session = record s { engine = (handle_loop_detection s.task k s.engine).1 } in
    elim (Bool-cases (handle_loop_detection s.task k s.engine).0) [
      | inl e ↦
          rw e (rw (then_pure false (halt_task now _) counted) (halt_task-counts now _ counted))
      | inr e ↦ rw e (advance-counts now n r (current_state counted) _ counted)
    ]

-- One step counts its action once, and no other action.
pub perform-count_of :
    (now : ℕ) (n r k h : String) (s : Session)
    → count_of s.task.id h (perform now n r k s).1.engine
      ≡ count_of s.task.id h s.engine + (if str_eq k h then 1 else 0)
unfolding handle_loop_detection
perform-count_of now n r k h s =
    let known : Dict ℕ = truthy (get s.task.id s.engine.action_counts) [] in
    let count : ℕ = count_of s.task.id k s.engine + 1 in
    rw (perform-counts now n r k s).0 (
      ground (
        arith,
        get-put s.task.id s.task.id (put k count known) s.engine.action_counts,
        get-put k h count known,
        eq_iff s.task.id s.task.id,
        eq_iff k h,
      ))

perform-performed :
    (now : ℕ) (n r k : String) (s : Session)
    → (perform now n r k s).0 ≡ returned true
    → count_of s.task.id k s.engine < 3
unfolding perform
perform-performed now n r k s e =
    let counted : Session = record s { engine = (handle_loop_detection s.task k s.engine).1 } in
    elim (Bool-cases (ltb 3 (count_of s.task.id k s.engine + 1))) [
      | inl many ↦ cc (then_pure_result false true (halt_task now _) counted (rw many at e))
      | inr few ↦ ground arith
    ]

-- What a task is asked to do: the time, the step, the agent, the result and the action hash.
pub record Ask : Type 0 where
  pub now : ℕ
  pub step_name : String
  pub agent_type : String
  pub result : String
  pub action_hash : Option String

abbrev pub hash_of : Ask → String
hash_of a = effective_hash a.step_name a.agent_type a.action_hash

abbrev pub ask : Ask → Session → Outcome ValueError Bool × Session
ask a = execute_step a.now a.step_name a.agent_type a.result a.action_hash

abbrev performed : Outcome ValueError Bool → Bool
performed (returned b) = b
performed (raised e) = false

-- How many of the asked steps with this hash are performed, in turn.
pub times_performed : String → List Ask → Session → ℕ
times_performed h [] s = 0
times_performed h (a ∷ as') s =
    to_ℕ (str_eq (hash_of a) h && performed (ask a s).0) + times_performed h as' (ask a s).1

ask-cases :
    (a : Ask) (s : Session)
    → (ask a s ≡ (raised value_error, s))
      ⊎ (ask a s ≡ perform a.now a.step_name a.result (hash_of a) s)
unfolding execute_step
ask-cases a s = elim (Bool-cases (is_refused s.task.status)) [
  | inl e ↦ inl (rw e)
  | inr e ↦ inr (rw e)
]

performed-true : (o : Outcome ValueError Bool) → performed o ≡ true → o ≡ returned true
performed-true (returned true) h = refl
performed-true (returned false) h = cc
performed-true (raised e) h = cc

ask-count_of :
    (a : Ask) (h : String) (s : Session)
    → ((ask a s).1.task.id ≡ s.task.id)
      × (to_ℕ (str_eq (hash_of a) h && performed (ask a s).0) + count_of s.task.id h s.engine
          ≤ count_of s.task.id h (ask a s).1.engine)
      × (str_eq (hash_of a) h && performed (ask a s).0 ≡ true → count_of s.task.id h s.engine < 3)
ask-count_of a h s =
    let result = perform a.now a.step_name a.result (hash_of a) s in
    elim (ask-cases a s) [
      | inl e ↦ rw e (ground arith)
      | inr e ↦ rw e (
          ground (
            arith,
            perform-counts a.now a.step_name a.result (hash_of a) s,
            perform-count_of a.now a.step_name a.result (hash_of a) h s,
            perform-performed a.now a.step_name a.result (hash_of a) s,
            performed-true result.0,
            eq_iff (hash_of a) h,
          ))
    ]

-- However its steps are asked for and mixed with others, an action whose count starts below the
-- limit is performed so often at most as the count has room below 3.
pub times_performed-le :
    (h : String) (as' : List Ask) (s : Session)
    → times_performed h as' s ≤ 3 - count_of s.task.id h s.engine
unfolding times_performed
times_performed-le h [] s = omega arith
times_performed-le h (a ∷ as') s =
    ground (arith, ask-count_of a h s, times_performed-le h as' (ask a s).1)

-- A task that may run, asked once more for an action counted three times or more, is not stepped:
-- the call returns False, and the task and the engine have it HALTED.
pub repeated-halts :
    (a : Ask) (s : Session)
    → is_refused s.task.status ≡ false
    → 3 ≤ count_of s.task.id (hash_of a) s.engine
    → ((ask a s).0 ≡ returned false)
      × ((ask a s).1.task.status ≡ TaskStatus.halted)
      × (current_state (ask a s).1 ≡ WorkflowState.halted)
      × ((ask a s).1.task.current_step ≡ s.task.current_step)
unfolding execute_step transition_to
repeated-halts a s w h =
    let many : ltb 3 (count_of s.task.id (hash_of a) s.engine + 1) ≡ true = ground arith in
    rw (w, many)
      (ground (
        arith,
        get-put s.task.id s.task.id WorkflowState.halted s.engine.task_states,
        eq_iff s.task.id s.task.id,
      ))
