-- ===== src/Models/Task/Lifecycle.antt =====
-- What a task's history can do to it: its final states absorb, and its time of completion is set
-- there and nowhere else.
use chat_to_agent.Base.{
  ◌∙◌, ◌≢◌, length, leb, if◌then◌else◌, ℕ, suc, ◌+◌, ◌≤◌, ◌≡◌, refl, true, String, List, [], ◌∷◌,
  is_some, arith,
}
use chat_to_agent.Base.Exec.{Outcome}
use chat_to_agent.Models.Task.{
  Task, TaskStatus, done, dlq, failed, TaskPriority, TaskType, new, is_final, ValueError,
  transition_to, mark_failed,
}

-- What the rest of the program asks of a task, with the time of the call.
pub data Call : Type 0 where
  transitions : ℕ → TaskStatus → Call
  fails : ℕ → String → Call

unfoldable pub step : Task → Call → Outcome ValueError (Unit {0}) × Task
step t (transitions now s) = transition_to now s t
step t (fails now error) = mark_failed now error t

-- A caller that catches the exception goes on with the task that the call left.
unfoldable pub run : Task → List Call → Task
run t [] = t
run t (c ∷ cs) = run (step t c).1 cs

-- The completion time is there exactly when the status is DONE or DLQ.
pub record IsStamped (t : Task) : Type 0 where
  pub stamped : is_some t.completed_at ≡ is_final t.status

step-IsStamped : (t : Task) (c : Call) → IsStamped t → IsStamped (step t c).1
unfolding step transition_to mark_failed
step-IsStamped t (transitions now s) h = record { stamped = ground (arith, h.stamped) }
step-IsStamped t (fails now error) h = record { stamped = ground (arith, h.stamped) }

step_final :
    (t : Task) (c : Call)
    → is_final t.status ≡ true
    → ((step t c).1.status ≡ t.status) × ((step t c).1.completed_at ≡ t.completed_at)
unfolding step transition_to mark_failed
step_final t (transitions now s) h = ground arith
step_final t (fails now error) h = ground arith

-- In a final status, whatever is asked of the task, the status and the completion time stay.
pub run_final :
    (t : Task) (cs : List Call)
    → is_final t.status ≡ true
    → ((run t cs).status ≡ t.status) × ((run t cs).completed_at ≡ t.completed_at)
unfolding run
run_final t [] h = (refl, refl)
run_final t (c ∷ cs) h =
    let (s, e) = step_final t c h in
    let (s', e') = run_final (step t c).1 cs (rw s h) in (s' ∙ s, e' ∙ e)

run-IsStamped : (t : Task) (cs : List Call) → IsStamped t → IsStamped (run t cs)
unfolding run
run-IsStamped t [] h = h
run-IsStamped t (c ∷ cs) h = run-IsStamped (step t c).1 cs (step-IsStamped t c h)

new-IsStamped :
    (i p : String) (u : TaskPriority) (k : TaskType) (now : ℕ) → IsStamped (new i p u k now)
unfolding new
new-IsStamped i p u k now = record { stamped = refl }

-- After any calls on a new task, it has a completion time exactly when its status is DONE or DLQ.
pub new-run-IsStamped :
    (i p : String) (u : TaskPriority) (k : TaskType) (now : ℕ) (cs : List Call)
    → is_some (run (new i p u k now) cs).completed_at ≡ is_final (run (new i p u k now) cs).status
new-run-IsStamped i p u k now cs =
    (run-IsStamped (new i p u k now) cs (new-IsStamped i p u k now)).stamped

-- A task that has not succeeded, and is in the DLQ only with its retries spent.
pub record IsRetrying (t : Task) : Type 0 where
  pub undone : t.status ≢ done
  pub spent : t.status ≡ dlq → t.max_retries ≤ t.retry_count

-- `mark_failed` with each of these errors, in turn.
abbrev pub fail_all : ℕ → Task → List String → Task
fail_all now t [] = t
fail_all now t (e ∷ es) = fail_all now (mark_failed now e t).1 es

mark_failed-IsRetrying :
    (now : ℕ) (e : String) (t : Task) → IsRetrying t → IsRetrying (mark_failed now e t).1
unfolding mark_failed transition_to
mark_failed-IsRetrying now e t h = ground arith

mark_failed-fields :
    (now : ℕ) (e : String) (t : Task)
    → IsRetrying t
    → ((mark_failed now e t).1.retry_count ≡ suc t.retry_count)
      × ((mark_failed now e t).1.max_retries ≡ t.max_retries)
      × ((mark_failed now e t).1.status
          ≡ (if leb t.max_retries (suc t.retry_count) then dlq else failed))
unfolding mark_failed transition_to
mark_failed-fields now e t h = ground arith

-- A task with failures only goes to the DLQ with the failure that spends its last retry, and is
-- FAILED before that.
pub fail_all-status :
    (now : ℕ) (t : Task) (e : String) (es : List String)
    → IsRetrying t
    → ((fail_all now t (e ∷ es)).status
        ≡ (if leb t.max_retries (t.retry_count + length (e ∷ es)) then dlq else failed))
      × ((fail_all now t (e ∷ es)).retry_count ≡ t.retry_count + length (e ∷ es))
fail_all-status now t e [] h = ground (arith, mark_failed-fields now e t h)
fail_all-status now t e (e' ∷ es) h = ground (
  arith,
  mark_failed-fields now e t h,
  fail_all-status now (mark_failed now e t).1 e' es (mark_failed-IsRetrying now e t h),
)
