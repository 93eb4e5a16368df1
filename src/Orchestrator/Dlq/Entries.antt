-- ===== src/Orchestrator/Dlq/Entries.antt =====
-- What is in the dead letter queue after any calls: each task once, and no more than the limit.
use chat_to_agent.Base.{
  leb, if◌then◌else◌, to_ℕ, length, length-append, drop, keep, ℕ, ◌+◌, ◌≤◌, String, ◌≡◌, refl, ◌∙◌,
  Bool, Option, some, List, [], ◌∷◌, ◌++◌, arith, str_eq, eq_iff,
}
use chat_to_agent.Models.Task.{Task}
use chat_to_agent.Orchestrator.Dlq.{
  DlqEntry, DeadLetterQueue, new_entry, empty_queue, is_other, trim, push, pop_entry, pop, clear,
}

abbrev pub is_for : String → DlqEntry → ℕ
is_for k e = to_ℕ (str_eq e.task_id k)

-- How many entries the task has.
abbrev pub entries_for : String → List DlqEntry → ℕ
entries_for k [] = 0
entries_for k (e ∷ es) = is_for k e + entries_for k es

entries_for-append :
    (k : String) (xs ys : List DlqEntry)
    → entries_for k (xs ++ ys) ≡ entries_for k xs + entries_for k ys
entries_for-append k [] ys = omega arith
entries_for-append k (x ∷ xs) ys = omega (arith, entries_for-append k xs ys)

entries_for-keep :
    (k j : String) (es : List DlqEntry)
    → (entries_for k (keep (is_other j) es) ≡ (if str_eq k j then 0 else entries_for k es))
      × (length (keep (is_other j) es) ≤ length es)
unfolding keep
entries_for-keep k j [] = ground arith
entries_for-keep k j (e ∷ es) =
    ground (arith, entries_for-keep k j es, eq_iff k j, eq_iff e.task_id k, eq_iff e.task_id j)

trim-le :
    (k : String) (m : ℕ) (es : List DlqEntry)
    → (entries_for k (trim m es) ≤ entries_for k es) × (length es ≤ m + 1 → length (trim m es) ≤ m)
unfolding trim
trim-le k m [] = ground arith
trim-le k m (e ∷ es) = ground arith

pop_entry-le :
    (k j : String) (es : List DlqEntry)
    → (entries_for k (pop_entry j es).1 ≤ entries_for k es)
      × (length (pop_entry j es).1 ≤ length es)
unfolding pop_entry
pop_entry-le k j [] = ground arith
pop_entry-le k j (e ∷ es) = ground (arith, pop_entry-le k j es)

-- Each task has one entry at most, and there are no more than the limit.
abbrev pub IsBounded : DeadLetterQueue → Type 0
IsBounded q = ((k : String) → entries_for k q.entries ≤ 1) × (length q.entries ≤ q.max_entries)

-- The calls that change the queue.
pub data Call : Type 0 where
  pushes : ℕ → Task → String → String → String → Option (List String) → Call
  pops : String → Call
  clears : Call

abbrev pub step : DeadLetterQueue → Call → DeadLetterQueue
step q (pushes now t e p a ls) = (push now t e p a ls q).1
step q (pops k) = (pop k q).1
step q clears = clear q

abbrev pub run : DeadLetterQueue → List Call → DeadLetterQueue
run q [] = q
run q (c ∷ cs) = run (step q c) cs

step-max : (q : DeadLetterQueue) (c : Call) → (step q c).max_entries ≡ q.max_entries
unfolding push pop clear
step-max q (pushes now t e p a ls) = refl
step-max q (pops k) = refl
step-max q clears = refl

step-IsBounded : (q : DeadLetterQueue) (c : Call) → IsBounded q → IsBounded (step q c)
unfolding push pop clear new_entry
step-IsBounded q (pushes now t e p a ls) h =
    let d = new_entry now t e p a ls in
    let kept = keep (is_other t.id) q.entries in
    (
      λ k. ground (
        arith,
        trim-le k q.max_entries (kept ++ (d ∷ [])),
        entries_for-append k kept (d ∷ []),
        entries_for-keep k t.id q.entries,
        eq_iff t.id k,
        eq_iff k t.id,
        h.0 k,
      ),
      ground (
        arith,
        trim-le "" q.max_entries (kept ++ (d ∷ [])),
        length-append kept (d ∷ []),
        entries_for-keep "" t.id q.entries,
        h.1,
      ),
    )
step-IsBounded q (pops j) h = (
  λ k. ground (arith, pop_entry-le k j q.entries, h.0 k),
  ground (arith, pop_entry-le "" j q.entries, h.1),
)
step-IsBounded q clears h = (λ k. omega arith, omega arith)

run-IsBounded :
    (q : DeadLetterQueue) (cs : List Call)
    → IsBounded q
    → IsBounded (run q cs) × ((run q cs).max_entries ≡ q.max_entries)
run-IsBounded q [] h = (h, refl)
run-IsBounded q (c ∷ cs) h =
    let (b, e) = run-IsBounded (step q c) cs (step-IsBounded q c h) in (b, e ∙ step-max q c)

-- After any pushes, pops and clears of an empty queue, no task has two entries, and there are no more
-- entries than the queue's limit.
pub empty_queue-run-IsBounded :
    (limit : ℕ) (cs : List Call)
    → ((k : String) → entries_for k (run (empty_queue limit) cs).entries ≤ 1)
      × (length (run (empty_queue limit) cs).entries ≤ limit)
unfolding empty_queue
empty_queue-run-IsBounded limit cs =
    let (b, e) = run-IsBounded (empty_queue limit) cs (λ k. omega arith, omega arith) in
    (b.0, ground (arith, b.1, e))

pop_entry-found :
    (d : DlqEntry) (es : List DlqEntry)
    → entries_for d.task_id es ≡ 0
    → (pop_entry d.task_id (es ++ (d ∷ [])) ≡ (some d, es))
unfolding pop_entry
pop_entry-found d [] h = ground (arith, eq_iff d.task_id d.task_id)
pop_entry-found d (e ∷ es) h = ground (arith, pop_entry-found d es)

trim-append :
    (m : ℕ) (es : List DlqEntry) (d : DlqEntry)
    → 1 ≤ m
    → trim m (es ++ (d ∷ [])) ≡ (if leb m (length es) then drop 1 es else es) ++ (d ∷ [])
unfolding trim
trim-append m [] d h = ground arith
trim-append m (e ∷ es) d h = ground (arith, length-append es (d ∷ []))

entries_for-drop :
    (k : String) (es : List DlqEntry) (b : Bool)
    → entries_for k es ≡ 0
    → entries_for k (if b then drop 1 es else es) ≡ 0
entries_for-drop k [] b h = ground arith
entries_for-drop k (e ∷ es) b h = ground arith

-- In a queue with room for an entry, a task that is pushed is found by `pop` with this push's error,
-- provider, account and logs, whatever the queue held of it before; and after the pop the queue is
-- what it was without the task's old entry, less the oldest of the rest if the push was over the limit.
pub pop-push :
    (now : ℕ) (t : Task) (e p a : String) (ls : Option (List String)) (q : DeadLetterQueue)
    → 1 ≤ q.max_entries
    → let kept = keep (is_other t.id) q.entries in
      pop t.id (push now t e p a ls q).1 ≡ (
        some (push now t e p a ls q).0,
        record q { entries = if leb q.max_entries (length kept) then drop 1 kept else kept },
      )
unfolding push pop new_entry
pop-push now t e p a ls q h =
    let kept = keep (is_other t.id) q.entries in
    let d = new_entry now t e p a ls in
    let rest = if leb q.max_entries (length kept) then drop 1 kept else kept in
    ground (
      arith,
      trim-append q.max_entries kept d h,
      pop_entry-found d rest (
          entries_for-drop t.id kept (leb q.max_entries (length kept))
            (ground (arith, entries_for-keep t.id t.id q.entries, eq_iff t.id t.id))),
    )
