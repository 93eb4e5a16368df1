-- ===== src/Orchestrator/Dlq.antt =====
-- ai_orchestrator/orchestrator/dlq.py. The clock reading is an argument, in microseconds; a log is a
-- text. The alert callbacks get the entry that `push` returns, and their exceptions are swallowed:
-- they are left out.
pub mod Entries
use chat_to_agent.Base.{
  ltb, if◌then◌else◌, truthy, length, drop, last_n, keep, ℕ, zero, suc, String, Bool, not, Option,
  none, some, List, [], ◌∷◌, ◌++◌, str_eq,
}
use chat_to_agent.Models.Task.{Task}

pub record DlqEntry : Type 0 where
  pub task_id : String
  pub prompt : String
  pub error : String
  pub provider : String
  pub account_id : String
  pub retry_count : ℕ
  pub max_retries : ℕ
  pub logs : List String
  pub timestamp : ℕ

-- `DLQEntry(task, error, provider, account_id, logs)`
unfoldable pub new_entry : ℕ → Task → String → String → String → Option (List String) → DlqEntry
new_entry now t message provider_name account logs_given = record {
  task_id = t.id;
  prompt = t.prompt;
  error = message;
  provider = provider_name;
  account_id = account;
  retry_count = t.retry_count;
  max_retries = t.max_retries;
  logs = truthy logs_given [];
  timestamp = now;
}

pub record DeadLetterQueue : Type 0 where
  pub entries : List DlqEntry
  pub max_entries : ℕ

unfoldable pub empty_queue : ℕ → DeadLetterQueue
empty_queue limit = record { entries = []; max_entries = limit }

abbrev pub is_other : String → DlqEntry → Bool
is_other task_id e = not (str_eq e.task_id task_id)

-- The oldest entry is dropped when there are too many.
unfoldable pub trim : ℕ → List DlqEntry → List DlqEntry
trim limit es = if ltb limit (length es) then drop 1 es else es

unfoldable pub push :
    ℕ
    → Task
    → String
    → String
    → String
    → Option (List String)
    → DeadLetterQueue
    → DlqEntry × DeadLetterQueue
unfolding new_entry trim keep
push now t message provider_name account logs_given q =
    let e = new_entry now t message provider_name account logs_given in
    (e, record q { entries = trim q.max_entries (keep (is_other t.id) q.entries ++ (e ∷ [])) })

-- The first entry of the task, and the list without it.
unfoldable pub pop_entry : String → List DlqEntry → Option DlqEntry × List DlqEntry
pop_entry task_id [] = (none, [])
pop_entry task_id (e ∷ es) =
    let (found, rest) = pop_entry task_id es in
    if str_eq e.task_id task_id then (some e, es) else (found, e ∷ rest)

unfoldable pub pop : String → DeadLetterQueue → Option DlqEntry × DeadLetterQueue
unfolding pop_entry
pop task_id q =
    let (found, rest) = pop_entry task_id q.entries in (found, record q { entries = rest })

-- `list_entries(limit)`, before each entry is turned into a dictionary. A limit of 0 takes all, as
-- `[-0:]` does.
unfoldable pub list_entries : ℕ → DeadLetterQueue → List DlqEntry
list_entries zero q = q.entries
list_entries (suc n) q = last_n (suc n) q.entries

unfoldable pub count : DeadLetterQueue → ℕ
count q = length q.entries

unfoldable pub clear : DeadLetterQueue → DeadLetterQueue
clear q = record q { entries = [] }
