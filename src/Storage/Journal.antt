-- ===== src/Storage/Journal.antt =====
-- ExecutionJournal of ai_orchestrator/storage/journal.py, on the in-memory store. `json.dumps` and
-- `json.loads` are arguments; `loads` gives none where it raises. The clock is read once a step.
pub mod Logging
use chat_to_agent.Base.{
  if◌then◌else◌, ℕ, String, Bool, Option, none, some, List, [], ◌∷◌, map, str_eq,
}
use Prim.Native.String.{◌++◌ as str_append}
use mathlib.Core.Option
use chat_to_agent.Storage.Memory.{Store, EntryId, push_to_stream, read_stream}

-- An input or output: none, a text, or another value of JSON.
pub data Payload (J : Type 0) : Type 0 where
  missing : Payload J
  plain : String → Payload J
  json : J → Payload J

-- The entry as the stream has it.
pub record Entry : Type 0 where
  pub task_id : String
  pub agent : String
  pub action : String
  pub input : Option String
  pub output : Option String
  pub status : String
  pub timestamp : ℕ

-- And as it is read.
pub record Step (J : Type 0) : Type 0 where
  pub task_id : String
  pub agent : String
  pub action : String
  pub input : Payload J
  pub output : Payload J
  pub status : String
  pub timestamp : ℕ

abbrev pub stream_of : String → String
stream_of task_id = str_append "journal:" task_id

abbrev pub is_checkpoint : Entry → Bool
is_checkpoint e = str_eq e.status "checkpoint"

-- The loop of `get_last_checkpoint`, with what it has found so far.
unfoldable pub scan : Option Entry → List Entry → Option Entry
scan checkpoint [] = checkpoint
scan checkpoint (e ∷ es) = scan (if is_checkpoint e then some e else checkpoint) es

module _ {J : Type 0} (dumps : J → String) (loads : String → Option J) where
  unfoldable pub serialized : Payload J → Option String
  serialized missing = none
  serialized (plain s) = some s
  serialized (json j) = some (dumps j)

  unfoldable pub deserialized : Option String → Payload J
  deserialized none = missing
  deserialized (some raw) =
      if str_eq raw "" then plain raw else elim (loads raw) [ none ↦ plain raw | some j ↦ json j ]

  -- _deserialize_entry
  unfoldable pub deserialize_entry : Entry → Step J
  unfolding deserialized
  deserialize_entry e = record {
    task_id = e.task_id;
    agent = e.agent;
    action = e.action;
    input = deserialized e.input;
    output = deserialized e.output;
    status = e.status;
    timestamp = e.timestamp;
  }

  -- The entry of `log_step`, logged at the time of the step.
  unfoldable pub entry_of : Step J → Entry
  unfolding serialized
  entry_of x = record {
    task_id = x.task_id;
    agent = x.agent;
    action = x.action;
    input = serialized x.input;
    output = serialized x.output;
    status = x.status;
    timestamp = x.timestamp;
  }

  unfoldable pub log_step : Step J → Store Entry → EntryId × Store Entry
  unfolding entry_of push_to_stream
  log_step x s =
      let e = entry_of x in
      let (i, s₁) = push_to_stream x.timestamp (stream_of x.task_id) e s in
      let (j, s₂) = push_to_stream x.timestamp "journal:all" e s₁ in (i, s₂)

  unfoldable pub get_task_journal : String → ℕ → Store Entry → List (Step J)
  unfolding deserialize_entry read_stream
  get_task_journal task_id limit s = map deserialize_entry (read_stream (stream_of task_id) limit s)

  unfoldable pub get_last_checkpoint : ℕ → String → Store Entry → Option (Step J)
  unfolding deserialize_entry read_stream scan
  get_last_checkpoint max_bulk_fetch task_id s =
      Option.map deserialize_entry (scan none (read_stream (stream_of task_id) max_bulk_fetch s))

  unfoldable pub replay_task : ℕ → String → Store Entry → List (Step J)
  unfolding deserialize_entry read_stream
  replay_task max_bulk_fetch task_id s =
      map deserialize_entry (read_stream (stream_of task_id) max_bulk_fetch s)
