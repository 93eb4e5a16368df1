-- ===== src/Storage/Memory.antt =====
-- The in-memory half of RedisClient, ai_orchestrator/storage/redis_client.py: what it does when it has
-- no URL. Clock readings are arguments, in microseconds; a value is the text that is stored. The
-- entries of a stream are of any type. The real Redis is another program.
pub mod Abstract
pub mod Refinement
use chat_to_agent.Base.{
  take, ltb, if◌then◌else◌, is_some, truthy, length, any, ℕ, zero, suc, ◌+◌, ◌/◌, String, Bool,
  true, false, not, ◌&&◌, Option, none, some, List, [], ◌∷◌, ◌++◌, map, str_eq,
}
use chat_to_agent.Base.Dict.{Dict, get, put, remove}

-- A value with the time from which it is no longer read.
pub record Stored : Type 0 where
  pub text : String
  pub expiry : Option ℕ

-- f"{milliseconds}-{counter}"
pub record EntryId : Type 0 where
  pub millis : ℕ
  pub counter : ℕ

-- The identifiers that a consumer group has acknowledged on a stream.
pub record Group : Type 0 where
  pub group : String
  pub stream : String
  pub acked : List String

pub record Store (A : Type 0) : Type 0 where
  pub keys : Dict Stored
  pub streams : Dict (List (EntryId × A))
  pub lists : Dict (List String)
  pub groups : List Group
  pub events : List (String × A)
  pub counter : ℕ

abbrev pub expired : ℕ → Option ℕ → Bool
expired now none = false
expired now (some t) = ltb t now

abbrev pub expiry_of : ℕ → Option ℕ → Option ℕ
expiry_of now none = none
expiry_of now (some ttl) = some (now + ttl)

-- queue.pop(0)
abbrev pub split_head : List String → Option String × List String
split_head [] = (none, [])
split_head (x ∷ xs) = (some x, xs)

abbrev is_group : String → String → Group → Bool
is_group group stream g = str_eq g.group group && str_eq g.stream stream

-- group_set.add(entry_id)
abbrev add : String → List String → List String
add i is = if any (λ j. str_eq j i) is then is else is ++ (i ∷ [])

module _ {A : Type 0} where
  abbrev pub empty : Store A
  empty = record { keys = []; streams = []; lists = []; groups = []; events = []; counter = 0 }

  unfoldable pub set_key : ℕ → String → String → Option ℕ → Store A → Store A
  set_key now key value ttl s = record s {
    keys = put key (record { text = value; expiry = expiry_of now ttl }) s.keys;
  }

  unfoldable pub get_key : ℕ → String → Store A → Option String × Store A
  get_key now key s = elim (get key s.keys) [
    | none ↦ (none, s)
    | some e ↦
        if expired now e.expiry
        then (none, record s { keys = remove key s.keys })
        else (some e.text, s)
  ]

  unfoldable pub delete_key : ℕ → String → Store A → Bool × Store A
  delete_key now key s = elim (get key s.keys) [
    | none ↦ (false, s)
    | some e ↦ (not (expired now e.expiry), record s { keys = remove key s.keys })
  ]

  unfoldable pub push_to_stream : ℕ → String → A → Store A → EntryId × Store A
  push_to_stream now stream entry s =
      let n = s.counter + 1 in
      let i : EntryId = record { millis = now / 1000; counter = n } in
      (
        i,
        record s {
          counter = n;
          streams = put stream (truthy (get stream s.streams) [] ++ ((i, entry) ∷ [])) s.streams;
        },
      )

  unfoldable pub read_stream : String → ℕ → Store A → List A
  read_stream stream count s =
      map (λ (e : EntryId × A). e.1) (take count (truthy (get stream s.streams) []))

  unfoldable pub push_to_list : String → String → Store A → Store A
  push_to_list key value s = record s {
    lists = put key (truthy (get key s.lists) [] ++ (value ∷ [])) s.lists;
  }

  -- An empty list, or none, gives nothing and is left as it is.
  unfoldable pub pop_from_list : String → Store A → Option String × Store A
  pop_from_list key s =
      let (x, rest) = split_head (truthy (get key s.lists) []) in
      if is_some x then (x, record s { lists = put key rest s.lists }) else (none, s)

  unfoldable pub get_list_length : String → Store A → ℕ
  get_list_length key s = length (truthy (get key s.lists) [])

  -- `False` for a group that there is.
  unfoldable pub create_consumer_group : String → String → Store A → Bool × Store A
  create_consumer_group group stream s =
      if any (is_group group stream) s.groups then (false, s) else (
        true,
        record s {
          groups = s.groups ++ (record { group = group; stream = stream; acked = [] } ∷ []);
        },
      )

  unfoldable pub ack_message : String → String → String → Store A → Bool × Store A
  ack_message group stream entry_id s =
      if any (is_group group stream) s.groups
      then (
        true,
        record s {
          groups =
              map
                (λ (g : Group).
                  if is_group group stream g then record g { acked = add entry_id g.acked } else g)
                s.groups;
        },
      )
      else (false, s)

  -- The number of subscribers is 0.
  unfoldable pub publish_event : String → A → Store A → ℕ × Store A
  publish_event channel event s = (0, record s { events = s.events ++ ((channel, event) ∷ []) })

  unfoldable pub close : Store A → Store A
  close s = record s { keys = []; streams = []; lists = []; groups = []; events = [] }
