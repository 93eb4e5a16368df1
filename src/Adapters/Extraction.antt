-- ===== src/Adapters/Extraction.antt =====
-- ai_orchestrator/adapters/engine_adapter.py: how the text of a response is taken out of what a
-- provider's page received. What the standard library says of a text is the argument `Texts`.
pub mod Walks
pub mod Found
pub mod Chunks
use chat_to_agent.Base.{
  if◌then◌else◌, any, String, Bool, true, false, not, ◌&&◌, ◌||◌, Option, none, some, List, [], ◌∷◌,
  ◌++◌, str_eq,
}
use Prim.Native.String.{◌++◌ as append}
use chat_to_agent.Base.Sorted.{listed}
use chat_to_agent.Adapters.Json.{
  Json, Items, Fields, null, boolean, number, text, array, object, nil, cons, end, field, Key, name,
  position, follow, lookup, item, texts_of, is_container, Rule, walk_all,
}

pub record Texts : Type 0 where
  pub splitlines : String → List String
  pub strip : String → String
  -- s[5:], if s begins with "data:".
  pub data_field : String → Option String
  pub loads : String → Option Json
  pub lower : String → String
  -- part in s
  pub contains : String → String → Bool
  -- `_STATUS_LABEL_RE`
  pub is_status_label : String → Bool

abbrev delta_keys : List String
delta_keys =
    "delta_content" ∷ "content" ∷ "text" ∷ "delta_text" ∷ "message" ∷ "reasoning_content" ∷ []

abbrev reasoning_keys : List String
reasoning_keys = "reasoning_content" ∷ []

abbrev reasoning_phase_markers : List String
reasoning_phase_markers = "thinking" ∷ "reasoning" ∷ []

-- DELTA_PARENT_KEYS
abbrev pub delta_parent_keys : List (List Key)
delta_parent_keys =
    (name "delta" ∷ name "content" ∷ [])
    ∷ (name "delta" ∷ name "text" ∷ [])
    ∷ (name "delta" ∷ name "delta_content" ∷ [])
    ∷ (name "delta" ∷ name "reasoning_content" ∷ [])
    ∷ (name "message" ∷ name "content" ∷ [])
    ∷ (name "message" ∷ name "reasoning_content" ∷ [])
    ∷ (name "choices" ∷ position 0 ∷ name "delta" ∷ name "content" ∷ [])
    ∷ (name "choices" ∷ position 0 ∷ name "delta" ∷ name "reasoning_content" ∷ [])
    ∷ (name "choices" ∷ position 0 ∷ name "message" ∷ name "content" ∷ [])
    ∷ []

-- "".join(xs)
abbrev pub joined : List String → String
joined [] = ""
joined (s ∷ ss) = append s (joined ss)

module _ (L : Texts) where
  -- Not empty, not the end mark, and no label.
  unfoldable pub is_delta : String → Bool
  is_delta s = not (str_eq s "") && (not (str_eq s "[DONE]") && not (L.is_status_label s))

  abbrev is_like : List String → String → Bool
  is_like keys k = any (λ part. L.contains part k) keys

  unfoldable pub delta_field : String → Json → List String × Bool
  unfolding is_delta texts_of
  delta_field k (text s) = (if is_like delta_keys k && is_delta s then s ∷ [] else [], false)
  delta_field k (array xs) =
      if is_like (delta_keys ++ ("parts" ∷ [])) k then (texts_of is_delta xs, false) else ([], true)
  delta_field k v = ([], is_container v)

  -- The rule of `_extract_deltas_from_obj`.
  unfoldable pub delta_rule : Rule String
  unfolding delta_field
  delta_rule cur k v = delta_field (L.lower k) v

  unfoldable pub extract_deltas_from_obj : Json → List String
  unfolding delta_rule walk_all
  extract_deltas_from_obj obj = walk_all delta_rule obj

  reasoning_texts : String → Json → List String
  unfolding is_delta texts_of
  reasoning_texts k (text s) = if is_like reasoning_keys k && is_delta s then s ∷ [] else []
  reasoning_texts k (array xs) = if is_like reasoning_keys k then texts_of is_delta xs else []
  reasoning_texts k v = []

  -- The texts of the other fields of an object whose phase is one of reasoning.
  siblings : String → Fields → List String
  siblings k end = []
  siblings k (field j (text s) fs) =
      let rest = siblings k fs in
      if not (str_eq (L.lower j) k) && not (str_eq s "") then s ∷ rest else rest
  siblings k (field j v fs) = siblings k fs

  phase_texts : Fields → String → Json → List String
  unfolding siblings
  phase_texts cur k (text s) =
      if str_eq k "phase" && is_like reasoning_phase_markers (L.lower s) then siblings k cur else []
  phase_texts cur k v = []

  -- The rule of `_extract_reasoning_deltas_from_obj`.
  unfoldable pub reasoning_rule : Rule String
  unfolding reasoning_texts phase_texts
  reasoning_rule cur k v =
      (reasoning_texts (L.lower k) v ++ phase_texts cur (L.lower k) v, is_container v)

  unfoldable pub extract_reasoning_deltas_from_obj : Json → List String
  unfolding reasoning_rule walk_all
  extract_reasoning_deltas_from_obj obj = walk_all reasoning_rule obj

  -- The texts of an array of texts only, without the labels; none if there is anything else in it.
  texts_only : Items → Option (List String)
  texts_only nil = some []
  texts_only (cons (text s) xs) = elim (texts_only xs) [
    | none ↦ none
    | some ss ↦ some (if L.is_status_label s then ss else s ∷ ss)
  ]
  texts_only (cons x xs) = none

  non_empty : Option (List String) → Option String
  non_empty none = none
  non_empty (some ss) = if str_eq (joined ss) "" then none else some (joined ss)

  -- What the value at the end of a path adds, none where the next path is tried.
  unfoldable pub path_text : Option Json → Option String
  unfolding texts_only non_empty
  path_text (some (text s)) =
      if not (str_eq s "") && not (L.is_status_label s) then some s else none
  path_text (some (array xs)) = non_empty (texts_only xs)
  path_text _ = none

  abbrev pub or_next : Option String → Option String → Option String
  or_next none rest = rest
  or_next (some s) rest = some s

  unfoldable pub first_text : (Option Json → Option String) → List (List Key) → Json → Option String
  unfolding follow
  first_text pick [] obj = none
  first_text pick (ks ∷ rest) obj = or_next (pick (follow ks obj)) (first_text pick rest obj)

  abbrev pub or_else : Option String → List String → List String
  or_else none deep = deep
  or_else (some s) deep = s ∷ []

  -- What a line of the stream adds to the text.
  abbrev pub event : (Json → List String) → Option Json → List String
  event f none = []
  event f (some obj) = f obj

  abbrev payload_event : (Json → List String) → String → List String
  payload_event f payload =
      if str_eq payload "" || str_eq payload "[DONE]" then [] else event f (L.loads payload)

  abbrev data_event : (Json → List String) → Option String → List String
  data_event f none = []
  data_event f (some rest) = payload_event f (L.strip rest)

  unfoldable pub line_event : (Json → List String) → String → List String
  line_event f line = data_event f (L.data_field (L.strip line))

  unfoldable pub events : (Json → List String) → List String → List String
  unfolding line_event
  events f [] = []
  events f (line ∷ lines) = line_event f line ++ events f lines

  unfoldable pub delta_texts : Json → List String
  unfolding first_text path_text extract_deltas_from_obj
  delta_texts obj =
      or_else (first_text path_text delta_parent_keys obj) (extract_deltas_from_obj obj)

  -- `_sse_delta_to_text`
  unfoldable pub sse_delta_to_text : String → String
  unfolding events delta_texts
  sse_delta_to_text raw = joined (events delta_texts (L.splitlines raw))

  -- The paths whose last name is that of the reasoning.
  abbrev reasoning_paths : List (List Key)
  reasoning_paths =
      (name "delta" ∷ name "reasoning_content" ∷ [])
      ∷ (name "message" ∷ name "reasoning_content" ∷ [])
      ∷ (name "choices" ∷ position 0 ∷ name "delta" ∷ name "reasoning_content" ∷ [])
      ∷ []

  text_only : Option Json → Option String
  text_only (some (text s)) =
      if not (str_eq s "") && not (L.is_status_label s) then some s else none
  text_only _ = none

  unfoldable pub reasoning_deltas : Json → List String
  unfolding first_text text_only extract_reasoning_deltas_from_obj
  reasoning_deltas obj =
      or_else (first_text text_only reasoning_paths obj) (extract_reasoning_deltas_from_obj obj)

  -- `_sse_reasoning_to_text`
  unfoldable pub sse_reasoning_to_text : String → String
  unfolding events reasoning_deltas
  sse_reasoning_to_text raw = joined (events reasoning_deltas (L.splitlines raw))
