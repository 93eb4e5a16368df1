-- ===== src/Intelligence/Coercing.antt =====
-- ai_orchestrator/browser_intelligence/engine.py: how the engine turns a captured stream into text
-- (`_coerce_sse_text` and what it calls). A position in a path into a text, which gives a character and
-- then, at the next name, an error, gives no value at once.
pub mod Streams
use chat_to_agent.Base.{
  if◌then◌else◌, any, String, Bool, true, false, not, ◌&&◌, ◌||◌, Option, none, some, List, [], ◌∷◌,
  ◌++◌, str_eq,
}
use chat_to_agent.Adapters.Json.{
  Json, Fields, text, object, array, Key, name, position, follow, is_container, Rule, walk_all,
}
use chat_to_agent.Adapters.Extraction.{Texts, joined, or_next, first_text}

abbrev walk_keys : List String
walk_keys =
    "delta_content" ∷ "content" ∷ "text" ∷ "delta_text" ∷ "message" ∷ "reasoning_content" ∷ "delta"
    ∷ []

-- _DELTA_KEYS_TO_TRY
abbrev pub delta_keys_to_try : List (List Key)
delta_keys_to_try =
    (name "data" ∷ name "delta_content" ∷ [])
    ∷ (name "data" ∷ name "content" ∷ [])
    ∷ (name "delta" ∷ name "content" ∷ [])
    ∷ (name "message" ∷ name "content" ∷ [])
    ∷ (name "choices" ∷ position 0 ∷ name "delta" ∷ name "content" ∷ [])
    ∷ (name "choices" ∷ position 0 ∷ name "message" ∷ name "content" ∷ [])
    ∷ (name "response" ∷ name "choices" ∷ position 0 ∷ name "delta" ∷ name "content" ∷ [])
    ∷ (name "response" ∷ name "choices" ∷ position 0 ∷ name "message" ∷ name "content" ∷ [])
    ∷ (name "response" ∷ name "created" ∷ [])
    ∷ (name "text" ∷ [])
    ∷ (name "content" ∷ [])
    ∷ (name "message" ∷ [])
    ∷ []

-- The locals of the loop over the lines.
pub record Coerced : Type 0 where
  pub out : List String
  pub saw_delta : Bool
  pub saw_json : Bool

module _ (L : Texts) where
  abbrev is_plain : String → Bool
  is_plain s = not (str_eq s "") && not (L.is_status_label s)

  abbrev own_string : String → String → Json → List (String × String)
  own_string k key (text s) =
      if is_plain s && any (λ d. str_eq d k) walk_keys then (key, s) ∷ [] else []
  own_string k key v = []

  -- The rule of `_walk_delta_strings`.
  unfoldable pub string_rule : Rule (String × String)
  string_rule cur k v = (own_string (L.lower k) k v, is_container v)

  unfoldable pub walk_delta_strings : Json → List (String × String)
  unfolding string_rule walk_all
  walk_delta_strings obj = walk_all string_rule obj

  unfoldable pub plain_text : Option Json → Option String
  plain_text (some (text s)) = if is_plain s then some s else none
  plain_text _ = none

  abbrev first_string : List (String × String) → Option String
  first_string [] = none
  first_string ((k, s) ∷ rest) = some s

  -- The one text that an object adds.
  unfoldable pub delta_of : Json → Option String
  unfolding first_text plain_text walk_delta_strings
  delta_of obj =
      or_next L (first_text L plain_text delta_keys_to_try obj)
        (first_string (walk_delta_strings obj))

  abbrev pub add_delta : Option String → Coerced → Coerced
  add_delta none c = record c { saw_json = true }
  add_delta (some s) c = record { out = c.out ++ (s ∷ []); saw_delta = true; saw_json = true }

  abbrev pub add_payload : String → Option Json → Coerced → Coerced
  add_payload payload none c = record c { out = c.out ++ (payload ∷ []) }
  add_payload payload (some (object fs)) c = add_delta (delta_of (object fs)) c
  add_payload payload (some v) c = c

  -- line[5:].strip() of a line with data, and any other line as it is.
  abbrev pub payload_of : String → Option String → String
  payload_of line none = line
  payload_of line (some rest) = L.strip rest

  abbrev add_line : String → Coerced → Coerced
  add_line line c =
      if str_eq line ""
      then c
      else let payload = payload_of line (L.data_field line) in
        if str_eq payload "" || str_eq payload "[DONE]"
        then c
        else add_payload payload (L.loads payload) c

  unfoldable pub coerce_lines : List String → Coerced → Coerced
  unfolding delta_of
  coerce_lines [] c = c
  coerce_lines (line ∷ lines) c = coerce_lines lines (add_line (L.strip line) c)

  abbrev pub choose : String → Coerced → String
  choose raw c = if c.saw_delta then joined c.out else if c.saw_json then "" else raw

  unfoldable pub coerce_sse_text : String → String
  unfolding coerce_lines
  coerce_sse_text raw =
      if str_eq raw ""
      then ""
      else choose raw (
          coerce_lines (L.splitlines raw)
            (record { out = []; saw_delta = false; saw_json = false }))
