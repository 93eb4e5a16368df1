-- ===== src/Adapters/Extraction/Chunks.antt =====
-- The text of a stream of events is what its chunks carry.
use chat_to_agent.Base.{
  String, ◌≡◌, ◌⊎◌, inl, refl, ap, arith, eq_iff, true, Option, false, none, some, List, [], ◌∷◌,
  str_eq,
}
use chat_to_agent.Base.Members.{Has}
use chat_to_agent.Adapters.Extraction.Found.{Holds, extract_deltas_from_obj_iff}
use chat_to_agent.Adapters.Json.{
  Json, null, boolean, number, text, array, object, Key, name, position, follow,
}
use chat_to_agent.Adapters.Extraction.{
  Texts, joined, path_text, first_text, line_event, events, delta_texts, extract_deltas_from_obj,
  delta_parent_keys, sse_delta_to_text,
}

module _ (L : Texts) where
  -- A chunk of a chat completion with this content, as OpenAI's API streams it.
  pub record IsChunk (obj : Json) (s : String) : Type 0 where
    pub no_delta : (k : String) → follow (name "delta" ∷ name k ∷ []) obj ≡ none
    pub no_message : (k : String) → follow (name "message" ∷ name k ∷ []) obj ≡ none
    pub content :
        follow (name "choices" ∷ position 0 ∷ name "delta" ∷ name "content" ∷ []) obj
        ≡ some (text s)

  -- Its content can be told from an empty one and from a label.
  pub record IsPlain (s : String) : Type 0 where
    pub filled : str_eq s "" ≡ false
    pub unlabelled : L.is_status_label s ≡ false

  -- At the end of a path: nothing, or no text, or one that is empty or a label.
  abbrev pub IsBare : Option Json → Type 0
  IsBare (some (text s)) = (s ≡ "") ⊎ (L.is_status_label s ≡ true)
  IsBare (some (array xs)) = ⊥
  IsBare v = Unit

  abbrev pub AreBare : List (List Key) → Json → Type 0
  AreBare [] obj = Unit
  AreBare (ks ∷ rest) obj = IsBare (follow ks obj) × AreBare rest obj

  -- A chunk without a text: one that only begins or ends a message, or whose content is a label.
  pub record IsQuiet (obj : Json) : Type 0 where
    pub bare : AreBare delta_parent_keys obj
    pub nothing : (s : String) → ¬ Holds L s obj

  path_text-IsBare : (v : Option Json) → IsBare v → path_text L v ≡ none
  unfolding path_text
  path_text-IsBare none h = refl
  path_text-IsBare (some (text s)) h = ground (arith, h, eq_iff s "")
  path_text-IsBare (some (array xs)) h = absurd h
  path_text-IsBare (some null) h = refl
  path_text-IsBare (some (boolean b)) h = refl
  path_text-IsBare (some (number n)) h = refl
  path_text-IsBare (some (object fs)) h = refl

  first_text-AreBare :
      (paths : List (List Key)) (obj : Json)
      → AreBare paths obj
      → first_text L (path_text L) paths obj ≡ none
  unfolding first_text
  first_text-AreBare [] obj h = refl
  first_text-AreBare (ks ∷ rest) obj (b, h) =
      rw (path_text-IsBare (follow ks obj) b) (first_text-AreBare rest obj h)

  no_members : (xs : List String) → ((s : String) → ¬ Has s xs) → xs ≡ []
  no_members [] h = refl
  no_members (x ∷ xs) h = absurd (h x (inl refl))

  delta_texts-IsQuiet : (obj : Json) → IsQuiet obj → delta_texts L obj ≡ []
  unfolding delta_texts
  delta_texts-IsQuiet obj q = rw (first_text-AreBare delta_parent_keys obj q.bare) (
      no_members (extract_deltas_from_obj L obj)
        (λ s h. q.nothing s ((extract_deltas_from_obj_iff L obj s).0 h)))

  delta_texts-IsChunk :
      (obj : Json) (s : String) → IsChunk obj s → IsPlain s → delta_texts L obj ≡ s ∷ []
  unfolding delta_texts first_text path_text
  delta_texts-IsChunk obj s c p =
      rw
        (
          c.no_delta "content",
          c.no_delta "text",
          c.no_delta "delta_content",
          c.no_delta "reasoning_content",
          c.no_message "content",
          c.no_message "reasoning_content",
          c.content,
          p.filled,
          p.unlabelled,
        )
        refl

  -- A line that the reader skips, and one that carries a chunk.
  abbrev pub IsSkipped : String → Type 0
  IsSkipped line = L.data_field (L.strip line) ≡ none

  pub record Carries (line : String) (s : String) : Type 0 where
    pub rest : String
    pub obj : Json
    pub after_mark : L.data_field (L.strip line) ≡ some rest
    pub not_empty : str_eq (L.strip rest) "" ≡ false
    pub not_done : str_eq (L.strip rest) "[DONE]" ≡ false
    pub parsed : L.loads (L.strip rest) ≡ some obj
    pub chunk : IsChunk obj s
    pub plain : IsPlain s

  pub record IsSilent (line : String) : Type 0 where
    pub rest : String
    pub obj : Json
    pub after_mark : L.data_field (L.strip line) ≡ some rest
    pub not_empty : str_eq (L.strip rest) "" ≡ false
    pub not_done : str_eq (L.strip rest) "[DONE]" ≡ false
    pub parsed : L.loads (L.strip rest) ≡ some obj
    pub quiet : IsQuiet obj

  pub record IsDone (line : String) : Type 0 where
    pub rest : String
    pub after_mark : L.data_field (L.strip line) ≡ some rest
    pub done : L.strip rest ≡ "[DONE]"

  -- The lines of a stream, and the contents of its chunks.
  pub data IsStream : List String → List String → Type 0 where
    finished : IsStream [] []
    skips :
        {line : String} {lines contents : List String}
        → IsSkipped line
        → IsStream lines contents
        → IsStream (line ∷ lines) contents
    ends :
        {line : String} {lines contents : List String}
        → IsDone line
        → IsStream lines contents
        → IsStream (line ∷ lines) contents
    passes :
        {line : String} {lines contents : List String}
        → IsSilent line
        → IsStream lines contents
        → IsStream (line ∷ lines) contents
    carries :
        {line s : String} {lines contents : List String}
        → Carries line s
        → IsStream lines contents
        → IsStream (line ∷ lines) (s ∷ contents)

  events-IsStream :
      (lines contents : List String)
      → IsStream lines contents
      → events L (delta_texts L) lines ≡ contents
  unfolding events line_event
  events-IsStream _ _ finished = refl
  events-IsStream (line ∷ lines) contents (skips e h) = rw e (events-IsStream lines contents h)
  events-IsStream (line ∷ lines) contents (ends d h) =
      rw (d.after_mark, d.done) (events-IsStream lines contents h)
  events-IsStream (line ∷ lines) contents (passes q h) =
      rw (q.after_mark, q.not_empty, q.not_done, q.parsed, delta_texts-IsQuiet q.obj q.quiet)
        (events-IsStream lines contents h)
  events-IsStream (line ∷ lines) (s ∷ contents) (carries c h) =
      rw
        (
          c.after_mark,
          c.not_empty,
          c.not_done,
          c.parsed,
          delta_texts-IsChunk c.obj s c.chunk c.plain,
        )
        (ap (λ t. s ∷ t) (events-IsStream lines contents h))

  -- Let every line of a stream of events be one without data, a mark of its end, a chunk of a chat
  -- completion whose content is neither empty nor a status label, or a chunk without such a content in
  -- which no other text stands under a key of texts, as the first and the last of a message are. Then
  -- the text that is extracted is the contents put together, in their order; a content that is a status
  -- label is not part of it.
  pub sse_delta_to_text-IsStream :
      (raw : String) (contents : List String)
      → IsStream (L.splitlines raw) contents
      → sse_delta_to_text L raw ≡ joined contents
  unfolding sse_delta_to_text
  sse_delta_to_text-IsStream raw contents h =
      ap joined (events-IsStream (L.splitlines raw) contents h)
