-- ===== src/Intelligence/Coercing/Streams.antt =====
-- The engine and the adapter read the same text from a stream of chunks.
use chat_to_agent.Base.{
  String, ◌≡◌, refl, sym, ap, ◌∙◌, Bool, true, false, ◌||◌, none, some, List, [], ◌∷◌, ◌++◌, arith,
  str_eq,
}
use mathlib.Core.List.{append-nil, append_assoc}
use chat_to_agent.Adapters.Json.{Json, Fields, object, name, follow}
use chat_to_agent.Adapters.Extraction.{Texts, joined, first_text, sse_delta_to_text}
use chat_to_agent.Adapters.Extraction.Chunks.{
  IsChunk, IsPlain, Carries, IsDone, IsStream, finished, skips, ends, carries,
  sse_delta_to_text-IsStream,
}
use chat_to_agent.Intelligence.Coercing.{
  Coerced, plain_text, delta_of, coerce_lines, coerce_sse_text,
}

module _ (L : Texts) where
  -- A line that carries a chunk for the engine: the chunk is an object and has no "data".
  pub record CarriesBoth (line : String) (s : String) : Type 0 where
    pub line_filled : str_eq (L.strip line) "" ≡ false
    pub fields : Fields
    pub carried : Carries L line s
    pub is_object : carried.obj ≡ object fields
    pub no_data : (k : String) → follow (name "data" ∷ name k ∷ []) carried.obj ≡ none

  pub record IsDoneBoth (line : String) : Type 0 where
    pub line_filled : str_eq (L.strip line) "" ≡ false
    pub mark : IsDone L line

  -- The lines between the chunks are blank.
  pub record IsBlank (line : String) : Type 0 where
    pub blank : str_eq (L.strip line) "" ≡ true
    pub dataless : L.data_field (L.strip line) ≡ none

  pub data IsPlainStream : List String → List String → Type 0 where
    finishes : IsPlainStream [] []
    blanks :
        {line : String} {lines contents : List String}
        → IsBlank line
        → IsPlainStream lines contents
        → IsPlainStream (line ∷ lines) contents
    stops :
        {line : String} {lines contents : List String}
        → IsDoneBoth line
        → IsPlainStream lines contents
        → IsPlainStream (line ∷ lines) contents
    brings :
        {line s : String} {lines contents : List String}
        → CarriesBoth line s
        → IsPlainStream lines contents
        → IsPlainStream (line ∷ lines) (s ∷ contents)

  to_IsStream :
      (lines contents : List String) → IsPlainStream lines contents → IsStream L lines contents
  to_IsStream _ _ finishes = finished
  to_IsStream (line ∷ lines) contents (blanks b h) = skips b.dataless (to_IsStream lines contents h)
  to_IsStream (line ∷ lines) contents (stops d h) = ends d.mark (to_IsStream lines contents h)
  to_IsStream (line ∷ lines) (s ∷ contents) (brings c h) =
      carries c.carried (to_IsStream lines contents h)

  delta_of-IsChunk :
      (obj : Json) (s : String)
      → IsChunk L obj s
      → IsPlain L s
      → ((k : String) → follow (name "data" ∷ name k ∷ []) obj ≡ none)
      → delta_of L obj ≡ some s
  unfolding delta_of first_text plain_text
  delta_of-IsChunk obj s c p d =
      rw
        (
          d "delta_content",
          d "content",
          c.no_delta "content",
          c.no_message "content",
          c.content,
          p.filled,
          p.unlabelled,
        )
        refl

  abbrev is_filled : List String → Bool
  is_filled [] = false
  is_filled (s ∷ ss) = true

  -- What the loop over the lines has at its end: the contents, and whether there were any.
  coerce_lines-IsPlainStream :
      (lines contents : List String) (c : Coerced)
      → IsPlainStream lines contents
      → ((coerce_lines L lines c).out ≡ c.out ++ contents)
        × ((coerce_lines L lines c).saw_delta ≡ (c.saw_delta || is_filled contents))
  unfolding coerce_lines
  coerce_lines-IsPlainStream _ _ c finishes = (sym (append-nil c.out), ground arith)
  coerce_lines-IsPlainStream (line ∷ lines) contents c (blanks b h) =
      rw (coerce_lines, b.blank) (coerce_lines-IsPlainStream lines contents c h)
  coerce_lines-IsPlainStream (line ∷ lines) contents c (stops d h) =
      rw (coerce_lines, d.line_filled, d.mark.after_mark, d.mark.done)
        (coerce_lines-IsPlainStream lines contents c h)
  coerce_lines-IsPlainStream (line ∷ lines) (s ∷ contents) c (brings b h) =
      let chunk = b.carried in
      let delta : delta_of L (object b.fields) ≡ some s =
        ap (delta_of L) (sym b.is_object)
        ∙ delta_of-IsChunk chunk.obj s chunk.chunk chunk.plain b.no_data in
      let next : Coerced = record { out = c.out ++ (s ∷ []); saw_delta = true; saw_json = true } in
      let (out_same, seen) = coerce_lines-IsPlainStream lines contents next h in
      rw
        (
          coerce_lines, b.line_filled, chunk.after_mark, chunk.not_empty, chunk.not_done,
          chunk.parsed, b.is_object, delta,
        )
        (out_same ∙ append_assoc c.out (s ∷ []) contents, seen ∙ ground arith)

  -- From a stream of events whose lines are chunks of a chat completion without a field "data", each
  -- with a content that is not empty and no status label, marks of its end, and blank lines, and that
  -- has at least one chunk, the engine and the adapter extract the same text: the contents put together.
  pub coerce_sse_text-sse_delta_to_text :
      (raw first : String) (contents : List String)
      → str_eq raw "" ≡ false
      → IsPlainStream (L.splitlines raw) (first ∷ contents)
      → (coerce_sse_text L raw ≡ sse_delta_to_text L raw)
        × (coerce_sse_text L raw ≡ joined (first ∷ contents))
  unfolding coerce_sse_text
  coerce_sse_text-sse_delta_to_text raw first contents e h =
      let start : Coerced = record { out = []; saw_delta = false; saw_json = false } in
      let (out_same, seen) =
        coerce_lines-IsPlainStream (L.splitlines raw) (first ∷ contents) start h in
      let adapter = sse_delta_to_text-IsStream L raw (first ∷ contents) (to_IsStream _ _ h) in
      rw (e, seen, out_same, adapter) (refl, refl)
