-- ===== src/Samples/Streams.antt =====
-- Streams of two chunks and their end.
use chat_to_agent.Base.{
  if◌then◌else◌, String, ◌≡◌, ◌↔◌, inl, refl, Option, none, some, List, [], ◌∷◌, str_eq,
}
use chat_to_agent.Adapters.Json.{
  Json, Fields, text, array, object, nil, cons, end, field, lookup, follow,
}
use chat_to_agent.Adapters.Extraction.{Texts, joined, extract_deltas_from_obj, sse_delta_to_text}
use chat_to_agent.Base.Members.{Has}
use chat_to_agent.Adapters.Extraction.Found.{Holds, extract_deltas_from_obj_iff}
use chat_to_agent.Adapters.Extraction.Chunks.{
  IsChunk, IsSilent, passes, Carries, IsDone, IsStream, finished, skips, ends, carries,
  sse_delta_to_text-IsStream,
}
use chat_to_agent.Intelligence.Coercing.{coerce_sse_text}
use chat_to_agent.Intelligence.Coercing.Streams.{
  IsPlainStream, finishes, blanks, stops, brings, coerce_sse_text-sse_delta_to_text,
}

-- What a chunk of a chat completion with this content is parsed to.
abbrev chunk_fields : String → Fields
chunk_fields s = field "id" (text "c1") (
    field "choices"
      (array (cons (object (field "delta" (object (field "content" (text s) end)) end)) nil)) end)

abbrev lines_of : String → List String
lines_of raw =
    if str_eq raw "stream"
    then "data: 1" ∷ "" ∷ "data: 2" ∷ "data: end" ∷ []
    else if str_eq raw "talk"
    then "data: 0" ∷ "data: 1" ∷ "" ∷ "data: 2" ∷ "data: end" ∷ []
    else "event: message" ∷ "data: 1" ∷ []

abbrev field_of : String → Option String
field_of line =
    if str_eq line "data: 1"
    then some "1"
    else if str_eq line "data: 0"
    then some "0"
    else if str_eq line "data: 2"
    then some "2"
    else if str_eq line "data: end"
    then some "[DONE]"
    else none

abbrev parsed_of : String → Option Json
parsed_of s =
    if str_eq s "1"
    then some (object (chunk_fields "Hel"))
    else if str_eq s "0"
    then some (object (chunk_fields ""))
    else if str_eq s "2"
    then some (object (chunk_fields "lo"))
    else none

abbrev texts : Texts
texts = record {
  splitlines = lines_of;
  strip = λ s. s;
  data_field = field_of;
  loads = parsed_of;
  lower = λ s. s;
  contains = str_eq;
  is_status_label = λ s. str_eq s "assistant";
}

chunk_fields-IsChunk : (s : String) → IsChunk texts (object (chunk_fields s)) s
unfolding follow lookup
chunk_fields-IsChunk s = record { no_delta = λ k. refl; no_message = λ k. refl; content = refl }

first_carried : Carries texts "data: 1" "Hel"
first_carried = record {
  rest = "1";
  obj = object (chunk_fields "Hel");
  after_mark = refl;
  not_empty = refl;
  not_done = refl;
  parsed = refl;
  chunk = chunk_fields-IsChunk "Hel";
  plain = record { filled = refl; unlabelled = refl };
}

second_carried : Carries texts "data: 2" "lo"
second_carried = record {
  rest = "2";
  obj = object (chunk_fields "lo");
  after_mark = refl;
  not_empty = refl;
  not_done = refl;
  parsed = refl;
  chunk = chunk_fields-IsChunk "lo";
  plain = record { filled = refl; unlabelled = refl };
}

end_marked : IsDone texts "data: end"
end_marked = record { rest = "[DONE]"; after_mark = refl; done = refl }

-- The first chunk of a message has an empty content.
nothing_held : (s : String) → ¬ Holds texts s (object (chunk_fields ""))
unfolding extract_deltas_from_obj
nothing_held s h = (extract_deltas_from_obj_iff texts (object (chunk_fields "")) s).1 h

first-IsSilent : IsSilent texts "data: 0"
unfolding follow lookup
first-IsSilent = record {
  rest = "0";
  obj = object (chunk_fields "");
  after_mark = refl;
  not_empty = refl;
  not_done = refl;
  parsed = refl;
  quiet = record {
    bare = (tt, (tt, (tt, (tt, (tt, (tt, (inl refl, (tt, (tt, tt)))))))));
    nothing = nothing_held;
  };
}

message : IsStream texts (lines_of "talk") ("Hel" ∷ "lo" ∷ [])
message =
    passes first-IsSilent
      (carries first_carried (skips refl (carries second_carried (ends end_marked finished))))

sse_delta_to_text-IsStream_example : sse_delta_to_text texts "talk" ≡ joined ("Hel" ∷ "lo" ∷ [])
sse_delta_to_text-IsStream_example =
    sse_delta_to_text-IsStream texts "talk" ("Hel" ∷ "lo" ∷ []) message

plain_stream : IsPlainStream texts (lines_of "stream") ("Hel" ∷ "lo" ∷ [])
unfolding follow lookup first_carried second_carried
plain_stream =
    brings
      (record {
        line_filled = refl;
        fields = chunk_fields "Hel";
        carried = first_carried;
        is_object = refl;
        no_data = λ k. refl;
      })
      (blanks (record { blank = refl; dataless = refl })
        (brings
          (record {
            line_filled = refl;
            fields = chunk_fields "lo";
            carried = second_carried;
            is_object = refl;
            no_data = λ k. refl;
          })
          (stops (record { line_filled = refl; mark = end_marked }) finishes)))

coerce_sse_text-sse_delta_to_text_example :
    (coerce_sse_text texts "stream" ≡ sse_delta_to_text texts "stream")
    × (coerce_sse_text texts "stream" ≡ joined ("Hel" ∷ "lo" ∷ []))
coerce_sse_text-sse_delta_to_text_example =
    coerce_sse_text-sse_delta_to_text texts "stream" "Hel" ("lo" ∷ []) refl plain_stream

-- The engine takes the name of an event for text, the adapter does not.
event_name_kept : coerce_sse_text texts "events" ≡ "event: messageHel"
unfolding coerce_sse_text
event_name_kept = refl

event_name_dropped : sse_delta_to_text texts "events" ≡ "Hel"
unfolding sse_delta_to_text
event_name_dropped = refl

-- Two texts deep in an object: the later one is found first.
abbrev nested : Json
nested = object (
    field "a" (object (field "content" (text "one") end))
      (field "b" (array (cons (object (field "text" (text "two") end)) nil)) end))

extract_deltas_from_obj_iff_example :
    Has "one" (extract_deltas_from_obj texts nested) ↔ Holds texts "one" nested
extract_deltas_from_obj_iff_example = extract_deltas_from_obj_iff texts nested "one"

later_first : extract_deltas_from_obj texts nested ≡ "two" ∷ "one" ∷ []
unfolding extract_deltas_from_obj
later_first = refl
