-- ===== src/Samples/Validation.antt =====
-- A response with a block that does not parse.
use chat_to_agent.Base.{if◌then◌else◌, String, ◌≡◌, refl, true, false, none, some, [], ◌∷◌, str_eq}
use chat_to_agent.Adapters.Sending.{ProviderResponse}
use chat_to_agent.Validation.{Texts, validate, deepseek_review}
use chat_to_agent.Validation.Verdicts.{is_acceptable, is_nil, validate-passes}

-- Texts of which the one "bad" has a block of JSON, and "odd" a pattern of an injection.
abbrev texts : Texts
texts = record {
  is_blank = λ s. str_eq s "";
  json_blocks = λ s. if str_eq s "bad" then "{" ∷ [] else [];
  python_blocks = λ s. [];
  json_error = λ s. if str_eq s "{" then some "Expecting property name" else none;
  python_error = λ s. none;
  injections = λ s. if str_eq s "odd" then "forget" ∷ [] else [];
}

abbrev saying : String → ProviderResponse
saying s = record {
  success = true;
  content = s;
  reasoning_content = none;
  model = "kimi_ui";
  error = none;
  latency = 5;
}

validate-passes_example :
    let r = validate texts false (saying "bad") in
    (r.passed ≡ is_acceptable texts (saying "bad")) × (r.passed ≡ is_nil r.errors)
validate-passes_example = validate-passes texts false (saying "bad")

bad_refused : (validate texts false (saying "bad")).passed ≡ false
unfolding validate
bad_refused = refl

-- A suspicious text is passed on to the second level, with what is left of its score.
odd_escalates :
    ((validate texts false (saying "odd")).level ≡ deepseek_review)
    × ((validate texts false (saying "odd")).score ≡ 7)
unfolding validate
odd_escalates = (refl, refl)
