-- ===== src/Validation.antt =====
-- ai_orchestrator/validation/validator.py. What the standard library says of a text is the argument
-- `Texts`: whether it is blank, which blocks a regular expression finds, and the errors of the parsers.
-- Scores are in tenths.
pub mod Verdicts
use Prim.Native.String.{◌++◌ as append}
use chat_to_agent.Base.{
  ltb, if◌then◌else◌, truthy, ℕ, min, String, Bool, true, false, ◌&&◌, ◌||◌, Option, none, some,
  List, [], ◌∷◌, ◌++◌,
}
use chat_to_agent.Adapters.Sending.{ProviderResponse}

pub data ValidationLevel : Type 0 where
  unchecked deterministic deepseek_review : ValidationLevel

-- The value of the IntEnum.
abbrev pub level_rank : ValidationLevel → ℕ
level_rank unchecked = 0
level_rank deterministic = 1
level_rank deepseek_review = 2

pub record ValidationError : Type 0 where
  pub code : String
  pub message : String
  pub level : ValidationLevel

pub record ValidationResult : Type 0 where
  pub passed : Bool
  pub level : ValidationLevel
  pub errors : List ValidationError
  pub warnings : List String
  pub score : ℕ

abbrev higher_level : ValidationLevel → ValidationLevel → ValidationLevel
higher_level a b = if ltb (level_rank a) (level_rank b) then b else a

unfoldable pub merge : ValidationResult → ValidationResult → ValidationResult
merge r other = record {
  passed = r.passed && other.passed;
  level = higher_level r.level other.level;
  errors = r.errors ++ other.errors;
  warnings = r.warnings ++ other.warnings;
  score = min r.score other.score;
}

-- A failed check: its error, and a score of at most this.
abbrev pub fail_with : String → String → ℕ → ValidationResult → ValidationResult
fail_with error_code text limit r = record r {
  passed = false;
  errors = r.errors ++ (record { code = error_code; message = text; level = deterministic } ∷ []);
  score = min r.score limit;
}

pub record Texts : Type 0 where
  pub is_blank : String → Bool
  pub json_blocks : String → List String
  pub python_blocks : String → List String
  -- The error of `json.loads` or `ast.parse`, none where it parses.
  pub json_error : String → Option String
  pub python_error : String → Option String
  -- The patterns of COMMON_INJECTION_PATTERNS that are found.
  pub injections : String → List String

unfoldable pub check_success : ProviderResponse → ValidationResult → ValidationResult
check_success resp r =
    if resp.success
    then r
    else fail_with "E001" (append "Provider returned failure: " (truthy resp.error "None")) 0 r

-- The loop over the blocks of a language.
unfoldable pub check_blocks :
    String → String → (String → Option String) → List String → ValidationResult → ValidationResult
check_blocks error_code prefix error_of [] r = r
check_blocks error_code prefix error_of (block ∷ blocks) r =
    check_blocks error_code prefix error_of blocks
      (elim (error_of block) [ none ↦ r | some e ↦ fail_with error_code (append prefix e) 5 r ])

-- The loop over the patterns that match.
unfoldable pub warn : List String → ValidationResult → ValidationResult
warn [] r = r
warn (p ∷ ps) r = warn ps (record r {
  warnings = r.warnings ++ (append "Possible prompt injection pattern matched: " p ∷ []);
  score = min r.score 7;
})

module _ (t : Texts) where
  unfoldable pub check_empty_content : ProviderResponse → ValidationResult → ValidationResult
  check_empty_content resp r =
      if t.is_blank resp.content then fail_with "E002" "Response content is empty" 0 r else r

  unfoldable pub check_json_blocks : ProviderResponse → ValidationResult → ValidationResult
  unfolding check_blocks
  check_json_blocks resp r =
      check_blocks "E003" "Invalid JSON block: " t.json_error (t.json_blocks resp.content) r

  unfoldable pub check_python_blocks : ProviderResponse → ValidationResult → ValidationResult
  unfolding check_blocks
  check_python_blocks resp r =
      check_blocks "E004" "Invalid Python block: " t.python_error (t.python_blocks resp.content) r

  unfoldable pub check_injection : ProviderResponse → ValidationResult → ValidationResult
  unfolding warn
  check_injection resp r = warn (t.injections resp.content) r

  -- DeterministicValidator.validate
  unfoldable pub validate_deterministic : ProviderResponse → ValidationResult
  unfolding check_success check_empty_content check_json_blocks check_python_blocks check_injection
  validate_deterministic resp =
      let fresh : ValidationResult = record {
        passed = true;
        level = deterministic;
        errors = [];
        warnings = [];
        score = 10;
      } in
      check_injection resp (
        check_python_blocks resp
          (check_json_blocks resp (check_empty_content resp (check_success resp fresh))))

  -- DeepSeekValidator.validate, which passes everything.
  unfoldable pub validate_deepseek : ProviderResponse → ValidationResult
  validate_deepseek resp = record {
    passed = true;
    level = deepseek_review;
    errors = [];
    warnings = [];
    score = 10;
  }

  -- ResponseValidator.validate
  unfoldable pub validate : Bool → ProviderResponse → ValidationResult
  unfolding validate_deterministic validate_deepseek merge
  validate require_deepseek resp =
      let r = validate_deterministic resp in
      if require_deepseek || (r.passed && ltb r.score 10)
      then merge r (validate_deepseek resp)
      else r
