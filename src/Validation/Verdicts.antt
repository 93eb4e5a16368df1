-- ===== src/Validation/Verdicts.antt =====
-- When a response passes.
use chat_to_agent.Base.{
  ltb, Bool-cases, Option-cases, is_some, truthy, all, ℕ, ◌≤◌, min, String, ◌≡◌, refl, inl, inr,
  Bool, true, false, not, ◌&&◌, ◌||◌, Option, List, [], ◌∷◌, ◌++◌, arith,
}
use Prim.Native.String.{◌++◌ as append}
use mathlib.Core.List.{append-nil}
use chat_to_agent.Adapters.Sending.{ProviderResponse}
use chat_to_agent.Validation.{
  ValidationResult, ValidationError, Texts, merge, check_success, check_blocks, check_empty_content,
  check_json_blocks, check_python_blocks, check_injection, warn, validate_deterministic,
  validate_deepseek, validate, deterministic, fail_with,
}

abbrev pub parses : (String → Option String) → String → Bool
parses error_of block = not (is_some (error_of block))

abbrev pub is_nil : List ValidationError → Bool
is_nil [] = true
is_nil (e ∷ es) = false

-- A result passes exactly when it has no error, and its score is at most 1.0.
abbrev pub IsSound : ValidationResult → Type 0
IsSound r = (r.passed ≡ is_nil r.errors) × (r.score ≤ 10)

is_nil-append : (es : List ValidationError) (e : ValidationError) → is_nil (es ++ (e ∷ [])) ≡ false
is_nil-append [] e = refl
is_nil-append (x ∷ xs) e = refl

fail_with-IsSound :
    (c m : String) (n : ℕ) (r : ValidationResult) → IsSound r → IsSound (fail_with c m n r)
fail_with-IsSound c m n r h =
    let e : ValidationError = record { code = c; message = m; level = deterministic } in
    ground (arith, h, is_nil-append r.errors e)

abbrev Checked : ValidationResult → Bool → ValidationResult → Type 0
Checked r good r' = IsSound r' × (r'.passed ≡ r.passed && good)

check_blocks-lem :
    (c p : String) (error_of : String → Option String) (blocks : List String) (r : ValidationResult)
    → IsSound r
    → Checked r (all (parses error_of) blocks) (check_blocks c p error_of blocks r)
unfolding check_blocks
check_blocks-lem c p error_of [] r h = ground (arith, h)
check_blocks-lem c p error_of (b ∷ bs) r h = elim (Option-cases (error_of b)) [
  | inl e ↦ ground (arith, e, h, check_blocks-lem c p error_of bs r h)
  | inr (m, e) ↦
      let failed = fail_with c (append p m) 5 r in
      let sound = fail_with-IsSound c (append p m) 5 r h in
      ground (arith, e, check_blocks-lem c p error_of bs failed sound)
]

warn-lem : (ps : List String) (r : ValidationResult) → IsSound r → Checked r true (warn ps r)
unfolding warn
warn-lem [] r h = ground (arith, h)
warn-lem (p ∷ ps) r h =
    let warned : ValidationResult = record r {
      warnings = r.warnings ++ (append "Possible prompt injection pattern matched: " p ∷ []);
      score = min r.score 7;
    } in
    ground (arith, warn-lem ps warned (ground (arith, h)), h)

check_success-lem :
    (resp : ProviderResponse) (r : ValidationResult)
    → IsSound r
    → Checked r resp.success (check_success resp r)
unfolding check_success
check_success-lem resp r h =
    let m = append "Provider returned failure: " (truthy resp.error "None") in
    ground (arith, h, fail_with-IsSound "E001" m 0 r h)

module _ (t : Texts) where
  check_empty_content-lem :
      (resp : ProviderResponse) (r : ValidationResult)
      → IsSound r
      → Checked r (not (t.is_blank resp.content)) (check_empty_content t resp r)
  unfolding check_empty_content
  check_empty_content-lem resp r h =
      ground (arith, h, fail_with-IsSound "E002" "Response content is empty" 0 r h)

  -- What the first level asks of a response.
  abbrev pub is_acceptable : ProviderResponse → Bool
  is_acceptable resp =
      resp.success
      && not (t.is_blank resp.content)
      && all (parses t.json_error) (t.json_blocks resp.content)
      && all (parses t.python_error) (t.python_blocks resp.content)

  abbrev fresh : ValidationResult
  fresh = record { passed = true; level = deterministic; errors = []; warnings = []; score = 10 }

  deterministic-lem :
      (resp : ProviderResponse) → Checked fresh (is_acceptable resp) (validate_deterministic t resp)
  unfolding validate_deterministic check_json_blocks check_python_blocks check_injection
  deterministic-lem resp =
      let r₁ = check_success resp fresh in
      let (s₁, p₁) = check_success-lem resp fresh (ground arith) in
      let r₂ = check_empty_content t resp r₁ in
      let (s₂, p₂) = check_empty_content-lem resp r₁ s₁ in
      let r₃ = check_json_blocks t resp r₂ in
      let (s₃, p₃) =
        check_blocks-lem "E003" "Invalid JSON block: " t.json_error (t.json_blocks resp.content) r₂
          s₂ in
      let r₄ = check_python_blocks t resp r₃ in
      let (s₄, p₄) =
        check_blocks-lem "E004" "Invalid Python block: " t.python_error
          (t.python_blocks resp.content) r₃ s₃ in
      let (s₅, p₅) = warn-lem (t.injections resp.content) r₄ s₄ in
      (s₅, ground (arith, p₁, p₂, p₃, p₄, p₅))

  merge-deepseek :
      (resp : ProviderResponse) (r : ValidationResult)
      → IsSound r
      → Checked r true (merge r (validate_deepseek t resp))
  unfolding merge validate_deepseek
  merge-deepseek resp r h = ground (arith, h, append-nil r.errors)

  -- A response passes, whether or not the second level is asked for, exactly when the provider
  -- reports a success, the content is not blank, and every block of JSON and of Python in it parses;
  -- a result passes exactly when it lists no error.
  pub validate-passes :
      (require_deepseek : Bool) (resp : ProviderResponse)
      → let r = validate t require_deepseek resp in
        (r.passed ≡ is_acceptable resp) × (r.passed ≡ is_nil r.errors)
  unfolding validate
  validate-passes q resp =
      let first = validate_deterministic t resp in
      let (sound, passes) = deterministic-lem resp in
      let (sound', passes') = merge-deepseek resp first sound in
      elim (Bool-cases (q || (first.passed && ltb first.score 10))) [
        | inl e ↦ rw e (ground (arith, passes, passes', sound'))
        | inr e ↦ rw e (ground (arith, passes, sound))
      ]
