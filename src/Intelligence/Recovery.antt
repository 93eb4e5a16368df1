-- ===== src/Intelligence/Recovery.antt =====
-- ai_orchestrator/browser_intelligence/recovery/__init__.py. Confidence is counted in hundredths;
-- start times and durations, which nothing reads, are left out. A handler is a method on a context of
-- the caller's choice that may raise; awaiting it is running it.
pub mod Builtin
pub mod Cheapest
pub mod History
use chat_to_agent.Base.{
  ltb, leb, if◌then◌else◌, length, last_n, ℕ, zero, suc, String, Bool, false, ◌&&◌, Option, none,
  some, List, [], ◌∷◌, ◌++◌,
}
use chat_to_agent.Base.Exec.{returned, raised, Method}
use mathlib.Core.Logic.{ite}

pub data RecoveryStep : Type 0 where
  selector_cache a11y graph network session worker provider workflow : RecoveryStep

pub RecoveryStep-discrete : Discrete RecoveryStep
RecoveryStep-discrete = hlevel

abbrev pub cost : RecoveryStep → ℕ
cost selector_cache = 1
cost a11y = 2
cost graph = 3
cost network = 4
cost session = 6
cost worker = 8
cost provider = 10
cost workflow = 14

abbrev pub cascade_order : List RecoveryStep
cascade_order =
    selector_cache ∷ a11y ∷ graph ∷ network ∷ session ∷ worker ∷ provider ∷ workflow ∷ []

pub record RecoveryOutcome : Type 0 where
  pub step : RecoveryStep
  pub success : Bool
  pub confidence : ℕ
  pub detail : String
  pub cost : ℕ

-- `RecoveryAction`: what it raises is known by its text.
abbrev pub RecoveryAction : Type 0 → Type 0
RecoveryAction S = Method S String RecoveryOutcome

pub record RecoveryCascade (S : Type 0) : Type 0 where
  pub handlers : RecoveryStep → Option (RecoveryAction S)
  pub min_confidence : ℕ
  pub history : List RecoveryOutcome
  pub max_history : ℕ

-- `xs[-n:]`, which is all of `xs` for 0
abbrev pub last_slice : {A : Type 0} → ℕ → List A → List A
last_slice zero xs = xs
last_slice (suc n) xs = last_n (suc n) xs

unfoldable pub failed_outcome : RecoveryStep → String → RecoveryOutcome
failed_outcome s text = record {
  step = s;
  success = false;
  confidence = 0;
  detail = text;
  cost = cost s;
}

-- success and confidence >= min_confidence
abbrev pub is_confident : ℕ → RecoveryOutcome → Bool
is_confident least o = o.success && leb least o.confidence

module _ {S : Type 0} where
  -- `RecoveryCascade()`
  unfoldable pub new : RecoveryCascade S
  new = record { handlers = λ s. none; min_confidence = 55; history = []; max_history = 200 }

  unfoldable pub register : RecoveryStep → RecoveryAction S → RecoveryCascade S → RecoveryCascade S
  unfolding RecoveryStep-discrete
  register step handler c = record c {
    handlers = λ s. ite (RecoveryStep-discrete step s) (some handler) (c.handlers s);
  }

  unfoldable pub reset : RecoveryCascade S → RecoveryCascade S
  reset c = record c { history = [] }

  unfoldable pub record_outcome : RecoveryOutcome → RecoveryCascade S → RecoveryCascade S
  record_outcome o c =
      let h = c.history ++ (o ∷ []) in
      record c { history = if ltb c.max_history (length h) then last_slice c.max_history h else h }

  -- The outcomes of the steps, in order, with the cascade and the context that they leave.
  unfoldable pub run_steps :
      List RecoveryStep → RecoveryCascade S → S → List RecoveryOutcome × RecoveryCascade S × S
  unfolding record_outcome failed_outcome
  run_steps [] c context = ([], c, context)
  run_steps (s ∷ steps) c context = elim (c.handlers s) [
    | none ↦ run_steps steps c context
    | some handler ↦
        let (answer, context') = handler context in
        elim answer [
          | raised text ↦
              let (os, d, last) = run_steps steps c context' in
              (failed_outcome s text ∷ os, d, last)
          | returned result ↦
              let o = record result { cost = cost s } in
              let d = record_outcome o c in
              if is_confident c.min_confidence o
              then (o ∷ [], d, context')
              else (let (os, d', last) = run_steps steps d context' in (o ∷ os, d', last))
        ]
  ]

  unfoldable pub run : RecoveryCascade S → S → List RecoveryOutcome × RecoveryCascade S × S
  unfolding run_steps
  run = run_steps cascade_order
