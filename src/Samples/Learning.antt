-- ===== src/Samples/Learning.antt =====
-- A store that learns of two providers, and is opened again.
use chat_to_agent.Base.{ℕ, ◌≡◌, refl, true, false, some, List, [], ◌∷◌}
use chat_to_agent.Base.Exec.{returned}
use chat_to_agent.Intelligence.Learning.{provider, selector, Store, no_targets}
use chat_to_agent.Intelligence.Learning.Histories.{
  Call, gets, records, resets, run, counts, tally, run-tally,
}
use chat_to_agent.Intelligence.Learning.Saving.{save, open_store}
use chat_to_agent.Intelligence.Learning.Saving.Reopening.{IsSorted, open_store-save}
use chat_to_agent.Intelligence.Learning.{bucket}
use chat_to_agent.Samples.Router.{scaled}

abbrev same : ℕ → ℕ
same x = x

abbrev fresh : Store ℕ
fresh = record { prior_alpha = scaled.of 1 1; prior_beta = scaled.of 1 1; targets = no_targets }

abbrev calls : List (Call ℕ)
calls =
    records 5 provider "kimi_ui" true
    ∷ resets
    ∷ records 6 provider "kimi_ui" false
    ∷ gets 7 selector "kimi_ui"
    ∷ records 8 provider "kimi_ui" true
    ∷ records 9 provider "qwen_ui" true
    ∷ []

run-tally_example :
    counts same provider "kimi_ui" (run same calls fresh)
    ≡ tally provider "kimi_ui" calls (counts same provider "kimi_ui" fresh)
run-tally_example = run-tally same provider "kimi_ui" calls fresh

one_each : tally provider "kimi_ui" calls (0, 0) ≡ (1, 1)
one_each = refl

abbrev left : Store ℕ
left = run same calls fresh

open_store-save_example : IsSorted (bucket provider left.targets) (
    bucket provider
      (open_store 99 (scaled.of 2 1) (scaled.of 3 1) (some (returned (save left.targets)))).targets)
open_store-save_example =
    open_store-save same calls (scaled.of 1 1) (scaled.of 1 1) (scaled.of 2 1) (scaled.of 3 1) 99
      provider
