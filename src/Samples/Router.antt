-- ===== src/Samples/Router.antt =====
-- The router on three accounts, with numbers to four decimals.
use chat_to_agent.Base.{
  ltb, ℕ, ◌+◌, ◌-◌, ◌*◌, ◌/◌, ◌<◌, ◌≡◌, refl, inl, inr, true, false, some, List, [], ◌∷◌, arith,
}
use chat_to_agent.Base.Dict.{Dict}
use chat_to_agent.Base.Number.{Number, IsOrder}
use chat_to_agent.Models.Account
use chat_to_agent.Models.Account.{Account, idle}
use chat_to_agent.Models.Capabilities.{TaskRequirements, default_priority, provider_profiles}
use chat_to_agent.Orchestrator.Router.{default_weights, zero_score, select_account, select_provider}
use chat_to_agent.Orchestrator.Router.Ranking.{max_account, score_of, select_account_lem}
use chat_to_agent.Orchestrator.Router.Pool.{select_provider-highest, too_small-last, IsIn}

pub ltb-IsOrder : IsOrder ltb
ltb-IsOrder = record {
  irreflexive = λ a. ground arith;
  transitive = λ a b c. ground arith;
  cotransitive = λ a b c. ground arith;
}

-- A number is kept as its ten-thousandths plus this; factors are not negative here.
abbrev bias : ℕ
bias = 1_000_000_000

abbrev sum_of : List ℕ → ℕ
sum_of [] = bias
sum_of (n ∷ ns) = n + sum_of ns - bias

instance unfoldable pub scaled : Number ℕ
scaled = record {
  of = λ a b. bias + a * 10000 / b;
  add = λ a b. a + b - bias;
  subtract = λ a b. a + bias - b;
  multiply = λ a b. bias + (a - bias) * (b - bias) / 10000;
  divide = λ a b. bias + (a - bias) * 10000 / (b - bias);
  sum = sum_of;
  less = ltb;
  ordered = ltb-IsOrder;
}

abbrev deepseek : Account
deepseek = Account.new "deepseek:ui-01" "deepseek_ui" idle 1048576

abbrev qwen : Account
qwen = record (Account.new "qwen:ui-01" "qwen_ui" idle 131072) { health_score = 90 }

abbrev chatgpt : Account
chatgpt = Account.new "chatgpt:ui-01" "chatgpt_ui" idle 32768

abbrev needs : ℕ → TaskRequirements ℕ
needs context = record {
  context_length = context;
  requires_reasoning = true;
  requires_coding = false;
  requires_translation = false;
  requires_multimodality = false;
  priority = default_priority;
}

abbrev pool : Dict (List Account)
pool = ("chatgpt_ui", chatgpt ∷ []) ∷ ("qwen_ui", qwen ∷ []) ∷ ("deepseek_ui", deepseek ∷ []) ∷ []

best_account :
    select_account default_weights (needs 4096) (chatgpt ∷ qwen ∷ deepseek ∷ []) ≡ some deepseek
unfolding select_account Account.new scaled provider_profiles default_weights
best_account = refl

-- Every account is too small: the first is still selected, with no score.
none_fits :
    select_account default_weights (needs 2000000) (chatgpt ∷ qwen ∷ deepseek ∷ []) ≡ some chatgpt
unfolding select_account Account.new scaled provider_profiles default_weights
none_fits = refl

select_account_lem_example :
    select_account default_weights (needs 4096) (chatgpt ∷ qwen ∷ deepseek ∷ [])
    ≡ some (max_account default_weights (needs 4096) chatgpt (qwen ∷ deepseek ∷ []))
select_account_lem_example =
    select_account_lem default_weights (needs 4096) chatgpt (qwen ∷ deepseek ∷ [])

best_provider : select_provider default_weights (needs 4096) pool ≡ some ("deepseek_ui", deepseek)
unfolding select_provider Account.new scaled provider_profiles default_weights
best_provider = refl

select_provider-highest_example :
    IsIn default_weights (needs 4096) pool "deepseek_ui" deepseek
    × (scaled.less
          (score_of default_weights (needs 4096) deepseek)
          (score_of default_weights (needs 4096) qwen)
        ≡ false)
select_provider-highest_example =
    select_provider-highest default_weights (needs 4096) pool "deepseek_ui" deepseek "qwen_ui"
      (qwen ∷ []) qwen best_provider (inr (inl refl)) (inl refl)

nobody_fits : select_provider default_weights (needs 2000000) pool ≡ some ("chatgpt_ui", chatgpt)
unfolding select_provider Account.new scaled provider_profiles default_weights
nobody_fits = refl

chatgpt_too_small : chatgpt.context_limit < (needs 2000000).context_length
unfolding Account.new
chatgpt_too_small = omega arith

too_small-last_example :
    scaled.less zero_score (score_of default_weights (needs 2000000) qwen) ≡ false
too_small-last_example =
    too_small-last default_weights (needs 2000000) pool "chatgpt_ui" chatgpt "qwen_ui" (qwen ∷ [])
      qwen nobody_fits chatgpt_too_small (inr (inl refl)) (inl refl)
