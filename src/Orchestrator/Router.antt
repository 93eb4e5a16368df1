-- ===== src/Orchestrator/Router.antt =====
-- ProviderRouter of ai_orchestrator/orchestrator/provider_router.py. The floats are any type with the
-- operations of Base/Number.antt; a reason keeps the values that its text shows.
pub mod Ranking
pub mod Pool
use chat_to_agent.Base.{
  ltb, if◌then◌else◌, truthy, keep, ℕ, String, Bool, Option, none, some, List, [], ◌∷◌, map, str_eq,
}
use chat_to_agent.Base.Dict.{Dict, get}
use chat_to_agent.Base.Fraction.{Fraction}
use chat_to_agent.Base.Number.{Number, least, greatest}
use chat_to_agent.Models.Account.{Account}
use chat_to_agent.Models.Capabilities.{
  CapabilityVector, TaskRequirements, ProviderCapabilities, provider_profiles,
}

pub data Reason (F : Type 0) : Type 0 where
  context_exceeded unknown_provider : Reason F
  scored : F → List (String × F) → Reason F

pub record ScoredAccount (F : Type 0) : Type 0 where
  pub account : Account
  pub score : F
  pub reason : Reason F

-- The weights by name: `self.weights`, which has all of them.
pub record Weights (F : Type 0) : Type 0 where
  pub reasoning : F
  pub coding : F
  pub translation : F
  pub multimodality : F
  pub health_penalty : F
  pub rate_penalty : F
  pub latency_penalty : F
  pub failures_penalty : F

-- A capability that a task can require: its name, whether it is required, its weight and its value.
pub record Dimension (F : Type 0) : Type 0 where
  pub name : String
  pub required : Bool
  pub weight : F
  pub value : F

-- What `select_provider` has found so far.
pub record Best (F : Type 0) : Type 0 where
  pub choice : Option (String × Account)
  pub best_score : F

-- `PROVIDER_PROFILES` searched for the name of a provider.
unfoldable pub find_profile : String → List ProviderCapabilities → Option CapabilityVector
find_profile provider [] = none
find_profile provider (p ∷ ps) =
    if str_eq p.provider_name provider then some p.capabilities else find_profile provider ps

module _ {F : Type 0} ⦃o : Number F⦄ where
  abbrev pub zero_score : F
  zero_score = o.of 0 1

  abbrev pub hundredths : ℕ → F
  hundredths n = o.of n 100

  abbrev pub whole : ℕ → F
  whole n = o.of n 1

  unfoldable pub default_weights : Weights F
  default_weights = record {
    reasoning = o.of 3 10;
    coding = o.of 3 10;
    translation = o.of 2 10;
    multimodality = o.of 2 10;
    health_penalty = o.of 20 10;
    rate_penalty = o.of 15 10;
    latency_penalty = o.of 10 10;
    failures_penalty = o.of 5 10;
  }

  -- {**DEFAULT_WEIGHTS, **(weights or {})}
  unfoldable pub merged_weights : Dict F → Weights F
  unfolding default_weights get
  merged_weights given =
      let d = default_weights in
      record {
        reasoning = truthy (get "reasoning" given) d.reasoning;
        coding = truthy (get "coding" given) d.coding;
        translation = truthy (get "translation" given) d.translation;
        multimodality = truthy (get "multimodality" given) d.multimodality;
        health_penalty = truthy (get "health_penalty" given) d.health_penalty;
        rate_penalty = truthy (get "rate_penalty" given) d.rate_penalty;
        latency_penalty = truthy (get "latency_penalty" given) d.latency_penalty;
        failures_penalty = truthy (get "failures_penalty" given) d.failures_penalty;
      }

  -- The names of _CAPABILITY_NAMES, which are those of flag_map, in their order.
  unfoldable pub dimensions : Weights F → CapabilityVector → TaskRequirements F → List (Dimension F)
  dimensions w caps r =
      record {
        name = "reasoning";
        required = r.requires_reasoning;
        weight = w.reasoning;
        value = hundredths caps.reasoning;
      }
      ∷ record {
        name = "coding";
        required = r.requires_coding;
        weight = w.coding;
        value = hundredths caps.coding;
      }
      ∷ record {
        name = "translation";
        required = r.requires_translation;
        weight = w.translation;
        value = hundredths caps.translation;
      }
      ∷ record {
        name = "multimodality";
        required = r.requires_multimodality;
        weight = w.multimodality;
        value = hundredths caps.multimodality;
      }
      ∷ []

  -- The loop `for name in active`.
  unfoldable pub add_active : Dict F → F → List (Dimension F) → F
  unfolding get
  add_active priority score [] = score
  add_active priority score (d ∷ ds) =
      let weight = truthy (get d.name priority) d.weight in
      add_active priority (o.add score (o.multiply weight d.value)) ds

  unfoldable pub compute_capability_score : Weights F → CapabilityVector → TaskRequirements F → F
  unfolding dimensions add_active keep
  compute_capability_score w caps r =
      let all_of_them = dimensions w caps r in
      let active = keep (λ (d : Dimension F). d.required) all_of_them in
      elim active [
        | [] ↦ o.sum (map (λ (d : Dimension F). o.multiply d.weight d.value) all_of_them)
        | d ∷ ds ↦ add_active r.priority zero_score (d ∷ ds)
      ]

  abbrev latency_of : Fraction → F
  latency_of q = o.divide (whole q.num) (whole q.den)

  -- The penalties with their names, in the order in which they are described.
  unfoldable pub penalties : Weights F → Account → List (String × F)
  unfolding least
  penalties w a =
      (
        "health_penalty",
        o.multiply (o.subtract (whole 1) (hundredths a.health_score)) w.health_penalty,
      )
      ∷ ("rate_penalty", o.multiply (hundredths a.current_rate_usage) w.rate_penalty)
      ∷ (
        "latency_penalty",
        o.multiply (least (o.divide (latency_of a.avg_latency) (whole 1000)) (whole 5))
            w.latency_penalty,
      )
      ∷ ("failures_penalty", o.multiply (whole a.consecutive_failures) w.failures_penalty)
      ∷ []

  abbrev add_all : F → List (String × F) → F
  add_all total [] = total
  add_all total ((name, p) ∷ ps) = add_all (o.add total p) ps

  abbrev total_of : List (String × F) → F
  total_of [] = zero_score
  total_of ((name, p) ∷ ps) = add_all p ps

  unfoldable pub compute_penalties : Weights F → Account → F × List (String × F)
  unfolding penalties keep
  compute_penalties w a =
      (total_of (penalties w a), keep (λ (p : String × F). o.less zero_score p.1) (penalties w a))

  unfoldable pub score_account : Weights F → TaskRequirements F → Account → ScoredAccount F
  unfolding find_profile compute_capability_score compute_penalties greatest
  score_account w r a =
      if ltb a.context_limit r.context_length
      then record { account = a; score = zero_score; reason = context_exceeded }
      else elim (find_profile a.provider provider_profiles) [
        | none ↦ record { account = a; score = zero_score; reason = unknown_provider }
        | some caps ↦
            let (total, parts) = compute_penalties w a in
            let final =
              greatest zero_score (o.subtract (compute_capability_score w caps r) total) in
            record { account = a; score = final; reason = scored final parts }
      ]

  -- The built-in `sort` by descending score, which keeps the order of equals.
  unfoldable pub insert : ScoredAccount F → List (ScoredAccount F) → List (ScoredAccount F)
  insert x [] = x ∷ []
  insert x (y ∷ ys) = if o.less x.score y.score then y ∷ insert x ys else x ∷ y ∷ ys

  unfoldable pub sort : List (ScoredAccount F) → List (ScoredAccount F)
  unfolding insert
  sort [] = []
  sort (x ∷ xs) = insert x (sort xs)

  unfoldable pub rank_accounts :
      Weights F → TaskRequirements F → List Account → List (ScoredAccount F)
  unfolding score_account sort
  rank_accounts w r accounts = sort (map (score_account w r) accounts)

  unfoldable pub select_account : Weights F → TaskRequirements F → List Account → Option Account
  unfolding rank_accounts
  select_account w r accounts = elim (rank_accounts w r accounts) [
    | [] ↦ none
    | x ∷ xs ↦ some x.account
  ]

  -- One turn of the loop of `select_provider`.
  unfoldable pub consider : Weights F → TaskRequirements F → String → List Account → Best F → Best F
  unfolding select_account score_account
  consider w r provider accounts b = elim (select_account w r accounts) [
    | none ↦ b
    | some a ↦
        let s = (score_account w r a).score in
        if o.less b.best_score s then record { choice = some (provider, a); best_score = s } else b
  ]

  unfoldable pub consider_all :
      Weights F → TaskRequirements F → Dict (List Account) → Best F → Best F
  unfolding consider
  consider_all w r [] b = b
  consider_all w r ((provider, accounts) ∷ pool) b =
      consider_all w r pool (consider w r provider accounts b)

  unfoldable pub select_provider :
      Weights F → TaskRequirements F → Dict (List Account) → Option (String × Account)
  unfolding consider_all
  select_provider w r pool =
      (consider_all w r pool
        (record { choice = none; best_score = o.subtract zero_score (whole 1) })).choice
