-- ===== src/Intelligence/Learning.antt =====
-- ai_orchestrator/browser_intelligence/learning/__init__.py: what is learnt of the reliability of
-- providers, accounts, selectors and actions. Floats are numbers `F`, clock readings among them, and
-- `math.exp` is an argument. A saved store is what `json.loads` gives back of it, field by field.
pub mod Saving
pub mod Histories
pub mod Filed
use chat_to_agent.Base.{
  if◌then◌else◌, ℕ, ◌+◌, String, Bool, true, false, not, ◌&&◌, Option, none, some, List, [], ◌∷◌,
  str_eq,
}
use chat_to_agent.Base.Dict.{Dict, get, put}
use chat_to_agent.Base.Number.{Number, greatest}

module _ {F : Type 0} ⦃o : Number F⦄ where
  abbrev pub beta_mean : F → F → F
  beta_mean alpha beta_param = o.divide alpha (o.add alpha beta_param)

  -- a * b / ((a + b) ** 2 * (a + b + 1))
  abbrev pub beta_variance : F → F → F
  beta_variance a b =
      let n = o.add a b in
      o.divide (o.multiply a b) (o.multiply (o.multiply n n) (o.add n (o.of 1 1)))

  abbrev pub beta_update : F → F → Bool → F × F
  beta_update alpha beta_param success =
      if success then (o.add alpha (o.of 1 1), beta_param) else (alpha, o.add beta_param (o.of 1 1))

pub record BayesianReliability (F : Type 0) : Type 0 where
  pub key : String
  pub successes : ℕ
  pub failures : ℕ
  pub prior_alpha : F
  pub prior_beta : F
  pub last_updated : F
  pub effective_successes : F
  pub effective_failures : F
  pub decay_rate : F
  pub decay_interval : F

-- The four buckets.
pub data Kind : Type 0 where
  provider account selector action : Kind

-- `_bucket`: any other text is a KeyError.
unfoldable pub bucket_of : String → Option Kind
bucket_of kind =
    if str_eq kind "provider"
    then some provider
    else if str_eq kind "account"
    then some account
    else if str_eq kind "selector"
    then some selector
    else if str_eq kind "action"
    then some action
    else none

pub record Targets (F : Type 0) : Type 0 where
  pub providers : Dict (BayesianReliability F)
  pub accounts : Dict (BayesianReliability F)
  pub selectors : Dict (BayesianReliability F)
  pub actions : Dict (BayesianReliability F)

abbrev pub no_targets : {F : Type 0} → Targets F
no_targets = record { providers = []; accounts = []; selectors = []; actions = [] }

abbrev pub bucket : {F : Type 0} → Kind → Targets F → Dict (BayesianReliability F)
bucket provider t = t.providers
bucket account t = t.accounts
bucket selector t = t.selectors
bucket action t = t.actions

abbrev pub set_bucket : {F : Type 0} → Kind → Dict (BayesianReliability F) → Targets F → Targets F
set_bucket provider d t = record t { providers = d }
set_bucket account d t = record t { accounts = d }
set_bucket selector d t = record t { selectors = d }
set_bucket action d t = record t { actions = d }

pub record Store (F : Type 0) : Type 0 where
  pub prior_alpha : F
  pub prior_beta : F
  pub targets : Targets F

abbrev pub reset : {F : Type 0} → Store F → Store F
reset s = record s { targets = no_targets }

module _ {F : Type 0} ⦃o : Number F⦄ where
  abbrev zero_number : F
  zero_number = o.of 0 1

  -- x <= 0
  abbrev is_not_positive : F → Bool
  is_not_positive x = not (o.less zero_number x)

  abbrev pub count_outcome : Bool → BayesianReliability F → BayesianReliability F
  count_outcome true r = record r {
    successes = r.successes + 1;
    effective_successes = o.add r.effective_successes (o.of 1 1);
  }
  count_outcome false r = record r {
    failures = r.failures + 1;
    effective_failures = o.add r.effective_failures (o.of 1 1);
  }

  unfoldable pub configure_decay : F → F → BayesianReliability F → BayesianReliability F
  configure_decay rate interval r = record r {
    decay_rate = rate;
    decay_interval = interval;
    effective_successes = o.of r.successes 1;
    effective_failures = o.of r.failures 1;
  }

  unfoldable pub alpha : BayesianReliability F → F
  alpha r =
      o.add r.prior_alpha
        (if o.less zero_number r.decay_rate then r.effective_successes else o.of r.successes 1)

  unfoldable pub beta_param : BayesianReliability F → F
  beta_param r =
      o.add r.prior_beta
        (if o.less zero_number r.decay_rate then r.effective_failures else o.of r.failures 1)

  unfoldable pub posterior_mean : BayesianReliability F → F
  unfolding alpha beta_param
  posterior_mean r = beta_mean (alpha r) (beta_param r)

  unfoldable pub total_observations : BayesianReliability F → ℕ
  total_observations r = r.successes + r.failures

  -- `BayesianReliability(key=…, prior_alpha=…, prior_beta=…)`
  unfoldable pub new_reliability : F → String → F → F → BayesianReliability F
  new_reliability now k a b = record {
    key = k;
    successes = 0;
    failures = 0;
    prior_alpha = a;
    prior_beta = b;
    last_updated = now;
    effective_successes = zero_number;
    effective_failures = zero_number;
    decay_rate = zero_number;
    decay_interval = o.of 3600 1;
  }

  abbrev pub make_missing :
      F
      → String
      → Store F
      → Dict (BayesianReliability F)
      → Option (BayesianReliability F)
      → BayesianReliability F × Dict (BayesianReliability F)
  make_missing now k s d (some r) = (r, d)
  make_missing now k s d none =
      let r = new_reliability now k s.prior_alpha s.prior_beta in (r, put k r d)

  -- `ProviderReliabilityStore.get` in a bucket.
  abbrev pub get_in :
      F
      → String
      → Store F
      → Dict (BayesianReliability F)
      → BayesianReliability F × Dict (BayesianReliability F)
  get_in now k s d = make_missing now k s d (get k d)

  unfoldable pub get_reliability : F → Kind → String → Store F → BayesianReliability F × Store F
  unfolding get put new_reliability
  get_reliability now kind k s =
      let (r, d) = get_in now k s (bucket kind s.targets) in
      (r, record s { targets = set_bucket kind d s.targets })

module _ {F : Type 0} ⦃o : Number F⦄ (exp : F → F) where
  -- exp(-rate * periods)
  abbrev factor_of : F → F → F → F
  factor_of rate elapsed interval =
      exp (o.multiply (o.subtract zero_number rate) (o.divide elapsed interval))

  abbrev decayed : F → BayesianReliability F → BayesianReliability F
  decayed elapsed r =
      let factor = factor_of r.decay_rate elapsed r.decay_interval in
      if o.less elapsed r.decay_interval then r else record r {
        effective_successes = o.multiply r.effective_successes factor;
        effective_failures = o.multiply r.effective_failures factor;
      }

  -- `_apply_decay_if_stale`
  unfoldable pub apply_decay_if_stale : F → BayesianReliability F → BayesianReliability F
  unfolding greatest
  apply_decay_if_stale now r =
      if is_not_positive r.decay_rate
      then r
      else if is_not_positive r.effective_successes && is_not_positive r.effective_failures
      then record r {
        effective_successes = o.of r.successes 1;
        effective_failures = o.of r.failures 1;
      }
      else decayed (greatest zero_number (o.subtract now r.last_updated)) r

  unfoldable pub update : F → Bool → BayesianReliability F → BayesianReliability F
  unfolding apply_decay_if_stale
  update now success r = record (count_outcome success (apply_decay_if_stale now r)) {
    last_updated = now;
  }

  -- `apply_decay`, by hand: the time of the last update stays.
  abbrev pub apply_decay : F → BayesianReliability F → BayesianReliability F
  apply_decay = apply_decay_if_stale

  -- The clock is read anew for every outcome.
  unfoldable pub update_many : List (F × Bool) → BayesianReliability F → BayesianReliability F
  unfolding update
  update_many [] r = r
  update_many ((now, success) ∷ rest) r = update_many rest (update now success r)

  -- `record`: the object in the bucket is the one that is updated.
  unfoldable pub record_outcome : F → Kind → String → Bool → Store F → Store F
  unfolding get_reliability update put
  record_outcome now kind k success s =
      let (r, s') = get_reliability now kind k s in
      let d = put k (update now success r) (bucket kind s'.targets) in
      record s' { targets = set_bucket kind d s'.targets }
