-- ===== src/Intelligence/Learning/Saving.antt =====
-- A store that is saved and opened again.
pub mod Reopening
use chat_to_agent.Base.{truthy, ℕ, String, Option, none, some, [], ◌∷◌, map}
use chat_to_agent.Base.Dict.{Dict, get, put}
use chat_to_agent.Base.Sorted.{sort_items}
use chat_to_agent.Base.Exec.{Outcome, returned, raised}
use chat_to_agent.Base.Number.{Number}
use chat_to_agent.Intelligence.Learning.{BayesianReliability, Targets, no_targets, Store}

-- An entry of the file, each of its fields none where it is missing.
pub record Saved (F : Type 0) : Type 0 where
  pub successes : Option ℕ
  pub failures : Option ℕ
  pub prior_alpha : Option F
  pub prior_beta : Option F
  pub last_updated : Option F
  pub effective_successes : Option F
  pub effective_failures : Option F
  pub decay_rate : Option F
  pub decay_interval : Option F

pub record SavedTargets (F : Type 0) : Type 0 where
  pub providers : Option (Dict (Saved F))
  pub accounts : Option (Dict (Saved F))
  pub selectors : Option (Dict (Saved F))
  pub actions : Option (Dict (Saved F))

module _ {F : Type 0} where
  unfoldable pub serialize : BayesianReliability F → Saved F
  serialize r = record {
    successes = some r.successes;
    failures = some r.failures;
    prior_alpha = some r.prior_alpha;
    prior_beta = some r.prior_beta;
    last_updated = some r.last_updated;
    effective_successes = some r.effective_successes;
    effective_failures = some r.effective_failures;
    decay_rate = some r.decay_rate;
    decay_interval = some r.decay_interval;
  }

  abbrev pub serialize_all : Dict (BayesianReliability F) → Dict (Saved F)
  serialize_all = map (λ e. (e.0, serialize e.1))

  -- `_Targets.to_dict`
  unfoldable pub to_dict : Targets F → SavedTargets F
  unfolding serialize
  to_dict t = record {
    providers = some (serialize_all t.providers);
    accounts = some (serialize_all t.accounts);
    selectors = some (serialize_all t.selectors);
    actions = some (serialize_all t.actions);
  }

  abbrev sort_all : Option (Dict (Saved F)) → Option (Dict (Saved F))
  sort_all none = none
  sort_all (some d) = some (sort_items d)

  -- What `save` writes: json.dumps with sort_keys. The keys within an entry are not kept in an order
  -- here.
  unfoldable pub save : Targets F → SavedTargets F
  unfolding to_dict sort_items
  save t =
      let d = to_dict t in
      record {
        providers = sort_all d.providers;
        accounts = sort_all d.accounts;
        selectors = sort_all d.selectors;
        actions = sort_all d.actions;
      }

module _ {F : Type 0} ⦃o : Number F⦄ (now : F) where
  -- `_deserialize`
  unfoldable pub deserialize : String → Saved F → BayesianReliability F
  deserialize k d = record {
    key = k;
    successes = truthy d.successes 0;
    failures = truthy d.failures 0;
    prior_alpha = truthy d.prior_alpha (o.of 1 1);
    prior_beta = truthy d.prior_beta (o.of 1 1);
    last_updated = truthy d.last_updated now;
    effective_successes = truthy d.effective_successes (o.of 0 1);
    effective_failures = truthy d.effective_failures (o.of 0 1);
    decay_rate = truthy d.decay_rate (o.of 0 1);
    decay_interval = truthy d.decay_interval (o.of 0 1);
  }

  -- out[k] = _deserialize(k, v), for every entry.
  unfoldable pub load_bucket :
      Dict (Saved F) → Dict (BayesianReliability F) → Dict (BayesianReliability F)
  unfolding deserialize put
  load_bucket [] out = out
  load_bucket ((k, v) ∷ raw) out = load_bucket raw (put k (deserialize k v) out)

  -- `_Targets.from_dict`
  unfoldable pub from_dict : SavedTargets F → Targets F
  unfolding load_bucket
  from_dict raw = record {
    providers = load_bucket (truthy raw.providers []) [];
    accounts = load_bucket (truthy raw.accounts []) [];
    selectors = load_bucket (truthy raw.selectors []) [];
    actions = load_bucket (truthy raw.actions []) [];
  }

  abbrev load : Option (Outcome String (SavedTargets F)) → Targets F
  load none = no_targets
  load (some (raised e)) = no_targets
  load (some (returned raw)) = from_dict raw

  -- `ProviderReliabilityStore(path, prior_alpha, prior_beta)`: what reading the file gives, none where
  -- there is no path or no file.
  unfoldable pub open_store : F → F → Option (Outcome String (SavedTargets F)) → Store F
  unfolding from_dict
  open_store a b saved = record { prior_alpha = a; prior_beta = b; targets = load saved }
