-- ===== src/Intelligence/Learning/Saving/Reopening.antt =====
-- What was learnt is there again after a restart.
use chat_to_agent.Base.{
  String, ◌≡◌, refl, sym, ap, ◌∙◌, ◌≢◌, none, some, List, [], ◌∷◌, ◌++◌, arith, eq_iff,
  if◌then◌else◌, str_eq, Bool-cases, inl, inr,
}
use mathlib.Core.List.{append-nil, append_assoc}
use chat_to_agent.Base.Dict.{Dict, get, put}
use chat_to_agent.Base.Members.{IsKeyed}
use chat_to_agent.Base.Sorted.{str_less, insert_sorted, sorted, insert_item, sort_items, keys}
use chat_to_agent.Base.Exec.{returned}
use chat_to_agent.Base.Number.{Number}
use chat_to_agent.Intelligence.Learning.{
  BayesianReliability, Kind, provider, account, selector, action, Targets, no_targets, bucket,
  Store,
}
use chat_to_agent.Intelligence.Learning.Histories.{Call, run}
use chat_to_agent.Intelligence.Learning.Filed.{run-IsFiled, nothing-IsFiled}
use chat_to_agent.Intelligence.Learning.Saving.{
  serialize, serialize_all, to_dict, save, deserialize, load_bucket, from_dict, open_store,
}

module _ {F : Type 0} ⦃o : Number F⦄ (now : F) where
  abbrev IsOwn : Dict (BayesianReliability F) → Type 0
  IsOwn = IsKeyed (λ r. r.key)

  deserialize-serialize :
      (k : String) (r : BayesianReliability F) → r.key ≡ k → deserialize now k (serialize r) ≡ r
  unfolding deserialize serialize
  deserialize-serialize k r e = rw (← e) refl

  put-new :
      (k : String) (r : BayesianReliability F) (d : Dict (BayesianReliability F))
      → get k d ≡ none
      → put k r d ≡ d ++ ((k, r) ∷ [])
  unfolding put get
  put-new k r [] h = refl
  put-new k r ((j, w) ∷ d) h = ground (arith, put-new k r d)

  get-there :
      (k : String) (r : BayesianReliability F) (d e : Dict (BayesianReliability F))
      → get k (d ++ ((k, r) ∷ e)) ≢ none
  unfolding get
  get-there k r [] e h = ground (arith, eq_iff k k)
  get-there k r ((j, w) ∷ d) e h = ground (arith, get-there k r d e)

  get-front :
      (k : String) (r : BayesianReliability F) (d e : Dict (BayesianReliability F))
      → IsOwn (d ++ ((k, r) ∷ e))
      → (get k d ≡ none) × (r.key ≡ k)
  unfolding get
  get-front k r [] e h = (refl, h.0)
  get-front k r ((j, w) ∷ d) e h =
      ground (arith, get-front k r d e h.2, get-there k r d e, eq_iff j k, h.1)

  load_bucket-serialize_all :
      (d out : Dict (BayesianReliability F))
      → IsOwn (out ++ d)
      → load_bucket now (serialize_all d) out ≡ out ++ d
  unfolding load_bucket
  load_bucket-serialize_all [] out h = sym (append-nil out)
  load_bucket-serialize_all ((k, r) ∷ d) out h =
      let (fresh, named) = get-front k r out d h in
      let joined : out ++ ((k, r) ∷ []) ++ d ≡ out ++ ((k, r) ∷ d) =
        append_assoc out ((k, r) ∷ []) d in
      ap (λ x. load_bucket now (serialize_all d) (put k x out)) (deserialize-serialize k r named)
      ∙ ap (load_bucket now (serialize_all d)) (put-new k r out fresh)
      ∙ load_bucket-serialize_all d (out ++ ((k, r) ∷ [])) (rw joined h)
      ∙ joined

-- Sorting a dictionary by its keys.
module _ {V : Type 0} where
  keys-insert_item :
      (k : String) (v : V) (d : Dict V) → keys (insert_item k v d) ≡ insert_sorted k (keys d)
  unfolding insert_item insert_sorted
  keys-insert_item k v [] = refl
  keys-insert_item k v ((j, w) ∷ d) = elim (Bool-cases (str_less j k)) [
    | inl e ↦ rw e (ap (λ ks. j ∷ ks) (keys-insert_item k v d))
    | inr e ↦ rw e refl
  ]

  keys-sort_items : (d : Dict V) → keys (sort_items d) ≡ sorted (keys d)
  unfolding sort_items sorted
  keys-sort_items [] = refl
  keys-sort_items ((k, v) ∷ d) =
      keys-insert_item k v (sort_items d) ∙ ap (insert_sorted k) (keys-sort_items d)

  get-insert_item :
      (i k : String) (v : V) (d : Dict V)
      → get k d ≡ none
      → get i (insert_item k v d) ≡ (if str_eq k i then some v else get i d)
  unfolding insert_item get
  get-insert_item i k v [] h = refl
  get-insert_item i k v ((j, w) ∷ d) h =
      ground (arith, h, get-insert_item i k v d, eq_iff k i, eq_iff j i, eq_iff j k)

module _ {V : Type 0} (key : V → String) where
  insert_item-IsKeyed :
      (k : String) (v : V) (d : Dict V)
      → key v ≡ k
      → get k d ≡ none
      → IsKeyed key d
      → IsKeyed key (insert_item k v d)
  unfolding insert_item get
  insert_item-IsKeyed k v [] e n h = (e, refl, tt)
  insert_item-IsKeyed k v ((j, w) ∷ d) e n h = elim (Bool-cases (str_less j k)) [
    | inl less ↦ rw less (
      h.0,
      ground (arith, n, h.1, get-insert_item j k v d, eq_iff k j, eq_iff j k),
      insert_item-IsKeyed k v d e (ground (arith, n)) h.2,
    )
    | inr not_less ↦ rw not_less (e, n, h)
  ]

  sort_items-IsKeyed :
      (d : Dict V)
      → IsKeyed key d
      → IsKeyed key (sort_items d) × ((k : String) → get k (sort_items d) ≡ get k d)
  unfolding sort_items get
  sort_items-IsKeyed [] h = (tt, λ k. refl)
  sort_items-IsKeyed ((k, v) ∷ d) h =
      let (keyed, same) = sort_items-IsKeyed d h.2 in
      let fresh : get k (sort_items d) ≡ none = same k ∙ h.1 in
      (
        insert_item-IsKeyed k v (sort_items d) h.0 fresh keyed,
        λ i. ground (arith, get-insert_item i k v (sort_items d) fresh, same i),
      )

module _ {F : Type 0} where
  insert_item-serialize :
      (k : String) (r : BayesianReliability F) (d : Dict (BayesianReliability F))
      → insert_item k (serialize r) (serialize_all d) ≡ serialize_all (insert_item k r d)
  unfolding insert_item
  insert_item-serialize k r [] = refl
  insert_item-serialize k r ((j, w) ∷ d) = elim (Bool-cases (str_less j k)) [
    | inl e ↦ rw e (ap (λ x. (j, serialize w) ∷ x) (insert_item-serialize k r d))
    | inr e ↦ rw e refl
  ]

  sort_items-serialize_all :
      (d : Dict (BayesianReliability F))
      → sort_items (serialize_all d) ≡ serialize_all (sort_items d)
  unfolding sort_items
  sort_items-serialize_all [] = refl
  sort_items-serialize_all ((k, r) ∷ d) =
      ap (insert_item k (serialize r)) (sort_items-serialize_all d)
      ∙ insert_item-serialize k r (sort_items d)

  -- The second dictionary has the entries of the first, in the order of their keys.
  abbrev pub IsSorted : Dict (BayesianReliability F) → Dict (BayesianReliability F) → Type 0
  IsSorted d e = (keys e ≡ sorted (keys d)) × ((k : String) → get k e ≡ get k d)

module _ {F : Type 0} ⦃o : Number F⦄ (now : F) where
  load_bucket-IsSorted :
      (d : Dict (BayesianReliability F))
      → IsKeyed (λ r. r.key) d
      → IsSorted d (load_bucket now (sort_items (serialize_all d)) [])
  load_bucket-IsSorted d h =
      let (keyed, same) = sort_items-IsKeyed (λ r. r.key) d h in
      rw (sort_items-serialize_all d)
        (rw (load_bucket-serialize_all now (sort_items d) [] keyed) (keys-sort_items d, same))

  open_store-IsSorted :
      (t : Targets F) (c d : F)
      → ((kind : Kind) → IsKeyed (λ r. r.key) (bucket kind t))
      → (kind : Kind)
      → IsSorted
          (bucket kind t)
          (bucket kind (open_store now c d (some (returned (save t)))).targets)
  unfolding open_store from_dict save to_dict
  open_store-IsSorted t c d h provider = load_bucket-IsSorted t.providers (h provider)
  open_store-IsSorted t c d h account = load_bucket-IsSorted t.accounts (h account)
  open_store-IsSorted t c d h selector = load_bucket-IsSorted t.selectors (h selector)
  open_store-IsSorted t c d h action = load_bucket-IsSorted t.actions (h action)

module _ {F : Type 0} ⦃o : Number F⦄ (exp : F → F) where
  -- A store without entries that has seen any calls, and whose file is written and read without an
  -- error, has the same entries of every kind when it is opened again, at any time and with any
  -- priors; they stand in the order of their keys.
  pub open_store-save :
      (cs : List (Call F)) (a b c d now : F) (kind : Kind)
      → let s = run exp cs (record { prior_alpha = a; prior_beta = b; targets = no_targets }) in
        IsSorted
          (bucket kind s.targets)
          (bucket kind (open_store now c d (some (returned (save s.targets)))).targets)
  open_store-save cs a b c d now kind =
      let s : Store F = record { prior_alpha = a; prior_beta = b; targets = no_targets } in
      open_store-IsSorted now (run exp cs s).targets c d
        (run-IsFiled exp cs s (nothing-IsFiled exp)) kind
