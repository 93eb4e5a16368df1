-- ===== src/Intelligence/Learning/Histories.antt =====
-- What a store knows after any calls.
use chat_to_agent.Base.{
  if◌then◌else◌, Bool-cases, ℕ, ◌+◌, String, ◌≡◌, refl, ap, ◌∙◌, inl, inr, Bool, true, false, ◌&&◌,
  Option, none, some, List, [], ◌∷◌, arith, str_eq, eq_iff,
}
use chat_to_agent.Base.Dict.{Dict, get, put, get-put}
use chat_to_agent.Base.Members.{IsKeyed, put-IsKeyed, key-get}
use chat_to_agent.Base.Number.{Number}
use chat_to_agent.Intelligence.Learning.{
  BayesianReliability, Kind, provider, account, selector, action, Targets, bucket, set_bucket,
  Store, apply_decay_if_stale, update, new_reliability, get_in, make_missing, get_reliability,
  record_outcome, reset,
}

-- A call of a store: `get`, `record` or `reset`.
pub data Call (F : Type 0) : Type 0 where
  gets : F → Kind → String → Call F
  records : F → Kind → String → Bool → Call F
  resets : Call F

abbrev pub same_kind : Kind → Kind → Bool
same_kind provider provider = true
same_kind account account = true
same_kind selector selector = true
same_kind action action = true
same_kind _ _ = false

module _ {F : Type 0} where
  pub bucket-set_bucket :
      (i j : Kind) (d : Dict (BayesianReliability F)) (t : Targets F)
      → bucket j (set_bucket i d t) ≡ (if same_kind i j then d else bucket j t)
  bucket-set_bucket provider provider d t = refl
  bucket-set_bucket provider account d t = refl
  bucket-set_bucket provider selector d t = refl
  bucket-set_bucket provider action d t = refl
  bucket-set_bucket account provider d t = refl
  bucket-set_bucket account account d t = refl
  bucket-set_bucket account selector d t = refl
  bucket-set_bucket account action d t = refl
  bucket-set_bucket selector provider d t = refl
  bucket-set_bucket selector account d t = refl
  bucket-set_bucket selector selector d t = refl
  bucket-set_bucket selector action d t = refl
  bucket-set_bucket action provider d t = refl
  bucket-set_bucket action account d t = refl
  bucket-set_bucket action selector d t = refl
  bucket-set_bucket action action d t = refl

same_kind_lem : (i j : Kind) → same_kind i j ≡ true → i ≡ j
same_kind_lem provider provider e = refl
same_kind_lem provider account e = cc
same_kind_lem provider selector e = cc
same_kind_lem provider action e = cc
same_kind_lem account provider e = cc
same_kind_lem account account e = refl
same_kind_lem account selector e = cc
same_kind_lem account action e = cc
same_kind_lem selector provider e = cc
same_kind_lem selector account e = cc
same_kind_lem selector selector e = refl
same_kind_lem selector action e = cc
same_kind_lem action provider e = cc
same_kind_lem action account e = cc
same_kind_lem action selector e = cc
same_kind_lem action action e = refl

-- How many successes and failures were recorded of a target since the last reset, after so many.
abbrev pub tally_step : {F : Type 0} → Kind → String → Call F → ℕ × ℕ → ℕ × ℕ
tally_step kind k (gets now i j) n = n
tally_step kind k resets n = (0, 0)
tally_step kind k (records now i j success) (s, f) =
    if same_kind i kind && str_eq j k then (if success then (s + 1, f) else (s, f + 1)) else (s, f)

abbrev pub tally : {F : Type 0} → Kind → String → List (Call F) → ℕ × ℕ → ℕ × ℕ
tally kind k [] n = n
tally kind k (c ∷ cs) n = tally kind k cs (tally_step kind k c n)

module _ {F : Type 0} ⦃o : Number F⦄ (exp : F → F) where
  abbrev pub step : Call F → Store F → Store F
  step (gets now i j) s = (get_reliability now i j s).1
  step (records now i j success) s = record_outcome exp now i j success s
  step resets s = reset s

  unfoldable pub run : List (Call F) → Store F → Store F
  run [] s = s
  run (c ∷ cs) s = run cs (step c s)

  -- The counters of a target, 0 for one without an entry.
  abbrev counts_of : Option (BayesianReliability F) → ℕ × ℕ
  counts_of none = (0, 0)
  counts_of (some r) = (r.successes, r.failures)

  abbrev pub counts : Kind → String → Store F → ℕ × ℕ
  counts kind k s = counts_of (get k (bucket kind s.targets))

  apply_decay-counts :
      (now : F) (r : BayesianReliability F)
      → ((apply_decay_if_stale exp now r).successes ≡ r.successes)
        × ((apply_decay_if_stale exp now r).failures ≡ r.failures)
        × ((apply_decay_if_stale exp now r).key ≡ r.key)
  unfolding apply_decay_if_stale
  apply_decay-counts now r = ground arith

  module _ (now : F) (j : String) (s : Store F) where
    -- The object that `get` gives, and the bucket after it.
    abbrev current : Dict (BayesianReliability F) → BayesianReliability F
    current d = (get_in now j s d).0

    make_missing-bucket :
        (k : String) (d : Dict (BayesianReliability F)) (found : Option (BayesianReliability F))
        → get j d ≡ found
        → get k (make_missing now j s d found).1
          ≡ (if str_eq j k then some (make_missing now j s d found).0 else get k d)
    make_missing-bucket k d none e =
        get-put j k (new_reliability now j s.prior_alpha s.prior_beta) d
    make_missing-bucket k d (some r) e = ground (arith, eq_iff j k)

    get_in-bucket :
        (k : String) (d : Dict (BayesianReliability F))
        → get k (get_in now j s d).1 ≡ (if str_eq j k then some (current d) else get k d)
    get_in-bucket k d = make_missing-bucket k d (get j d) refl

    make_missing-counts :
        (d : Dict (BayesianReliability F)) (found : Option (BayesianReliability F))
        → counts_of (some (make_missing now j s d found).0) ≡ counts_of found
    unfolding new_reliability
    make_missing-counts d none = refl
    make_missing-counts d (some r) = refl

    current-counts :
        (d : Dict (BayesianReliability F)) → counts_of (some (current d)) ≡ counts_of (get j d)
    current-counts d = make_missing-counts d (get j d)

    make_missing-key :
        (d : Dict (BayesianReliability F)) (found : Option (BayesianReliability F))
        → IsKeyed (λ r. r.key) d
        → get j d ≡ found
        → ((make_missing now j s d found).0.key ≡ j)
          × IsKeyed (λ r. r.key) (make_missing now j s d found).1
    unfolding new_reliability
    make_missing-key d none h e = (
      refl,
      put-IsKeyed (λ r. r.key) j (new_reliability now j s.prior_alpha s.prior_beta) d h refl,
    )
    make_missing-key d (some r) h e = (key-get (λ r. r.key) j r d h e, h)

    pub current-key :
        (d : Dict (BayesianReliability F))
        → IsKeyed (λ r. r.key) d
        → ((current d).key ≡ j) × IsKeyed (λ r. r.key) (get_in now j s d).1
    current-key d h = make_missing-key d (get j d) h refl

  abbrev bumped : Bool → ℕ × ℕ → ℕ × ℕ
  bumped success n = if success then (n.0 + 1, n.1) else (n.0, n.1 + 1)

  update-counts :
      (now : F) (success : Bool) (r : BayesianReliability F)
      → counts_of (some (update exp now success r))
        ≡ (if success then (r.successes + 1, r.failures) else (r.successes, r.failures + 1))
  unfolding update
  update-counts now true r = let h = apply_decay-counts now r in rw (h.0, h.1) refl
  update-counts now false r = let h = apply_decay-counts now r in rw (h.0, h.1) refl

  pub update-key :
      (now : F) (success : Bool) (r : BayesianReliability F)
      → (update exp now success r).key ≡ r.key
  unfolding update
  update-key now true r = (apply_decay-counts now r).2
  update-key now false r = (apply_decay-counts now r).2

  gets-counts :
      (now : F) (i kind : Kind) (j k : String) (s : Store F)
      → counts kind k (get_reliability now i j s).1 ≡ counts kind k s
  unfolding get_reliability
  gets-counts now i kind j k s =
      let d = bucket i s.targets in
      ground (
        arith,
        bucket-set_bucket i kind (get_in now j s d).1 s.targets,
        get_in-bucket now j s k d,
        current-counts now j s d,
        same_kind_lem i kind,
        eq_iff j k,
      )

  pub set_twice :
      (i : Kind) (d e : Dict (BayesianReliability F)) (t : Targets F)
      → (bucket i (set_bucket i d t) ≡ d) × (set_bucket i e (set_bucket i d t) ≡ set_bucket i e t)
  set_twice provider d e t = (refl, refl)
  set_twice account d e t = (refl, refl)
  set_twice selector d e t = (refl, refl)
  set_twice action d e t = (refl, refl)

  records-counts :
      (now : F) (i kind : Kind) (j k : String) (success : Bool) (s : Store F)
      → counts kind k (record_outcome exp now i j success s)
        ≡ tally_step kind k (records now i j success) (counts kind k s)
  unfolding record_outcome get_reliability
  records-counts now i kind j k success s =
      let d = bucket i s.targets in
      let (r, d') = get_in now j s d in
      let r' = update exp now success r in
      let e = put j r' d' in
      rw
        (
          (set_twice i d' e s.targets).0,
          (set_twice i d' e s.targets).1,
          bucket-set_bucket i kind e s.targets,
        )
        (elim (Bool-cases (same_kind i kind)) [
          | inr f ↦ rw f refl
          | inl f ↦ elim (Bool-cases (str_eq j k)) [
            | inr g ↦
                rw (f, get-put j k r' d', g, get_in-bucket now j s k d, g)
                  (ap (λ z. counts z k s) (same_kind_lem i kind f))
            | inl g ↦
                rw (f, get-put j k r' d', g)
                  (update-counts now success r
                    ∙ ap (bumped success) (
                        current-counts now j s d
                        ∙ ap (λ z. counts_of (get z d)) ((eq_iff j k).0 g)
                        ∙ ap (λ z. counts z k s) (same_kind_lem i kind f)))
          ]
        ])

  step-counts :
      (kind : Kind) (k : String) (c : Call F) (s : Store F)
      → counts kind k (step c s) ≡ tally_step kind k c (counts kind k s)
  unfolding get
  step-counts kind k (gets now i j) s = gets-counts now i kind j k s
  step-counts kind k (records now i j success) s = records-counts now i kind j k success s
  step-counts provider k resets s = refl
  step-counts account k resets s = refl
  step-counts selector k resets s = refl
  step-counts action k resets s = refl

  -- After any calls of a store, whatever the decay that is set, the successes and failures counted for
  -- each target of each kind are those that it had, and those recorded for it by the calls; only those
  -- recorded after the last reset, if there was one.
  pub run-tally :
      (kind : Kind) (k : String) (cs : List (Call F)) (s : Store F)
      → counts kind k (run cs s) ≡ tally kind k cs (counts kind k s)
  unfolding run
  run-tally kind k [] s = refl
  run-tally kind k (c ∷ cs) s =
      run-tally kind k cs (step c s) ∙ ap (tally kind k cs) (step-counts kind k c s)
