-- ===== src/Intelligence/Learning/Filed.antt =====
-- Every object of a store is filed under its own key.
use chat_to_agent.Base.{Bool-cases, String, ◌∙◌, inl, inr, List, [], ◌∷◌}
use chat_to_agent.Base.Dict.{put}
use chat_to_agent.Base.Members.{IsKeyed, put-IsKeyed}
use chat_to_agent.Base.Number.{Number}
use chat_to_agent.Intelligence.Learning.{
  BayesianReliability, Kind, provider, account, selector, action, no_targets, bucket, Store, update,
  get_in, get_reliability, record_outcome,
}
use chat_to_agent.Intelligence.Learning.Histories.{
  Call, gets, records, resets, same_kind, bucket-set_bucket, step, run, current-key, set_twice,
  update-key,
}

module _ {F : Type 0} ⦃o : Number F⦄ (exp : F → F) where
  -- Every object is filed once, under its own key.
  abbrev pub IsFiled : Store F → Type 0
  IsFiled s = (kind : Kind) → IsKeyed (λ r. r.key) (bucket kind s.targets)

  gets-IsFiled :
      (now : F) (i : Kind) (j : String) (s : Store F)
      → IsFiled s
      → IsFiled (get_reliability now i j s).1
  unfolding get_reliability
  gets-IsFiled now i j s h kind =
      let d = (get_in now j s (bucket i s.targets)).1 in
      rw (bucket-set_bucket i kind d s.targets) (elim (Bool-cases (same_kind i kind)) [
        | inl e ↦ rw e (current-key exp now j s (bucket i s.targets) (h i)).1
        | inr e ↦ rw e (h kind)
      ])

  pub nothing-IsFiled :
      (kind : Kind) → IsKeyed (λ (r : BayesianReliability F). r.key) (bucket kind no_targets)
  nothing-IsFiled provider = tt
  nothing-IsFiled account = tt
  nothing-IsFiled selector = tt
  nothing-IsFiled action = tt

  step-IsFiled : (c : Call F) (s : Store F) → IsFiled s → IsFiled (step exp c s)
  unfolding record_outcome get_reliability
  step-IsFiled (gets now i j) s h = gets-IsFiled now i j s h
  step-IsFiled resets s h = nothing-IsFiled
  step-IsFiled (records now i j success) s h = λ kind.
      let (r, d) = get_in now j s (bucket i s.targets) in
      let r' = update exp now success r in
      let e = put j r' d in
      let held = current-key exp now j s (bucket i s.targets) (h i) in
      rw
        (
          (set_twice exp i d e s.targets).0,
          (set_twice exp i d e s.targets).1,
          bucket-set_bucket i kind e s.targets,
        )
        (elim (Bool-cases (same_kind i kind)) [
          | inl f ↦
              rw f (put-IsKeyed (λ r. r.key) j r' d held.1 (update-key exp now success r ∙ held.0))
          | inr f ↦ rw f (h kind)
        ])

  pub run-IsFiled : (cs : List (Call F)) (s : Store F) → IsFiled s → IsFiled (run exp cs s)
  unfolding run
  run-IsFiled [] s h = h
  run-IsFiled (c ∷ cs) s h = run-IsFiled cs (step exp c s) (step-IsFiled c s h)
