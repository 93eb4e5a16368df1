-- ===== src/Orchestrator/Router/Pool.antt =====
-- The choice of a provider from a pool, and what the scores of accounts are.
use chat_to_agent.Base.{
  if◌then◌else◌, Option-cases, ◌<◌, String, ◌≡◌, refl, sym, ap, ◌∙◌, ◌≢◌, ◌⊎◌, inl, inr, Bool, true,
  false, none, some, List, [], ◌∷◌, arith,
}
use chat_to_agent.Base.Dict.{Dict}
use chat_to_agent.Base.Members.{Has}
use chat_to_agent.Base.Number.{Number, greatest}
use chat_to_agent.Models.Account.{Account}
use chat_to_agent.Models.Capabilities.{TaskRequirements, provider_profiles}
use chat_to_agent.Orchestrator.Router.{
  Weights, Best, zero_score, whole, score_account, consider, consider_all, select_provider,
  find_profile, compute_capability_score, compute_penalties,
}
use chat_to_agent.Orchestrator.Router.Ranking.{
  max_account, score_of, select_account_lem, max_account-Has, max_account-highest,
}

module _ {F : Type 0} ⦃o : Number F⦄ (w : Weights F) (r : TaskRequirements F) where
  consider-nil : (p : String) (b : Best F) → consider w r p [] b ≡ b
  unfolding consider
  consider-nil p b = refl

  abbrev chosen : String → Account → Best F
  chosen p a = record { choice = some (p, a); best_score = score_of w r a }

  abbrev improved : String → Account → Best F → Best F
  improved p a b = if o.less b.best_score (score_of w r a) then chosen p a else b

  consider-cons :
      (p : String) (a : Account) (rest : List Account) (b : Best F)
      → consider w r p (a ∷ rest) b ≡ improved p (max_account w r a rest) b
  unfolding consider
  consider-cons p a rest b = ground (arith, select_account_lem w r a rest)

  -- What one provider changes: nothing, or the best is now its best account.
  abbrev Considered : String → List Account → Best F → Best F → Type 0
  Considered p accounts b b' =
      ((x : Account) → Has x accounts → o.less b'.best_score (score_of w r x) ≡ false)
      × (o.less b'.best_score b.best_score ≡ false)
      × ((b' ≡ b) ⊎ ((a : Account) × Has a accounts × (b' ≡ chosen p a)))

  improved-Considered :
      (p : String) (m : Account) (accounts : List Account) (b : Best F)
      → Has m accounts
      → ((x : Account) → Has x accounts → o.less (score_of w r m) (score_of w r x) ≡ false)
      → Considered p accounts b (improved p m b)
  improved-Considered p m accounts b i h = go (o.less b.best_score (score_of w r m)) refl
    where
      go :
          (t : Bool)
          → o.less b.best_score (score_of w r m) ≡ t
          → Considered p accounts b (if t then chosen p m else b)
      go true e = (
        h,
        ground (
          arith,
          e,
          o.irreflexive b.best_score,
          o.transitive b.best_score (score_of w r m) b.best_score,
        ),
        inr (m, i, refl),
      )
      go false e = (
        (λ x g.
            ground
              (arith, e, h x g, o.cotransitive b.best_score (score_of w r m) (score_of w r x))),
        o.irreflexive b.best_score,
        inl refl,
      )

  consider-Considered :
      (p : String) (accounts : List Account) (b : Best F)
      → Considered p accounts b (consider w r p accounts b)
  consider-Considered p [] b =
      rw (consider-nil p b) ((λ x h. absurd h), o.irreflexive b.best_score, inl refl)
  consider-Considered p (a ∷ rest) b = rw (consider-cons p a rest b) (
      improved-Considered p (max_account w r a rest) (a ∷ rest) b (max_account-Has w r a rest)
        (λ x h. max_account-highest w r a x rest h))

  abbrev ChosenFrom : Dict (List Account) → Best F → Best F → Type 0
  ChosenFrom pool b b' =
      (b' ≡ b)
      ⊎ ((p : String) × (accounts : List Account) × (a : Account) × Has (p, accounts) pool
          × Has a accounts
          × (b' ≡ chosen p a))

  consider_all-chosen :
      (pool : Dict (List Account)) (b : Best F) → ChosenFrom pool b (consider_all w r pool b)
  unfolding consider_all
  consider_all-chosen [] b = inl refl
  consider_all-chosen ((p, accounts) ∷ pool) b =
      elim (consider_all-chosen pool (consider w r p accounts b)) [
        | inl e ↦ elim (consider-Considered p accounts b).2 [
          | inl same ↦ inl (e ∙ same)
          | inr (a, m, new) ↦ inr (p, accounts, a, inl refl, m, e ∙ new)
        ]
        | inr (q, others, a, i, m, new) ↦ inr (q, others, a, inr i, m, new)
      ]

  abbrev AtLeast : F → F → Type 0
  AtLeast s t = o.less s t ≡ false

  AtLeast-trans : (x y z : F) → AtLeast x y → AtLeast y z → AtLeast x z
  AtLeast-trans x y z g h = ground (arith, o.cotransitive x y z)

  consider_all-highest :
      (pool : Dict (List Account)) (b : Best F)
      → AtLeast (consider_all w r pool b).best_score b.best_score
        × ((p : String) (accounts : List Account) (x : Account)
            → Has (p, accounts) pool
            → Has x accounts
            → AtLeast (consider_all w r pool b).best_score (score_of w r x))
  unfolding consider_all
  consider_all-highest [] b = (o.irreflexive b.best_score, λ p accounts x h. absurd h)
  consider_all-highest ((q, others) ∷ pool) b =
      let b₁ = consider w r q others b in
      let last = (consider_all w r pool b₁).best_score in
      let (later, rest) = consider_all-highest pool b₁ in
      let (all_others, before, cases) = consider-Considered q others b in
      (
        AtLeast-trans last b₁.best_score b.best_score later before,
        λ p accounts x i h. elim i [
          | inl e ↦
              let same : accounts ≡ others = ap (λ (z : String × List Account). z.1) e in
              AtLeast-trans last b₁.best_score (score_of w r x) later
                (all_others x (rw (sym same) h))
          | inr i' ↦ rest p accounts x i' h
        ],
      )

  greatest-AtLeast : (x y : F) → AtLeast (greatest x y) x
  unfolding greatest
  greatest-AtLeast x y = ground (arith, o.irreflexive x, o.transitive x y x)

  score-AtLeast_zero : (a : Account) → AtLeast (score_of w r a) zero_score
  unfolding score_account
  score-AtLeast_zero a = elim (Option-cases (find_profile a.provider provider_profiles)) [
    | inl e ↦ ground (arith, e, o.irreflexive zero_score)
    | inr (caps, e) ↦
        let final = o.subtract (compute_capability_score w caps r) (compute_penalties w a).0 in
        ground (arith, e, o.irreflexive zero_score, greatest-AtLeast zero_score final)
  ]

  abbrev start : Best F
  start = record { choice = none; best_score = o.subtract zero_score (whole 1) }

  abbrev pub IsIn : Dict (List Account) → String → Account → Type 0
  IsIn pool p a = (accounts : List Account) × Has (p, accounts) pool × Has a accounts

  none_not_some : {A : Type 0} → {x : A} → none ≡ some x → ⊥
  none_not_some e = cc

  chosen-IsIn :
      (pool : Dict (List Account)) (p : String) (a : Account)
      → (consider_all w r pool start).choice ≡ some (p, a)
      → IsIn pool p a × ((consider_all w r pool start).best_score ≡ score_of w r a)
  chosen-IsIn pool p a e = elim (consider_all-chosen pool start) [
    | inl same ↦ absurd (none_not_some (sym (ap (λ (b : Best F). b.choice) same) ∙ e))
    | inr (q, accounts, x, i, m, new) ↦
        let found : some (q, x) ≡ some (p, a) = sym (ap (λ (b : Best F). b.choice) new) ∙ e in
        let name : q ≡ p = ap (λ z. elim z [ none ↦ p | some y ↦ y.0 ]) found in
        let account : x ≡ a = ap (λ z. elim z [ none ↦ a | some y ↦ y.1 ]) found in
        let i' : Has (p, accounts) pool = rw (sym name) i in
        let m' : Has a accounts = rw (sym account) m in
        ((accounts, i', m'), ap (λ (b : Best F). b.best_score) new ∙ ap (score_of w r) account)
  ]

  -- The account that is chosen from a pool stands under the provider it is chosen with, and no
  -- account of the pool has a higher score.
  pub select_provider-highest :
      (pool : Dict (List Account)) (p : String) (a : Account) (q : String) (others : List Account)
      (x : Account)
      → select_provider w r pool ≡ some (p, a)
      → Has (q, others) pool
      → Has x others
      → IsIn pool p a × (o.less (score_of w r a) (score_of w r x) ≡ false)
  unfolding select_provider
  select_provider-highest pool p a q others x e h m =
      let (i, same) = chosen-IsIn pool p a e in
      (i, rw (sym same) ((consider_all-highest pool start).1 q others x h m))

  -- Where -1.0 is less than 0.0, a pool that has an account has one that is chosen.
  pub select_provider-none :
      (pool : Dict (List Account)) (q : String) (others : List Account) (x : Account)
      → (below : o.less (o.subtract zero_score (whole 1)) zero_score ≡ true) → Has (q, others) pool
      → Has x others
      → select_provider w r pool ≢ none
  unfolding select_provider
  select_provider-none pool q others x below h m e = elim (consider_all-chosen pool start) [
    | inl same ↦ ground (
      arith,
      below,
      same,
      (consider_all-highest pool start).1 q others x h m,
      score-AtLeast_zero x,
      o.cotransitive start.best_score (score_of w r x) zero_score,
    )
    | inr (p, accounts, a, i, n, new) ↦ none_not_some (sym e ∙ ap (λ (b : Best F). b.choice) new)
  ]

  too_small-score : (a : Account) → a.context_limit < r.context_length → score_of w r a ≡ zero_score
  unfolding score_account
  too_small-score a small = ground (arith, small)

  -- An account whose context window is too small for the task is chosen only when no account of the
  -- pool has a score above zero.
  pub too_small-last :
      (pool : Dict (List Account)) (p : String) (a : Account) (q : String) (others : List Account)
      (x : Account)
      → select_provider w r pool ≡ some (p, a)
      → a.context_limit < r.context_length
      → Has (q, others) pool
      → Has x others
      → o.less zero_score (score_of w r x) ≡ false
  too_small-last pool p a q others x e small h m =
      let best = (select_provider-highest pool p a q others x e h m).1 in
      rw (sym (too_small-score a small)) best
