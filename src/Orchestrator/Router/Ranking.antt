-- ===== src/Orchestrator/Router/Ranking.antt =====
-- The ranking of accounts by score, and the account at its head.
use chat_to_agent.Base.{
  if◌then◌else◌, Bool-cases, ℕ, ◌+◌, ◌≡◌, refl, sym, ap, ◌∙◌, ◌⊎◌, inl, inr, Bool, true, false,
  some, List, [], ◌∷◌, map, arith,
}
use chat_to_agent.Base.Members.{Has}
use chat_to_agent.Base.Number.{Number}
use chat_to_agent.Models.Account.{Account}
use chat_to_agent.Models.Capabilities.{TaskRequirements}
use chat_to_agent.Orchestrator.Router.{
  ScoredAccount, Weights, score_account, insert, sort, rank_accounts, select_account,
}

module _ {F : Type 0} ⦃o : Number F⦄ where
  abbrev head : List (ScoredAccount F) → ScoredAccount F → ScoredAccount F
  head [] d = d
  head (x ∷ xs) d = x

  abbrev higher : ScoredAccount F → ScoredAccount F → ScoredAccount F
  higher x y = if o.less x.score y.score then y else x

  -- `max` by score of a list that is not empty: the first of the highest.
  unfoldable pub highest_from : ScoredAccount F → List (ScoredAccount F) → ScoredAccount F
  highest_from best [] = best
  highest_from best (x ∷ xs) = highest_from (higher best x) xs

  unfoldable highest_after : ScoredAccount F → List (ScoredAccount F) → ScoredAccount F
  highest_after x [] = x
  highest_after x (y ∷ ys) = higher x (highest_after y ys)

  higher_assoc : (x y z : ScoredAccount F) → higher (higher x y) z ≡ higher x (higher y z)
  higher_assoc x y z =
      ground (arith, o.transitive x.score y.score z.score, o.cotransitive x.score y.score z.score)

  highest_after-higher :
      (x y : ScoredAccount F) (ys : List (ScoredAccount F))
      → highest_after (higher x y) ys ≡ higher x (highest_after y ys)
  unfolding highest_after
  highest_after-higher x y [] = refl
  highest_after-higher x y (z ∷ zs) = higher_assoc x y (highest_after z zs)

  highest_lem :
      (x : ScoredAccount F) (xs : List (ScoredAccount F)) → highest_after x xs ≡ highest_from x xs
  unfolding highest_after highest_from
  highest_lem x [] = refl
  highest_lem x (y ∷ ys) = sym (highest_after-higher x y ys) ∙ highest_lem (higher x y) ys

  insert-cons :
      (x y : ScoredAccount F) (ys : List (ScoredAccount F))
      → (zs : List (ScoredAccount F)) × (insert x (y ∷ ys) ≡ higher x y ∷ zs)
  unfolding insert
  insert-cons x y ys = elim (Bool-cases (o.less x.score y.score)) [
    | inl e ↦ rw e (insert x ys, refl)
    | inr e ↦ rw e (y ∷ ys, refl)
  ]

  sort-cons :
      (x : ScoredAccount F) (xs : List (ScoredAccount F))
      → (ys : List (ScoredAccount F)) × (sort (x ∷ xs) ≡ highest_after x xs ∷ ys)
  unfolding sort insert highest_after
  sort-cons x [] = ([], refl)
  sort-cons x (y ∷ ys) =
      let (zs, e) = sort-cons y ys in
      let (rest, e') = insert-cons x (highest_after y ys) zs in (rest, ap (insert x) e ∙ e')

  -- No score that follows is higher.
  abbrev pub IsRanked : List (ScoredAccount F) → Type 0
  IsRanked [] = Unit
  IsRanked (x ∷ xs) =
      ((y : ScoredAccount F) → Has y xs → o.less x.score y.score ≡ false) × IsRanked xs

  Has-insert :
      (x y : ScoredAccount F) (ys : List (ScoredAccount F))
      → Has x (insert y ys)
      → (x ≡ y) ⊎ Has x ys
  unfolding insert
  Has-insert x y [] h = h
  Has-insert x y (z ∷ zs) h = ground (arith, Has-insert x y zs)

  insert-IsRanked :
      (x : ScoredAccount F) (xs : List (ScoredAccount F)) → IsRanked xs → IsRanked (insert x xs)
  unfolding insert
  insert-IsRanked x [] h = ((λ y m. absurd m), tt)
  insert-IsRanked x (y ∷ ys) h = elim (Bool-cases (o.less x.score y.score)) [
    | inl e ↦ rw e (
      (λ z m. ground (
        arith,
        Has-insert z x ys m,
        h.0 z,
        o.irreflexive x.score,
        o.transitive x.score y.score x.score,
        o.irreflexive y.score,
        o.transitive y.score x.score y.score,
      )),
      insert-IsRanked x ys h.1,
    )
    | inr e ↦ rw e ((λ z m. ground (arith, h.0 z, o.cotransitive x.score y.score z.score)), h)
  ]

  sort-IsRanked : (xs : List (ScoredAccount F)) → IsRanked (sort xs)
  unfolding sort
  sort-IsRanked [] = tt
  sort-IsRanked (x ∷ xs) = insert-IsRanked x (sort xs) (sort-IsRanked xs)

  abbrev pub count : (ScoredAccount F → Bool) → List (ScoredAccount F) → ℕ
  count p [] = 0
  count p (x ∷ xs) = (if p x then 1 else 0) + count p xs

  count-insert :
      (p : ScoredAccount F → Bool) (x : ScoredAccount F) (xs : List (ScoredAccount F))
      → count p (insert x xs) ≡ (if p x then 1 else 0) + count p xs
  unfolding insert
  count-insert p x [] = refl
  count-insert p x (y ∷ ys) = ground (arith, count-insert p x ys)

  count-sort :
      (p : ScoredAccount F → Bool) (xs : List (ScoredAccount F)) → count p (sort xs) ≡ count p xs
  unfolding sort
  count-sort p [] = refl
  count-sort p (x ∷ xs) = ground (arith, count-insert p x (sort xs), count-sort p xs)

  module _ (w : Weights F) (r : TaskRequirements F) where
    -- The ranking has the scored accounts and no others, each rest often rest it was given, and no
    -- account follows one with a lower score.
    pub rank_accounts-IsRanked :
        (accounts : List Account) (p : ScoredAccount F → Bool)
        → IsRanked (rank_accounts w r accounts)
          × (count p (rank_accounts w r accounts) ≡ count p (map (score_account w r) accounts))
    unfolding rank_accounts
    rank_accounts-IsRanked accounts p =
        let scored = map (score_account w r) accounts in (sort-IsRanked scored, count-sort p scored)

    -- `max(accounts, key=score)`: the first account with the highest score.
    unfoldable pub max_account : Account → List Account → Account
    max_account best [] = best
    max_account best (a ∷ rest) =
        max_account
          (if o.less (score_account w r best).score (score_account w r a).score then a else best)
          rest

    account-score_account : (a : Account) → (score_account w r a).account ≡ a
    unfolding score_account
    account-score_account a = ground arith

    higher-score_account :
        (a b : Account)
        → higher (score_account w r a) (score_account w r b)
          ≡ score_account w r
              (if o.less (score_account w r a).score (score_account w r b).score then b else a)
    higher-score_account a b = ground arith

    highest_from-score_account :
        (a : Account) (rest : List Account)
        → highest_from (score_account w r a) (map (score_account w r) rest)
          ≡ score_account w r (max_account a rest)
    unfolding highest_from max_account
    highest_from-score_account a [] = refl
    highest_from-score_account a (b ∷ bs) =
        ap (λ x. highest_from x (map (score_account w r) bs)) (higher-score_account a b)
        ∙ highest_from-score_account
            (if o.less (score_account w r a).score (score_account w r b).score then b else a) bs

    -- The account that is selected by ranking all of them is the first of those with the highest
    -- score.
    pub select_account_lem :
        (a : Account) (rest : List Account)
        → select_account w r (a ∷ rest) ≡ some (max_account a rest)
    unfolding select_account rank_accounts
    select_account_lem a rest =
        let scored = map (score_account w r) rest in
        let (xs, e) = sort-cons (score_account w r a) scored in
        let best = highest_lem (score_account w r a) scored ∙ highest_from-score_account a rest in
        ground (arith, e, best, account-score_account (max_account a rest))

    abbrev pub score_of : Account → F
    score_of a = (score_account w r a).score

    abbrev better : Account → Account → Account
    better a b = if o.less (score_of a) (score_of b) then b else a

    better-cases :
        (a b : Account)
        → ((better a b ≡ b) × (o.less (score_of a) (score_of b) ≡ true))
          ⊎ ((better a b ≡ a) × (o.less (score_of a) (score_of b) ≡ false))
    better-cases a b = either (o.less (score_of a) (score_of b)) refl
      where
        either :
            (t : Bool)
            → o.less (score_of a) (score_of b) ≡ t
            → ((better a b ≡ b) × (o.less (score_of a) (score_of b) ≡ true))
              ⊎ ((better a b ≡ a) × (o.less (score_of a) (score_of b) ≡ false))
        either true e = inl (ground (arith, e), e)
        either false e = inr (ground (arith, e), e)

    -- The account is one of those given, and no other has a higher score.
    pub max_account-Has : (a : Account) (rest : List Account) → Has (max_account a rest) (a ∷ rest)
    unfolding max_account
    max_account-Has a [] = inl refl
    max_account-Has a (b ∷ bs) = elim (better-cases a b) [
      | inl (e, l) ↦ ground (arith, e, max_account-Has (better a b) bs)
      | inr (e, l) ↦ ground (arith, e, max_account-Has (better a b) bs)
    ]

    pub max_account-highest :
        (a x : Account) (rest : List Account)
        → Has x (a ∷ rest)
        → o.less (score_of (max_account a rest)) (score_of x) ≡ false
    unfolding max_account
    max_account-highest a x [] h = ground (arith, o.irreflexive (score_of a))
    max_account-highest a x (b ∷ bs) h =
        let c = better a b in
        let m = max_account c bs in
        ground (
          arith,
          h,
          better-cases a b,
          max_account-highest c x bs,
          max_account-highest c c bs (inl refl),
          o.transitive (score_of m) (score_of a) (score_of b),
          o.cotransitive (score_of m) (score_of a) (score_of b),
          o.cotransitive (score_of a) (score_of m) (score_of b),
          o.cotransitive (score_of m) (score_of b) (score_of a),
        )
