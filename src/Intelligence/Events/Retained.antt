-- ===== src/Intelligence/Events/Retained.antt =====
-- What the bus remembers.
use chat_to_agent.Base.{
  leb, leb→le, Bool-cases, length, length-append, drop, last_n, ℕ, zero, suc, ◌-◌, ◌≤◌, ◌<◌, String,
  ◌≡◌, refl, sym, ap, ◌∙◌, inl, inr, Bool, List, [], ◌∷◌, ◌++◌, arith,
}
use chat_to_agent.Intelligence.Events.{
  IntelligenceEvent, EventBus, new_bus, append_bounded, publish, subscribe, unsubscribe, clear,
}

module _ {A : Type 0} where
  drop-append : (n : ℕ) (xs ys : List A) → n ≤ length xs → drop n (xs ++ ys) ≡ drop n xs ++ ys
  drop-append zero xs ys h = refl
  drop-append (suc n) [] ys h = absurd (omega (arith, h))
  drop-append (suc n) (x ∷ xs) ys h = drop-append n xs ys (omega (arith, h))

  length-drop : (n : ℕ) (xs : List A) → length (drop n xs) ≡ length xs - n
  length-drop zero xs = omega arith
  length-drop (suc n) [] = omega arith
  length-drop (suc n) (x ∷ xs) = omega (arith, length-drop n xs)

  drop-nil : (n : ℕ) → drop {A = A} n [] ≡ []
  drop-nil zero = refl
  drop-nil (suc n) = refl

  drop_one-drop : (n : ℕ) (xs : List A) → drop 1 (drop n xs) ≡ drop (suc n) xs
  drop_one-drop zero xs = refl
  drop_one-drop (suc n) [] = refl
  drop_one-drop (suc n) (x ∷ xs) = drop_one-drop n xs

  -- A bounded list that is appended to one by one holds the last of all.
  last_n-append :
      (limit : ℕ) (xs : List A) (x : A)
      → append_bounded limit (last_n limit xs) x ≡ last_n limit (xs ++ (x ∷ []))
  last_n-append limit xs x =
      let k = length xs - limit in
      let all_of = xs ++ (x ∷ []) in
      let long = length-append xs (x ∷ []) in
      let kept = length-drop k xs in
      let grown = length-append (drop k xs) (x ∷ []) in
      elim (Bool-cases (leb limit (length xs))) [
        | inl full ↦
            let one : length (drop k xs ++ (x ∷ [])) - limit ≡ 1 =
              omega (arith, leb→le limit (length xs) full, kept, grown) in
            let more : length all_of - limit ≡ suc k =
              omega (arith, leb→le limit (length xs) full, long) in
            ap (λ n. drop n (drop k xs ++ (x ∷ []))) one
            ∙ ap (drop 1) (sym (drop-append k xs (x ∷ []) (omega arith)))
            ∙ drop_one-drop k all_of
            ∙ ap (λ n. drop n all_of) (sym more)
        | inr room ↦
            let short : length xs < limit = ground (arith, room) in
            let none_out : k ≡ 0 = omega (arith, short) in
            let same : length (drop k xs ++ (x ∷ [])) - limit ≡ 0 =
              omega (arith, short, kept, grown) in
            let whole : length all_of - limit ≡ 0 = omega (arith, short, long) in
            ap (λ n. drop n (drop k xs ++ (x ∷ []))) same
            ∙ ap (λ n. drop n xs ++ (x ∷ [])) none_out
            ∙ ap (λ n. drop n all_of) (sym whole)
      ]

-- A call of the bus.
pub data Call (P : Type 0) : Type 0 where
  subscribes : String → Bool → Call P
  unsubscribes : String → Call P
  publishes : IntelligenceEvent P → Call P
  clears : Call P

module _ {P : Type 0} where
  unfoldable pub step : EventBus P → Call P → EventBus P
  step b (subscribes h asynchronous) = subscribe h asynchronous b
  step b (unsubscribes h) = unsubscribe h b
  step b (publishes evt) = (publish evt b).1
  step b clears = clear b

  unfoldable pub run : EventBus P → List (Call P) → EventBus P
  unfolding step
  run b [] = b
  run b (c ∷ cs) = run (step b c) cs

  -- The events published since the last clear, after those given.
  abbrev pub published : List (IntelligenceEvent P) → List (Call P) → List (IntelligenceEvent P)
  published es [] = es
  published es (publishes evt ∷ cs) = published (es ++ (evt ∷ [])) cs
  published es (clears ∷ cs) = published [] cs
  published es (subscribes h asynchronous ∷ cs) = published es cs
  published es (unsubscribes h ∷ cs) = published es cs

  abbrev Remembers : ℕ → EventBus P → List (IntelligenceEvent P) → Type 0
  Remembers limit b es =
      (b.history_limit ≡ limit) × (b.history ≡ last_n limit es) × (b.emitted ≡ length es)

  run-Remembers :
      (limit : ℕ) (b : EventBus P) (es : List (IntelligenceEvent P)) (cs : List (Call P))
      → Remembers limit b es
      → Remembers limit (run b cs) (published es cs)
  unfolding run step subscribe unsubscribe publish clear
  run-Remembers limit b es [] r = r
  run-Remembers limit b es (subscribes h a ∷ cs) r = run-Remembers limit (subscribe h a b) es cs r
  run-Remembers limit b es (unsubscribes h ∷ cs) r = run-Remembers limit (unsubscribe h b) es cs r
  run-Remembers limit b es (publishes evt ∷ cs) r =
      run-Remembers limit ((publish evt b).1) (es ++ (evt ∷ [])) cs (
        r.0,
        ap (λ n. append_bounded n b.history evt) r.0
            ∙ ap (λ (h : List (IntelligenceEvent P)). append_bounded limit h evt) (r.1)
            ∙ last_n-append limit es evt,
        omega (arith, r.2, length-append es (evt ∷ [])),
      )
  run-Remembers limit b es (clears ∷ cs) r =
      run-Remembers limit (clear b) [] cs (r.0, sym (drop-nil (0 - limit)), refl)

  -- After any calls of a new bus, its history is the last of the events published since it was last
  -- cleared, as many as its limit, in their order, and it has counted all of them.
  pub run-history :
      (limit : ℕ) (cs : List (Call P))
      → let b = run (new_bus limit) cs in
        (b.history ≡ last_n limit (published [] cs)) × (b.emitted ≡ length (published [] cs))
  run-history limit cs =
      let (l, h, e) =
        run-Remembers limit (new_bus limit) [] cs (refl, sym (drop-nil (0 - limit)), refl) in
      (h, e)
