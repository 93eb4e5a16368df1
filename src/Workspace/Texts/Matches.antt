-- ===== src/Workspace/Texts/Matches.antt =====
-- What is counted and replaced in a text.
use chat_to_agent.Base.{
  Bool-cases, length, drop, ℕ, zero, suc, ◌+◌, ◌≡◌, refl, sym, ap, inl, inr, ◌≢◌, ◌∙◌, true, [],
  ◌∷◌, ◌++◌, arith,
}
use mathlib.Core.List.{append-nil}
use chat_to_agent.Workspace.Texts.{
  Text, starts_with, count_from, count, replace_from, weave, replace,
}

starts_with_lem : (old s : Text) → starts_with old s ≡ true → old ++ drop (length old) s ≡ s
unfolding starts_with
starts_with_lem [] s h = refl
starts_with_lem (o ∷ old) [] h = cc
starts_with_lem (o ∷ old) (c ∷ s) h = ground (arith, starts_with_lem old s)

-- Reading the first text from the left, and past each `old` that is found, the second has `new` for
-- each of them and is else the same; they are so many.
pub data IsReading (old new : Text) : Text → Text → ℕ → Type 0 where
  over : IsReading old new [] [] 0
  found :
      {before s after : Text} {n m : ℕ}
      → before ≡ old ++ s
      → m ≡ n + 1
      → IsReading old new s after n
      → IsReading old new before (new ++ after) m
  passed :
      {c : ℕ} {s after : Text} {n m : ℕ}
      → ((t : Text) → c ∷ s ≢ old ++ t)
      → m ≡ n
      → IsReading old new s after n
      → IsReading old new (c ∷ s) (c ∷ after) m

starts_with-append : (old t : Text) → starts_with old (old ++ t) ≡ true
unfolding starts_with
starts_with-append [] t = refl
starts_with-append (o ∷ old) t = ground (arith, starts_with-append old t)

module _ (o : ℕ) (old new : Text) where
  replace_from-IsReading :
      (k : ℕ) (s : Text)
      → IsReading (o ∷ old) new (drop k s) (replace_from o old new k s) (count_from o old k s)
  unfolding replace_from count_from
  replace_from-IsReading zero [] = over
  replace_from-IsReading (suc k) [] = over
  replace_from-IsReading (suc k) (c ∷ s) = replace_from-IsReading k s
  replace_from-IsReading zero (c ∷ s) = elim (Bool-cases (starts_with (o ∷ old) (c ∷ s))) [
    | inl e ↦
        let rest = replace_from-IsReading (length old) s in
        rw e (found (sym (starts_with_lem (o ∷ old) (c ∷ s) e)) (omega arith) rest)
    | inr e ↦
        let rest = replace_from-IsReading 0 s in
        rw e (
          passed
            (λ t q. cc (sym (ap (starts_with (o ∷ old)) q ∙ starts_with-append (o ∷ old) t) ∙ e))
            (omega arith) rest)
  ]

-- A text with another before every character and at its end.
abbrev pub interleaved : Text → Text → Text
interleaved new s = new ++ after_each s
  where
    after_each : Text → Text
    after_each [] = []
    after_each (c ∷ s) = c ∷ new ++ after_each s

-- Every match of `old` in the first text, so many, is `new` in the second; an empty text matches before
-- every character and at the end.
abbrev pub IsReplaced : Text → Text → ℕ → Text → Text → Type 0
IsReplaced [] new n before after = (after ≡ interleaved new before) × (n ≡ suc (length before))
IsReplaced (o ∷ old) new n before after = IsReading (o ∷ old) new before after n

weave-interleaved : (new s : Text) → weave new s ≡ interleaved new s
unfolding weave
weave-interleaved new [] = sym (append-nil new)
weave-interleaved new (c ∷ s) = ap (λ t. new ++ (c ∷ t)) (weave-interleaved new s)

pub replace-IsReplaced : (old new s : Text) → IsReplaced old new (count old s) s (replace old new s)
unfolding count replace
replace-IsReplaced [] new s = (weave-interleaved new s, refl)
replace-IsReplaced (o ∷ old) new s = replace_from-IsReading o old new 0 s
