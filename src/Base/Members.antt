-- ===== src/Base/Members.antt =====
-- What the members of a list are, for comprehensions, `max` and dictionaries.
use Prim.Native.Nat.{ℕ, ◌≤◌, ◌+◌}
use Prim.Native.String.{String}
use mathlib.Core.Path.{◌≡◌, refl, ◌∙◌, sym}
use mathlib.Core.Logic.{◌⊎◌, inl, inr}
use mathlib.Core.Bool.{Bool, true, false}
use mathlib.Core.Option.{none, some}
use mathlib.Core.List.{List, [], ◌∷◌}
use native.Mathlib.Omega.{arith}
use text.Mathlib.Text.{◌==◌}
use text.Mathlib.TextEquality.{eq_iff}
use chat_to_agent.Base.Tests.{to_ℕ, if◌then◌else◌, ltb, Bool-cases}
use chat_to_agent.Base.Lists.{keep, max_from, max_by}
use chat_to_agent.Base.Dict.{Dict, get, put, values, update_all, get-put, get-update_all}

-- How often a name stands in a list.
abbrev pub times : String → List String → ℕ
times h [] = 0
times h (x ∷ xs) = to_ℕ (x == h) + times h xs

module _ {A : Type 0} where
  -- `x in xs`, with its place.
  abbrev pub Has : A → List A → Type 0
  Has x [] = ⊥
  Has x (y ∷ ys) = (x ≡ y) ⊎ Has x ys

  pub Has-keep : (p : A → Bool) (x : A) (xs : List A) → Has x (keep p xs) → Has x xs × (p x ≡ true)
  unfolding keep
  Has-keep p x [] h = absurd h
  Has-keep p x (y ∷ ys) h = ground (arith, Has-keep p x ys)

  pub keep-Has : (p : A → Bool) (x : A) (xs : List A) → Has x xs → p x ≡ true → Has x (keep p xs)
  unfolding keep
  keep-Has p x [] h e = h
  keep-Has p x (y ∷ ys) h e = ground (arith, keep-Has p x ys)

  -- The result of `max` is at least as great as what it began with and as every element.
  max_from-greatest :
      (f : A → ℕ) (best x : A) (xs : List A)
      → (f best ≤ f (max_from f best xs)) × (Has x xs → f x ≤ f (max_from f best xs))
  unfolding max_from
  max_from-greatest f best x [] = (omega arith, λ h. absurd h)
  max_from-greatest f best x (y ∷ ys) =
      ground (arith, max_from-greatest f (if ltb (f best) (f y) then y else best) x ys)

  Has-pick :
      (t : Bool) (best y m : A) (ys : List A)
      → (m ≡ (if t then y else best)) ⊎ Has m ys
      → (m ≡ best) ⊎ ((m ≡ y) ⊎ Has m ys)
  Has-pick true best y m ys h = inr h
  Has-pick false best y m ys (inl e) = inl e
  Has-pick false best y m ys (inr h) = inr (inr h)

  max_from-Has :
      (f : A → ℕ) (best : A) (xs : List A)
      → (max_from f best xs ≡ best) ⊎ Has (max_from f best xs) xs
  unfolding max_from
  max_from-Has f best [] = inl refl
  max_from-Has f best (y ∷ ys) =
      Has-pick (ltb (f best) (f y)) best y _ ys
        (max_from-Has f (if ltb (f best) (f y) then y else best) ys)

  pub max_by-Has : (f : A → ℕ) (b : A) (xs : List A) → max_by f xs ≡ some b → Has b xs
  unfolding max_by
  max_by-Has f b [] e = cc
  max_by-Has f b (x ∷ xs) e = ground (arith, max_from-Has f x xs)

  pub max_by-greatest :
      (f : A → ℕ) (b x : A) (xs : List A) → max_by f xs ≡ some b → Has x xs → f x ≤ f b
  unfolding max_by
  max_by-greatest f b x [] e h = absurd h
  max_by-greatest f b x (y ∷ ys) e h = ground (arith, max_from-greatest f y x ys)

  pub max_by-none : (f : A → ℕ) (x : A) (xs : List A) → max_by f xs ≡ none → Has x xs → ⊥
  unfolding max_by
  max_by-none f x [] e h = h
  max_by-none f x (y ∷ ys) e h = cc

module _ {V : Type 0} (key : V → String) where
  -- Every object is filed once, under its own key.
  abbrev pub IsKeyed : Dict V → Type 0
  IsKeyed [] = Unit
  IsKeyed ((k, v) ∷ d) = (key v ≡ k) × (get k d ≡ none) × IsKeyed d

  pub get_of-Has : (x : V) (d : Dict V) → IsKeyed d → Has x (values d) → get (key x) d ≡ some x
  unfolding get
  get_of-Has x [] h m = absurd m
  get_of-Has x ((k, v) ∷ d) h m = elim m [
    | inl e ↦ ground (arith, eq_iff k (key v))
    | inr m' ↦ ground (arith, get_of-Has x d h.2 m', eq_iff k (key x))
  ]

  pub Has-get : (k : String) (x : V) (d : Dict V) → get k d ≡ some x → Has x (values d)
  unfolding get
  Has-get k x [] e = cc
  Has-get k x ((j, v) ∷ d) e = ground (arith, Has-get k x d)

  pub key-get : (k : String) (x : V) (d : Dict V) → IsKeyed d → get k d ≡ some x → key x ≡ k
  unfolding get
  key-get k x [] h e = cc
  key-get k x ((j, v) ∷ d) h e = ground (arith, key-get k x d, eq_iff j k)

  pub put-IsKeyed : (k : String) (x : V) (d : Dict V) → IsKeyed d → key x ≡ k → IsKeyed (put k x d)
  unfolding put get
  put-IsKeyed k x [] h e = (e, refl, tt)
  put-IsKeyed k x ((j, v) ∷ d) h e = elim (Bool-cases (j == k)) [
    | inl same ↦ rw same (e ∙ sym ((eq_iff j k).0 same), h.1, h.2)
    | inr other ↦
        rw other (
          h.0,
          ground (arith, get-put k j x d, eq_iff j k, eq_iff k j, h.1),
          put-IsKeyed k x d h.2 e,
        )
  ]

  pub update_all-IsKeyed :
      (f : V → V) (d : Dict V)
      → ((v : V) → key (f v) ≡ key v)
      → IsKeyed d
      → IsKeyed (update_all f d)
  unfolding update_all
  update_all-IsKeyed f [] e h = tt
  update_all-IsKeyed f ((k, v) ∷ d) e h =
      (e v ∙ h.0, rw (get-update_all f k d, h.1), update_all-IsKeyed f d e h.2)
