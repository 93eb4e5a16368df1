-- ===== src/Base/Sorted.antt =====
-- Python's `sorted` on texts, which are ordered by their code points, and what it keeps of a list.
use Prim.Native.Char.{code}
use Prim.Native.String.{String}
use mathlib.Core.Path.{◌≡◌, refl}
use mathlib.Core.Bool.{Bool, true, false, not, ◌&&◌, ◌||◌}
use mathlib.Core.List.{List, [], ◌∷◌, map}
use native.Mathlib.Omega.{arith}
use text.Mathlib.Text.{◌==◌ as str_eq}
use text.Mathlib.TextEquality.{eq_iff}
use chat_to_agent.Base.Tests.{if◌then◌else◌, ltb, is_some}
use chat_to_agent.Base.Lists.{keep}
use chat_to_agent.Base.Dict.{Dict, get}

unfoldable pub str_less : String → String → Bool
str_less String.[] String.[] = false
str_less String.[] (String.◌∷◌ d t) = true
str_less (String.◌∷◌ c s) String.[] = false
str_less (String.◌∷◌ c s) (String.◌∷◌ d t) =
    let rest = str_less s t in ltb (code c) (code d) || (not (ltb (code d) (code c)) && rest)

unfoldable pub insert_sorted : String → List String → List String
unfolding str_less
insert_sorted x [] = x ∷ []
insert_sorted x (y ∷ ys) =
    let rest = insert_sorted x ys in if str_less y x then y ∷ rest else x ∷ y ∷ ys

unfoldable pub sorted : List String → List String
unfolding insert_sorted
sorted [] = []
sorted (x ∷ xs) = insert_sorted x (sorted xs)

-- A dictionary by the order of its keys, as json.dumps writes it with sort_keys.
unfoldable pub insert_item {ℓ} : {V : Type ℓ} → String → V → Dict V → Dict V
unfolding str_less
insert_item k v [] = (k, v) ∷ []
insert_item k v ((j, w) ∷ d) =
    let rest = insert_item k v d in if str_less j k then (j, w) ∷ rest else (k, v) ∷ (j, w) ∷ d

unfoldable pub sort_items {ℓ} : {V : Type ℓ} → Dict V → Dict V
unfolding insert_item
sort_items [] = []
sort_items ((k, v) ∷ d) = insert_item k v (sort_items d)

-- list(d)
abbrev pub keys {ℓ} : {V : Type ℓ} → Dict V → List String
keys = map (λ e. e.0)

-- x in xs
abbrev pub listed : String → List String → Bool
listed x [] = false
listed x (y ∷ ys) = str_eq y x || listed x ys

abbrev pub All : (String → Type 0) → List String → Type 0
All P [] = Unit
All P (x ∷ xs) = P x × All P xs

listed-insert_sorted :
    (k x : String) (xs : List String) → listed k (insert_sorted x xs) ≡ (str_eq x k || listed k xs)
unfolding insert_sorted
listed-insert_sorted k x [] = refl
listed-insert_sorted k x (y ∷ ys) = ground (arith, listed-insert_sorted k x ys)

pub listed-sorted : (k : String) (xs : List String) → listed k (sorted xs) ≡ listed k xs
unfolding sorted
listed-sorted k [] = refl
listed-sorted k (x ∷ xs) = ground (arith, listed-insert_sorted k x (sorted xs), listed-sorted k xs)

pub listed-keep :
    (k : String) (p : String → Bool) (xs : List String)
    → listed k (keep p xs) ≡ (listed k xs && p k)
unfolding keep
listed-keep k p [] = refl
listed-keep k p (x ∷ xs) = ground (arith, listed-keep k p xs, eq_iff x k)

pub listed-keys {ℓ} : {V : Type ℓ} (k : String) (d : Dict V) → listed k (keys d) ≡ is_some (get k d)
unfolding get
listed-keys k [] = refl
listed-keys k ((j, v) ∷ d) = ground (arith, listed-keys k d)

module _ (P : String → Type 0) where
  insert_sorted-All : (x : String) (xs : List String) → P x → All P xs → All P (insert_sorted x xs)
  unfolding insert_sorted
  insert_sorted-All x [] p h = (p, tt)
  insert_sorted-All x (y ∷ ys) p h = ground (arith, insert_sorted-All x ys)

  pub sorted-All : (xs : List String) → All P xs → All P (sorted xs)
  unfolding sorted
  sorted-All [] h = tt
  sorted-All (x ∷ xs) h = insert_sorted-All x (sorted xs) h.0 (sorted-All xs h.1)

  pub keep-All :
      (p : String → Bool) (xs : List String) → ((x : String) → p x ≡ true → P x) → All P (keep p xs)
  unfolding keep
  keep-All p [] f = tt
  keep-All p (x ∷ xs) f = ground (arith, keep-All p xs f, f x)
