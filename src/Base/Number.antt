-- ===== src/Base/Number.antt =====
-- What the program uses of Python's floats, as an interface: the operations that compute scores, and
-- the comparison.
use Prim.Native.Nat.{ℕ}
use mathlib.Core.Path.{◌≡◌}
use mathlib.Core.Logic.{◌⊎◌}
use mathlib.Core.Bool.{Bool, true, false}
use mathlib.Core.List.{List}
use chat_to_agent.Base.Tests.{if◌then◌else◌}

-- Comparison is a strict weak order, as it is on the floats that are not NaN.
pub record IsOrder {F : Type 0} (less : F → F → Bool) : Type 0 where
  pub irreflexive : (a : F) → less a a ≡ false
  pub transitive : (a b c : F) → less a b ≡ true → less b c ≡ true → less a c ≡ true
  pub cotransitive : (a b c : F) → less a c ≡ true → (less a b ≡ true) ⊎ (less b c ≡ true)

pub record Number (F : Type 0) : Type 0 where
  -- The number written a / b in decimals, such as 0.85 for 85 / 100.
  pub of : ℕ → ℕ → F
  pub add : F → F → F
  pub subtract : F → F → F
  pub multiply : F → F → F
  pub divide : F → F → F
  -- The built-in `sum`.
  pub sum : List F → F
  pub less : F → F → Bool
  pub ordered : IsOrder less
  pub open ordered use *

module _ {F : Type 0} ⦃o : Number F⦄ where
  -- The built-ins `min` and `max` of two numbers: the first, unless the second is beyond it.
  unfoldable pub least : F → F → F
  least a b = if o.less b a then b else a

  unfoldable pub greatest : F → F → F
  greatest a b = if o.less a b then b else a
