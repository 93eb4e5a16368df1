-- ===== src/Base/Fraction.antt =====
-- A non-negative quotient, kept as its two numbers: what a float stands for where the program only
-- averages.
use Prim.Native.Nat.{ℕ, ◌+◌, ◌*◌, ◌<◌, suc}
use mathlib.Core.Path.{◌≡◌, ap}
use native.Mathlib.Omega.{arith}

pub record Fraction : Type 0 where
  pub num : ℕ
  pub den : ℕ

abbrev pub zero_fraction : Fraction
zero_fraction = record { num = 0; den = 1 }

-- (q * n + x) / (n + 1)
unfoldable pub running_mean : Fraction → ℕ → ℕ → Fraction
running_mean q n x = record { num = q.num * n + x * q.den; den = q.den * suc n }

-- `q` is `total / n`; nothing is said of the quotient at `n = 0`.
pub record IsMean (q : Fraction) (n total : ℕ) : Type 0 where
  pub positive : 0 < q.den
  pub exact : q.num * n ≡ total * q.den

pub running_mean-IsMean :
    (q : Fraction) (n total x : ℕ)
    → IsMean q n total
    → IsMean (running_mean q n x) (suc n) (total + x)
unfolding running_mean
running_mean-IsMean q n total x h = record {
  positive = grind (arith, h.positive);
  exact = grind (arith, ap (λ (t : ℕ). t * suc n) h.exact);
}
