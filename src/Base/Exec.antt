-- ===== src/Base/Exec.antt =====
-- Methods that change objects and may raise: what was written before a raise stays written, so the
-- state comes back beside the error too.

use mathlib.Core.Logic.{◌⊎◌, inl, inr}
use mathlib.Core.Bool.{Bool, true, false}
use mathlib.Core.Path.{◌≡◌, refl}

pub data Outcome {ℓ κ} (E : Type κ) (A : Type ℓ) : Type (ℓ ⊔ κ) where
  returned : A → Outcome E A
  raised : E → Outcome E A

abbrev pub is_raised {ℓ κ} : {E : Type κ} {A : Type ℓ} → Outcome E A → Bool
is_raised (returned a) = false
is_raised (raised e) = true

pub Outcome-cases {ℓ κ} :
    {E : Type κ} {A : Type ℓ} (o : Outcome E A)
    → ((a : A) × (o ≡ returned a)) ⊎ ((e : E) × (o ≡ raised e))
Outcome-cases (returned a) = inl (a, refl)
Outcome-cases (raised e) = inr (e, refl)

-- A method on state `S`.
abbrev pub Method {ℓ} : Type ℓ → Type ℓ → Type ℓ → Type ℓ
Method S E A = S → Outcome E A × S

module _ {ℓ} {S E A B : Type ℓ} where
  abbrev continue : Outcome E A → (A → Method S E B) → Method S E B
  continue (returned a) f s = f a s
  continue (raised e) f s = (raised e, s)

  infixl 10 ◌>>=◌ ◌>>◌
  abbrev pub ◌>>=◌ : Method S E A → (A → Method S E B) → Method S E B
  ◌>>=◌ m f s = let (r, s') = m s in continue r f s'

  abbrev pub ◌>>◌ : Method S E A → Method S E B → Method S E B
  m >> n = m >>= λ _. n

module _ {ℓ} {S E A : Type ℓ} where
  abbrev recover : Outcome E A → (E → Method S E A) → Method S E A
  recover (returned a) h s = (returned a, s)
  recover (raised e) h s = h e s

  -- try: … except Exception as e: …
  abbrev pub catch : Method S E A → (E → Method S E A) → Method S E A
  catch m h s = let (r, s') = m s in recover r h s'

  abbrev pub pure : A → Method S E A
  pure a s = (returned a, s)

  abbrev pub raise : E → Method S E A
  raise e s = (raised e, s)

module _ {S E : Type 0} where
  abbrev pub modify : (S → S) → Method S E (Unit {0})
  modify f s = (returned tt, f s)

  abbrev pub gets : {A : Type 0} → (S → A) → Method S E A
  gets f s = (returned (f s), s)

module _ {ℓ} {S E A B : Type ℓ} (b : B) where
  continue-pure : (r : Outcome E A) (s : S) → (continue r (λ _. pure {E = E} b) s).1 ≡ s
  continue-pure (returned a) s = refl
  continue-pure (raised e) s = refl

  -- A result put in the place of a method's own leaves its state.
  pub then_pure : (m : Method S E A) (s : S) → ((m >> pure {E = E} b) s).1 ≡ (m s).1
  then_pure m s = let (r, s') = m s in continue-pure r s'

module _ {S E A B : Type 0} (b c : B) where
  continue_result :
      (r : Outcome E A) (s : S) → (continue r (λ _. pure {E = E} b) s).0 ≡ returned c → b ≡ c
  continue_result (returned a) s e = cc
  continue_result (raised x) s e = cc

  -- If it returns, it returns what was put there.
  pub then_pure_result :
      (m : Method S E A) (s : S) → ((m >> pure {E = E} b) s).0 ≡ returned c → b ≡ c
  then_pure_result m s e = let (r, s') = m s in continue_result r s' e
