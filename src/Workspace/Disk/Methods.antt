-- ===== src/Workspace/Disk/Methods.antt =====
-- Combinators of methods that the workspace uses, and the rules by which a method keeps a predicate on
-- the state.
use chat_to_agent.Base.{◌≡◌, inl, inr}
use chat_to_agent.Base.Exec.{Outcome, Outcome-cases, returned, raised, Method, ◌>>=◌, catch}

abbrev relabel : {E G A : Type 0} → (E → G) → Outcome E A → Outcome G A
relabel f (returned a) = returned a
relabel f (raised e) = raised (f e)

-- The same method, its error put into another type.
unfoldable pub lift : {S E G A : Type 0} → (E → G) → Method S E A → Method S G A
lift f m s = let (r, s') = m s in (relabel f r, s')

-- with contextlib.suppress(…): the error is dropped.
unfoldable pub suppress : {S E G A : Type 0} → Method S E A → Method S G (Unit {0})
suppress m s = (returned tt, (m s).1)

-- A method keeps a predicate on this state, whether it returns or raises.
abbrev pub Keeps : {S E A : Type 0} → (S → Type 0) → Method S E A → S → Type 0
Keeps P m s = P s → P (m s).1

module _ {S E A B : Type 0} (P : S → Type 0) where
  -- The rest of a method starts from the state and the result of its beginning.
  pub then-Keeps :
      (m : Method S E A) (f : A → Method S E B) (s : S)
      → Keeps P m s
      → ((a : A) → (m s).0 ≡ returned a → Keeps P (f a) (m s).1)
      → Keeps P (m >>= f) s
  then-Keeps m f s h k p = elim (Outcome-cases (m s).0) [
    | inl (a, e) ↦ rw e (k a e (h p))
    | inr (x, e) ↦ rw e (h p)
  ]

module _ {S E A : Type 0} (P : S → Type 0) where
  pub catch-Keeps :
      (m : Method S E A) (f : E → Method S E A) (s : S)
      → Keeps P m s
      → ((x : E) → (m s).0 ≡ raised x → Keeps P (f x) (m s).1)
      → Keeps P (catch m f) s
  catch-Keeps m f s h k p = elim (Outcome-cases (m s).0) [
    | inl (a, e) ↦ rw e (h p)
    | inr (x, e) ↦ rw e (k x e (h p))
  ]

  pub lift-Keeps :
      {G : Type 0} (f : E → G) (m : Method S E A) (s : S) → Keeps P m s → Keeps P (lift f m) s
  unfolding lift
  lift-Keeps f m s h p = h p

  pub suppress-Keeps :
      (G : Type 0) (m : Method S E A) (s : S) → Keeps P m s → Keeps P (suppress {G = G} m) s
  unfolding suppress
  suppress-Keeps G m s h p = h p

relabel-returned :
    {E G A : Type 0} (f : E → G) (r : Outcome E A) (a : A)
    → relabel f r ≡ returned a
    → r ≡ returned a
relabel-returned f (returned b) a e = cc
relabel-returned f (raised x) a e = cc

pub lift-returned :
    {S E G A : Type 0} (f : E → G) (m : Method S E A) (a : A) (s : S)
    → (lift f m s).0 ≡ returned a
    → (m s).0 ≡ returned a
unfolding lift
lift-returned f m a s e = relabel-returned f (m s).0 a e
