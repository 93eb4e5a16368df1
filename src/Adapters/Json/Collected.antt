-- ===== src/Adapters/Json/Collected.antt =====
-- The walks with a stack find what a recursive description says, and end.
use chat_to_agent.Base.{
  ℕ, zero, suc, ◌+◌, ◌≤◌, ◌<◌, ◌≡◌, refl, sym, ap, ◌∙◌, Bool, true, false, List, [], ◌∷◌, ◌++◌,
  arith,
}
use mathlib.Core.List.{append-nil, append_assoc}
use chat_to_agent.Adapters.Json.{
  Json, Items, Fields, null, boolean, number, text, array, object, nil, cons, end, field, Rule,
  is_container, push_if, walk_fields, walk_items, walk, size, size_items, size_fields, walk_all,
}

size_pos : (v : Json) → 0 < size v
unfolding size
size_pos null = omega arith
size_pos (boolean b) = omega arith
size_pos (number n) = omega arith
size_pos (text s) = omega arith
size_pos (array xs) = omega arith
size_pos (object fs) = omega arith

module _ {A : Type 0} (rule : Rule A) where
  -- What an object's own fields give, in their order.
  unfoldable pub own : Fields → Fields → List A
  own cur end = []
  own cur (field k v fs) = (rule cur k v).0 ++ own cur fs

  abbrev pub only_if : Bool → List A → List A
  only_if true xs = xs
  only_if false xs = []

  -- A value gives what its own fields give, then what the values in it give that the rule goes into,
  -- the last of them first.
  unfoldable mutual
    pub collect : Json → List A
    collect (object fs) = own fs fs ++ collect_fields fs fs
    collect (array xs) = collect_items xs
    collect null = []
    collect (boolean b) = []
    collect (number n) = []
    collect (text s) = []

    pub collect_fields : Fields → Fields → List A
    collect_fields cur end = []
    collect_fields cur (field k v fs) =
        collect_fields cur fs ++ only_if (rule cur k v).1 (collect v)

    pub collect_items : Items → List A
    collect_items nil = []
    collect_items (cons x xs) = collect_items xs ++ only_if (is_container x) (collect x)

  -- What the values on a stack give.
  abbrev collect_stack : List Json → List A
  collect_stack [] = []
  collect_stack (v ∷ stack) = collect v ++ collect_stack stack

  abbrev size_stack : List Json → ℕ
  size_stack [] = 0
  size_stack (v ∷ stack) = size v + size_stack stack

  collect_stack-push_if :
      (b : Bool) (v : Json) (stack : List Json)
      → collect_stack (push_if b v stack) ≡ only_if b (collect v) ++ collect_stack stack
  collect_stack-push_if true v stack = refl
  collect_stack-push_if false v stack = refl

  size_stack-push_if :
      (b : Bool) (v : Json) (stack : List Json)
      → size_stack (push_if b v stack) ≤ size v + size_stack stack
  size_stack-push_if true v stack = omega arith
  size_stack-push_if false v stack = omega arith

  walk_fields-found :
      (cur fs : Fields) (found : List A) (stack : List Json)
      → (walk_fields rule cur fs found stack).0 ≡ found ++ own cur fs
  unfolding walk_fields own
  walk_fields-found cur end found stack = sym (append-nil found)
  walk_fields-found cur (field k v fs) found stack =
      let (more, into) = rule cur k v in
      walk_fields-found cur fs (found ++ more) (push_if into v stack)
      ∙ append_assoc found more (own cur fs)

  walk_fields-stack :
      (cur fs : Fields) (found : List A) (stack : List Json)
      → collect_stack (walk_fields rule cur fs found stack).1
        ≡ collect_fields cur fs ++ collect_stack stack
  unfolding walk_fields collect
  walk_fields-stack cur end found stack = refl
  walk_fields-stack cur (field k v fs) found stack =
      let (more, into) = rule cur k v in
      walk_fields-stack cur fs (found ++ more) (push_if into v stack)
      ∙ ap (λ z. collect_fields cur fs ++ z) (collect_stack-push_if into v stack)
      ∙ sym (append_assoc (collect_fields cur fs) (only_if into (collect v)) (collect_stack stack))

  walk_fields-size :
      (cur fs : Fields) (found : List A) (stack : List Json)
      → size_stack (walk_fields rule cur fs found stack).1 ≤ size_fields fs + size_stack stack
  unfolding walk_fields size
  walk_fields-size cur end found stack = omega arith
  walk_fields-size cur (field k v fs) found stack =
      let (more, into) = rule cur k v in
      omega (
        arith,
        walk_fields-size cur fs (found ++ more) (push_if into v stack),
        size_stack-push_if into v stack,
      )

  walk_items-stack :
      (xs : Items) (stack : List Json)
      → collect_stack (walk_items rule xs stack) ≡ collect_items xs ++ collect_stack stack
  unfolding walk_items collect
  walk_items-stack nil stack = refl
  walk_items-stack (cons x xs) stack =
      let into = is_container x in
      walk_items-stack xs (push_if into x stack)
      ∙ ap (λ z. collect_items xs ++ z) (collect_stack-push_if into x stack)
      ∙ sym (append_assoc (collect_items xs) (only_if into (collect x)) (collect_stack stack))

  walk_items-size :
      (xs : Items) (stack : List Json)
      → size_stack (walk_items rule xs stack) ≤ size_items xs + size_stack stack
  unfolding walk_items size
  walk_items-size nil stack = omega arith
  walk_items-size (cons x xs) stack = omega (
    arith,
    walk_items-size xs (push_if (is_container x) x stack),
    size_stack-push_if (is_container x) x stack,
  )

  -- With a round for every value the walk ends by its own test, with all that is to be found.
  walk-collect_stack :
      (fuel : ℕ) (found : List A) (stack : List Json)
      → size_stack stack ≤ fuel
      → walk rule fuel found stack ≡ found ++ collect_stack stack
  unfolding walk collect size
  walk-collect_stack fuel found [] h = sym (append-nil found)
  walk-collect_stack zero found (v ∷ stack) h = absurd (omega (arith, h, size_pos v))
  walk-collect_stack (suc fuel) found (object fs ∷ stack) h =
      let (found', stack') = walk_fields rule fs fs found stack in
      walk-collect_stack fuel found' stack' (omega (arith, h, walk_fields-size fs fs found stack))
      ∙ ap (λ z. z ++ collect_stack stack') (walk_fields-found fs fs found stack)
      ∙ ap (λ z. found ++ own fs fs ++ z) (walk_fields-stack fs fs found stack)
      ∙ append_assoc found (own fs fs) (collect_fields fs fs ++ collect_stack stack)
      ∙ ap (λ z. found ++ z)
          (sym (append_assoc (own fs fs) (collect_fields fs fs) (collect_stack stack)))
  walk-collect_stack (suc fuel) found (array xs ∷ stack) h =
      walk-collect_stack fuel found (walk_items rule xs stack)
        (omega (arith, h, walk_items-size xs stack))
      ∙ ap (λ z. found ++ z) (walk_items-stack xs stack)
  walk-collect_stack (suc fuel) found (null ∷ stack) h =
      walk-collect_stack fuel found stack (omega (arith, h))
  walk-collect_stack (suc fuel) found (boolean b ∷ stack) h =
      walk-collect_stack fuel found stack (omega (arith, h))
  walk-collect_stack (suc fuel) found (number n ∷ stack) h =
      walk-collect_stack fuel found stack (omega (arith, h))
  walk-collect_stack (suc fuel) found (text s ∷ stack) h =
      walk-collect_stack fuel found stack (omega (arith, h))

  pub walk_all-collect : (v : Json) → walk_all rule v ≡ collect v
  unfolding walk_all
  walk_all-collect v =
      walk-collect_stack (size v) [] (v ∷ []) (omega arith) ∙ append-nil (collect v)
