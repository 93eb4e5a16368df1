-- ===== src/Adapters/Json.antt =====
-- What `json.loads` returns, and the walks over it in ai_orchestrator/adapters/engine_adapter.py and
-- ai_orchestrator/browser_intelligence/engine.py. A parsed text is a tree, in which no object stands
-- twice: the walks' sets of visited objects never hold an object that is popped, and are left out.
pub mod Collected
use chat_to_agent.Base.{
  if◌then◌else◌, ℕ, zero, suc, ◌+◌, String, Bool, true, false, Option, none, some, List, [], ◌∷◌,
  ◌++◌, str_eq,
}

mutual
  pub data Json : Type 0 where
    null : Json
    boolean : Bool → Json
    number : ℕ → Json
    text : String → Json
    array : Items → Json
    object : Fields → Json

  pub data Items : Type 0 where
    nil : Items
    cons : Json → Items → Items

  pub data Fields : Type 0 where
    end : Fields
    field : String → Json → Fields → Fields

-- obj.get(k)
unfoldable pub lookup : String → Fields → Option Json
lookup k end = none
lookup k (field j v fs) = if str_eq j k then some v else lookup k fs

-- xs[i], none when there are too few.
abbrev pub item : ℕ → Items → Option Json
item i nil = none
item zero (cons x xs) = some x
item (suc i) (cons x xs) = item i xs

pub data Key : Type 0 where
  name : String → Key
  position : ℕ → Key

-- One step of a path: a name in an object, or a position in an array.
abbrev child : Key → Json → Option Json
child (name k) (object fs) = lookup k fs
child (position i) (array xs) = item i xs
child _ _ = none

abbrev pub then_follow : (Json → Option Json) → Option Json → Option Json
then_follow f none = none
then_follow f (some v) = f v

-- The value at the end of a path, none where the path leaves the value.
unfoldable pub follow : List Key → Json → Option Json
unfolding lookup
follow [] v = some v
follow (k ∷ ks) v = then_follow (follow ks) (child k v)

-- The texts of an array that pass a test.
unfoldable pub texts_of : (String → Bool) → Items → List String
texts_of ok nil = []
texts_of ok (cons (text s) xs) = if ok s then s ∷ texts_of ok xs else texts_of ok xs
texts_of ok (cons x xs) = texts_of ok xs

abbrev pub is_container : Json → Bool
is_container (array xs) = true
is_container (object fs) = true
is_container _ = false

abbrev push_if : Bool → Json → List Json → List Json
push_if true v stack = v ∷ stack
push_if false v stack = stack

-- What a walk finds at a field of an object, given the object and the field, and whether it goes on
-- into the field's value.
abbrev pub Rule : Type 0 → Type 0
Rule A = Fields → String → Json → List A × Bool

module _ {A : Type 0} (rule : Rule A) where
  -- The loop over the fields of an object. The top of the stack, its last, stands first.
  unfoldable pub walk_fields : Fields → Fields → List A → List Json → List A × List Json
  walk_fields cur end found stack = (found, stack)
  walk_fields cur (field k v fs) found stack =
      let (more, into) = rule cur k v in walk_fields cur fs (found ++ more) (push_if into v stack)

  unfoldable pub walk_items : Items → List Json → List Json
  walk_items nil stack = stack
  walk_items (cons x xs) stack = walk_items xs (push_if (is_container x) x stack)

  -- while stack: …
  unfoldable pub walk : ℕ → List A → List Json → List A
  unfolding walk_fields walk_items
  walk fuel found [] = found
  walk zero found (v ∷ stack) = found
  walk (suc fuel) found (object fs ∷ stack) =
      let (found', stack') = walk_fields fs fs found stack in walk fuel found' stack'
  walk (suc fuel) found (array xs ∷ stack) = walk fuel found (walk_items xs stack)
  walk (suc fuel) found (v ∷ stack) = walk fuel found stack

-- As many rounds as a walk can need.
unfoldable mutual
  pub size : Json → ℕ
  size (array xs) = suc (size_items xs)
  size (object fs) = suc (size_fields fs)
  size null = 1
  size (boolean b) = 1
  size (number n) = 1
  size (text s) = 1

  pub size_items : Items → ℕ
  size_items nil = 0
  size_items (cons x xs) = size x + size_items xs

  pub size_fields : Fields → ℕ
  size_fields end = 0
  size_fields (field k v fs) = size v + size_fields fs

-- The walk from the root.
unfoldable pub walk_all : {A : Type 0} → Rule A → Json → List A
unfolding walk size
walk_all rule v = walk rule (size v) [] (v ∷ [])
