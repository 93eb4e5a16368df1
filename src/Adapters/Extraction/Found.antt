-- ===== src/Adapters/Extraction/Found.antt =====
-- Which texts the deep walk of ai_orchestrator/adapters/engine_adapter.py finds in a parsed value.
use chat_to_agent.Base.{
  any, String, ◌≡◌, ◌≢◌, ◌↔◌, ◌⊎◌, inl, inr, Bool, true, false, List, [], ◌∷◌, ◌++◌, arith,
  Bool-cases, eq_iff,
}
use chat_to_agent.Base.Members.{Has}
use chat_to_agent.Adapters.Json.{
  Json, Items, Fields, null, boolean, number, text, array, object, nil, cons, end, field, texts_of,
  is_container,
}
use chat_to_agent.Adapters.Json.Collected.{collect, collect_fields, collect_items, own, only_if}
use chat_to_agent.Adapters.Extraction.{
  Texts, delta_field, delta_rule, is_delta, extract_deltas_from_obj,
}
use chat_to_agent.Adapters.Extraction.Walks.{extract_deltas-collect}

module _ (L : Texts) where
  -- The key, in lower case, has one of these parts.
  abbrev pub has_part : List String → String → Bool
  has_part parts k = any (λ part. L.contains part (L.lower k)) parts

  abbrev pub text_keys : List String
  text_keys =
      "delta_content" ∷ "content" ∷ "text" ∷ "delta_text" ∷ "message" ∷ "reasoning_content" ∷ []

  abbrev pub array_keys : List String
  array_keys =
      "delta_content" ∷ "content" ∷ "text" ∷ "delta_text" ∷ "message" ∷ "reasoning_content"
      ∷ "parts" ∷ []

  -- Neither empty nor the end mark nor a status label.
  abbrev pub IsContent : String → Type 0
  IsContent s = (s ≢ "") × (s ≢ "[DONE]") × (L.is_status_label s ≡ false)

  abbrev pub HasText : String → Items → Type 0
  HasText s nil = ⊥
  HasText s (cons (text t) xs) = (s ≡ t) ⊎ HasText s xs
  HasText s (cons x xs) = HasText s xs

  -- The text stands in the value in one of the places that count: under a key with one of the parts, by
  -- itself or in an array of texts; not in an array under such a key, however, if it is deeper.
  unfoldable mutual
    pub Holds : String → Json → Type 0
    Holds s (object fs) = HoldsField s fs
    Holds s (array xs) = HoldsItem s xs
    Holds s null = ⊥
    Holds s (boolean b) = ⊥
    Holds s (number n) = ⊥
    Holds s (text t) = ⊥

    pub HoldsField : String → Fields → Type 0
    HoldsField s end = ⊥
    HoldsField s (field k v fs) = HoldsUnder s k v ⊎ HoldsField s fs

    pub HoldsUnder : String → String → Json → Type 0
    HoldsUnder s k (text t) = (s ≡ t) × (has_part text_keys k ≡ true) × IsContent s
    HoldsUnder s k (array xs) =
        ((has_part array_keys k ≡ true) × HasText s xs × IsContent s)
        ⊎ ((has_part array_keys k ≡ false) × HoldsItem s xs)
    HoldsUnder s k (object fs) = HoldsField s fs
    HoldsUnder s k null = ⊥
    HoldsUnder s k (boolean b) = ⊥
    HoldsUnder s k (number n) = ⊥

    pub HoldsItem : String → Items → Type 0
    HoldsItem s nil = ⊥
    HoldsItem s (cons x xs) = Holds s x ⊎ HoldsItem s xs

  is_delta_iff : (s : String) → (is_delta L s ≡ true) ↔ IsContent s
  unfolding is_delta
  is_delta_iff s = ground (arith, eq_iff s "", eq_iff s "[DONE]")

  Has-append : (s : String) (xs ys : List String) → Has s (xs ++ ys) ↔ (Has s xs ⊎ Has s ys)
  Has-append s [] ys = ground arith
  Has-append s (x ∷ xs) ys = ground (arith, Has-append s xs ys)

  Has-texts_of :
      (s : String) (xs : Items) → Has s (texts_of (is_delta L) xs) ↔ (HasText s xs × IsContent s)
  unfolding texts_of
  Has-texts_of s nil = ground arith
  Has-texts_of s (cons (text t) xs) = ground (arith, Has-texts_of s xs, is_delta_iff t)
  Has-texts_of s (cons null xs) = Has-texts_of s xs
  Has-texts_of s (cons (boolean b) xs) = Has-texts_of s xs
  Has-texts_of s (cons (number n) xs) = Has-texts_of s xs
  Has-texts_of s (cons (array ys) xs) = Has-texts_of s xs
  Has-texts_of s (cons (object fs) xs) = Has-texts_of s xs

  -- What the rule finds at a field, and what is in its value where the rule goes into it.
  abbrev Under : String → Fields → String → Json → Type 0
  Under s cur k v =
      let r = delta_rule L cur k v in
      Has s r.0 ⊎ Has s (only_if (delta_rule L) r.1 (collect (delta_rule L) v))

  abbrev Own : String → Fields → Fields → Type 0
  Own s cur fs = Has s (own (delta_rule L) cur fs) ⊎ Has s (collect_fields (delta_rule L) cur fs)

  Own-field :
      (s k : String) (v : Json) (cur fs : Fields)
      → Own s cur (field k v fs) ↔ (Under s cur k v ⊎ Own s cur fs)
  unfolding own collect
  Own-field s k v cur fs =
      let r = delta_rule L cur k v in
      let deeper = only_if (delta_rule L) r.1 (collect (delta_rule L) v) in
      ground (
        arith,
        Has-append s r.0 (own (delta_rule L) cur fs),
        Has-append s (collect_fields (delta_rule L) cur fs) deeper,
      )

  Under-text : (s k t : String) (cur : Fields) → Under s cur k (text t) ↔ HoldsUnder s k (text t)
  unfolding delta_rule delta_field Holds
  Under-text s k t cur = ground (arith, is_delta_iff t)

  Under-array :
      (s k : String) (xs : Items) (cur : Fields)
      → Has s (collect (delta_rule L) (array xs)) ↔ HoldsItem s xs
      → Under s cur k (array xs) ↔ HoldsUnder s k (array xs)
  unfolding delta_rule delta_field Holds
  Under-array s k xs cur h = elim (Bool-cases (has_part array_keys k)) [
    | inl e ↦ rw e (ground (arith, Has-texts_of s xs))
    | inr e ↦ rw e (ground (arith, h))
  ]

  mutual
    unfolding Holds collect own delta_rule delta_field

    Has-collect : (s : String) (v : Json) → Has s (collect (delta_rule L) v) ↔ Holds s v
    Has-collect s (object fs) = ground (
      arith,
      Has-append s (own (delta_rule L) fs fs) (collect_fields (delta_rule L) fs fs),
      Own-iff s fs fs,
    )
    Has-collect s (array xs) = Has-collect_items s xs
    Has-collect s null = ground arith
    Has-collect s (boolean b) = ground arith
    Has-collect s (number n) = ground arith
    Has-collect s (text t) = ground arith

    Own-iff : (s : String) (cur fs : Fields) → Own s cur fs ↔ HoldsField s fs
    Own-iff s cur end = ground arith
    Own-iff s cur (field k v fs) =
        ground (arith, Own-field s k v cur fs, Own-iff s cur fs, Under-iff s k cur v)

    Under-iff : (s k : String) (cur : Fields) (v : Json) → Under s cur k v ↔ HoldsUnder s k v
    Under-iff s k cur (text t) = Under-text s k t cur
    Under-iff s k cur (array xs) = Under-array s k xs cur (Has-collect_items s xs)
    Under-iff s k cur (object fs) = ground (
      arith,
      Has-append s (own (delta_rule L) fs fs) (collect_fields (delta_rule L) fs fs),
      Own-iff s fs fs,
    )
    Under-iff s k cur null = ground arith
    Under-iff s k cur (boolean b) = ground arith
    Under-iff s k cur (number n) = ground arith

    Has-collect_items :
        (s : String) (xs : Items) → Has s (collect_items (delta_rule L) xs) ↔ HoldsItem s xs
    Has-collect_items s nil = ground arith
    Has-collect_items s (cons x xs) = ground (
      arith,
      Has-append s (collect_items (delta_rule L) xs)
          (only_if (delta_rule L) (is_container x) (collect (delta_rule L) x)),
      Has-collect_items s xs,
      Has-collect s x,
    )

  -- A text is among those that the deep walk of a parsed value finds exactly when it is neither empty
  -- nor the end mark nor a status label, and stands in the value under a key whose lower case contains
  -- delta_content, content, text, delta_text, message or reasoning_content, or in an array under such a
  -- key or one with parts. The walk goes into all objects and arrays but the arrays under such keys.
  pub extract_deltas_from_obj_iff :
      (obj : Json) (s : String) → Has s (extract_deltas_from_obj L obj) ↔ Holds s obj
  extract_deltas_from_obj_iff obj s = rw ((extract_deltas-collect L obj).0) (Has-collect s obj)
