-- ===== src/Adapters/Extraction/Walks.antt =====
-- The two deep walks, without their stacks.
use chat_to_agent.Base.{◌≡◌}
use chat_to_agent.Adapters.Json.{Json}
use chat_to_agent.Adapters.Json.Collected.{collect, walk_all-collect}
use chat_to_agent.Adapters.Extraction.{
  Texts, delta_rule, reasoning_rule, extract_deltas_from_obj, extract_reasoning_deltas_from_obj,
}

-- Both walks of a parsed value end by having looked at everything, and give what is found by recursion:
-- of an object what the rule finds at its own fields, in their order, and then what is in the values
-- that the rule goes into, the last of them first; of an array what is in its items, the last first.
pub extract_deltas-collect :
    (L : Texts) (obj : Json)
    → (extract_deltas_from_obj L obj ≡ collect (delta_rule L) obj)
      × (extract_reasoning_deltas_from_obj L obj ≡ collect (reasoning_rule L) obj)
unfolding extract_deltas_from_obj extract_reasoning_deltas_from_obj
extract_deltas-collect L obj =
    (walk_all-collect (delta_rule L) obj, walk_all-collect (reasoning_rule L) obj)
