-- ===== src/Workspace/Texts.antt =====
-- Python's `str.count`, `str.replace` and `str.startswith`, on the code points of a text: matches are
-- taken from the left and do not overlap.
pub mod Matches
use chat_to_agent.Base.{
  ◌==◌, if◌then◌else◌, to_ℕ, length, ℕ, zero, suc, ◌+◌, Bool, true, false, ◌&&◌, List, [], ◌∷◌,
  ◌++◌,
}

abbrev pub Text : Type 0
Text = List ℕ

unfoldable pub starts_with : Text → Text → Bool
starts_with [] s = true
starts_with (o ∷ old) [] = false
starts_with (o ∷ old) (c ∷ s) = (o == c) && starts_with old s

-- The characters of a match after its first.
abbrev pub rest_of : Bool → Text → ℕ
rest_of hit old = if hit then length old else 0

-- Beside the text, the characters of the last match that are still to pass.
unfoldable pub count_from : ℕ → Text → ℕ → Text → ℕ
unfolding starts_with
count_from o old k [] = 0
count_from o old (suc k) (c ∷ s) = count_from o old k s
count_from o old zero (c ∷ s) =
    let hit = starts_with (o ∷ old) (c ∷ s) in to_ℕ hit + count_from o old (rest_of hit old) s

-- s.count(old)
unfoldable pub count : Text → Text → ℕ
unfolding count_from
count [] s = suc (length s)
count (o ∷ old) s = count_from o old 0 s

unfoldable pub replace_from : ℕ → Text → Text → ℕ → Text → Text
unfolding starts_with
replace_from o old new k [] = []
replace_from o old new (suc k) (c ∷ s) = replace_from o old new k s
replace_from o old new zero (c ∷ s) =
    let hit = starts_with (o ∷ old) (c ∷ s) in
    let rest = replace_from o old new (rest_of hit old) s in if hit then new ++ rest else c ∷ rest

-- The text before every character and at the end.
unfoldable pub weave : Text → Text → Text
weave new [] = new
weave new (c ∷ s) = new ++ (c ∷ weave new s)

-- s.replace(old, new)
unfoldable pub replace : Text → Text → Text → Text
unfolding replace_from weave
replace [] new s = weave new s
replace (o ∷ old) new s = replace_from o old new 0 s
