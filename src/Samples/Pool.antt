-- ===== src/Samples/Pool.antt =====
-- A pool of two engines, asked for three.
use chat_to_agent.Base.{length, ℕ, ◌≤◌, String, ◌≡◌, refl, true, List, [], ◌∷◌}
use chat_to_agent.Base.Members.{times}
use chat_to_agent.Intelligence.Pool.{Page, new_pool, get_or_create, keys_of}
use chat_to_agent.Intelligence.Pool.Capacity.{Call, gets, run, run-size-le}

abbrev page : String → ℕ → Page
page a n = record { address = a; object = n }

abbrev calls : List Call
calls =
    gets 1 (page "p" 1) "kimi_ui" 10 true
    ∷ gets 2 (page "q" 2) "qwen_ui" 11 true
    ∷ gets 3 (page "p" 1) "kimi_ui" 12 true
    ∷ gets 4 (page "r" 3) "kimi_ui" 13 true
    ∷ []

run-size-le_example :
    let p = run (new_pool 2 600) calls in
    (length p.entries ≤ 2) × (times "p" (keys_of p.entries) ≤ 1)
run-size-le_example = run-size-le 2 600 calls "p"

-- The page used least recently makes room, but its engine is not detached.
oldest_evicted :
    (keys_of (run (new_pool 2 600) calls).entries ≡ "p" ∷ "r" ∷ [])
    × ((run (new_pool 2 600) calls).evictions ≡ 1)
    × ((run (new_pool 2 600) calls).detached ≡ [])
unfolding run get_or_create
oldest_evicted = (refl, refl, refl)
