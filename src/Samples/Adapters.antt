-- ===== src/Samples/Adapters.antt =====
-- An adapter whose provider fails, by its responses and by exceptions.
use chat_to_agent.Base.{ℕ, ◌≡◌, refl, true, false, String, List, [], ◌∷◌, Option, none}
use chat_to_agent.Base.Exec.{returned, raised}
use chat_to_agent.Adapters.Sending.{ProviderResponse, Adapter, new, failed_response, protected_send}

abbrev accept : ProviderResponse → Option String
accept r = none

abbrev refusals : List (ℕ × ℕ × ProviderResponse)
refusals =
    (1, 2, failed_response "quota" 5)
    ∷ (3, 4, failed_response "quota" 5)
    ∷ (5, 6, failed_response "quota" 5)
    ∷ (7, 8, failed_response "quota" 5)
    ∷ []

abbrev twice : Adapter
twice =
    (protected_send accept 3 4 (raised "reset")
      (protected_send accept 1 2 (raised "reset") (new false)).1).1

abbrev thrice : Adapter
thrice = (protected_send accept 5 6 (raised "reset") twice).1

abbrev answer : ProviderResponse
answer = record (failed_response "" 9) { success = true; content = "hello"; error = none }

-- A minute later the answer gets through.
recovered : (protected_send accept 60_000_006 60_000_007 (returned answer) thrice).0 ≡ answer
unfolding protected_send new
recovered = refl
