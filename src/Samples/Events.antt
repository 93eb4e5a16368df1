-- ===== src/Samples/Events.antt =====
-- A bus that remembers two events.
use chat_to_agent.Base.{length, last_n, ℕ, String, ◌≡◌, refl, true, false, List, [], ◌∷◌}
use chat_to_agent.Intelligence.Events.{
  IntelligenceEvent, EventBus, generic, new_bus, subscribe, dispatch_async,
}
use chat_to_agent.Intelligence.Events.Retained.{
  Call, publishes, clears, run, published, run-history,
}

abbrev event : String → IntelligenceEvent ℕ
event i = record { type = generic; payload = 0; timestamp = 1; event_id = i; source = "" }

abbrev calls : List (Call ℕ)
calls =
    publishes (event "0")
    ∷ clears
    ∷ publishes (event "a")
    ∷ publishes (event "b")
    ∷ publishes (event "c")
    ∷ []

run-history_example :
    let b = run (new_bus 2) calls in
    (b.history ≡ last_n 2 (published [] calls)) × (b.emitted ≡ length (published [] calls))
run-history_example = run-history 2 calls

last_two : last_n 2 (published [] calls) ≡ event "b" ∷ event "c" ∷ []
last_two = refl

abbrev heard : EventBus ℕ
heard = subscribe "save" true (subscribe "log" false (subscribe "save" true (new_bus 2)))

saved_once : dispatch_async heard ≡ "save" ∷ []
unfolding dispatch_async subscribe
saved_once = refl
