-- ===== src/Adapters/Sending/Failing.antt =====
-- What failures do to the breaker of an adapter.
use chat_to_agent.Base.{ℕ, ◌+◌, ◌<◌, String, ◌≡◌, refl, Bool, false, Option, List, [], ◌∷◌, arith}
use chat_to_agent.Base.Exec.{Outcome, returned, raised}
use chat_to_agent.Utils.Breaker.{closed, call}
use chat_to_agent.Adapters.Sending.{
  ProviderResponse, Adapter, new, failed_response, protected_send, safe_health_check,
}

module _ (validate : ProviderResponse → Option String) where
  -- Sends one after the other, with their times and the responses that the adapter's `send` returns.
  abbrev pub answer_all : Adapter → List (ℕ × ℕ × ProviderResponse) → Adapter
  answer_all a [] = a
  answer_all a ((now, later, r) ∷ cs) =
      answer_all (protected_send validate now later (returned r) a).1 cs

  send-returned :
      (now later : ℕ) (r : ProviderResponse) (a : Adapter)
      → a.circuit_breaker.state ≡ closed
      → let b = (protected_send validate now later (returned r) a).1.circuit_breaker in
        (b.state ≡ closed) × (b.failure_count ≡ 0)
  unfolding protected_send call
  send-returned now later r a s = ground arith

  answer_all-closed :
      (a : Adapter) (cs : List (ℕ × ℕ × ProviderResponse))
      → a.circuit_breaker.state ≡ closed
      → a.circuit_breaker.failure_count ≡ 0
      → let b = (answer_all a cs).circuit_breaker in (b.state ≡ closed) × (b.failure_count ≡ 0)
  answer_all-closed a [] s z = (s, z)
  answer_all-closed a ((now, later, r) ∷ cs) s z =
      let (s', z') = send-returned now later r a s in
      answer_all-closed (protected_send validate now later (returned r) a).1 cs s' z'

  -- However many responses in a row report a failure instead of raising it, the breaker of a new
  -- adapter stays CLOSED with no failure counted.
  pub new-answer_all-closed :
      (validating : Bool) (cs : List (ℕ × ℕ × ProviderResponse))
      → let b = (answer_all (new validating) cs).circuit_breaker in
        (b.state ≡ closed) × (b.failure_count ≡ 0)
  unfolding new
  new-answer_all-closed validating cs = answer_all-closed (new validating) cs refl refl

  -- After three sends in a row that raise, from a new adapter, each send within a minute is answered
  -- with the breaker's error whatever the provider would do, and the adapter counts as unhealthy.
  pub three_failures-open :
      (validating : Bool) (n₁ l₁ n₂ l₂ n₃ l₃ now later : ℕ) (e₁ e₂ e₃ : String)
      (sent : Outcome String ProviderResponse) (healthy : Option Bool)
      → now < l₃ + 60_000_000
      → let a₁ = (protected_send validate n₁ l₁ (raised e₁) (new validating)).1 in
        let a₂ = (protected_send validate n₂ l₂ (raised e₂) a₁).1 in
        let a₃ = (protected_send validate n₃ l₃ (raised e₃) a₂).1 in
        ((protected_send validate now later sent a₃).0
          ≡ failed_response "Circuit breaker is OPEN" 0)
        × ((safe_health_check now healthy a₃).0 ≡ false)
  unfolding new protected_send safe_health_check
  three_failures-open validating n₁ l₁ n₂ l₂ n₃ l₃ now later e₁ e₂ e₃ sent healthy h = ground arith
