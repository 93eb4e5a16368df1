-- ===== src/Orchestrator/Gateway/Chat/Reports.antt =====
-- What a chat leaves in the health tracker.
use chat_to_agent.Base.{
  true, true, if◌then◌else◌, to_ℕ, truthy, ℕ, ◌+◌, String, Bool, ◌&&◌, List, [], ◌∷◌, str_eq,
}
use chat_to_agent.Adapters.Sending.{ProviderResponse}
use chat_to_agent.Orchestrator.Health.Counts.{
  Report, success, failure, auth_success, auth_failure, captcha,
}
use chat_to_agent.Orchestrator.Gateway.Chat.{Gateway}

-- How often a provider is asked.
abbrev pub mentions : String → List String → ℕ
mentions p [] = 0
mentions p (name ∷ names) = to_ℕ (str_eq name p) + mentions p names

-- How many of its answers were successes.
abbrev pub succeeded : String → List (String × ProviderResponse) → ℕ
succeeded p [] = 0
succeeded p ((name, r) ∷ xs) = to_ℕ (str_eq name p && r.success) + succeeded p xs

module _ (occurs : String → String → Bool) where
  -- The reports of one result, before others.
  reports_of : ℕ → String × ProviderResponse → List Report → List Report
  reports_of now (name, r) rest =
      if r.success
      then success now name r.latency ∷ auth_success name ∷ rest
      else let text = truthy r.error "" in
        if occurs "AuthenticationError" text
        then failure now name text ∷ auth_failure name ∷ rest
        else if occurs "CloudflareBlockError" text
        then failure now name text ∷ captcha name ∷ rest
        else failure now name text ∷ rest

  abbrev reports : ℕ → List (String × ProviderResponse) → List Report
  reports now [] = []
  reports now (x ∷ xs) = reports_of now x (reports now xs)
