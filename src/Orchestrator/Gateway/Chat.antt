-- ===== src/Orchestrator/Gateway/Chat.antt =====
-- The chat endpoint of ai_orchestrator/orchestrator/main.py. What an adapter answers or raises, whether
-- its credentials are read without an exception, and Python's `in` on texts are arguments. Sending to
-- the adapters at the same time gives the same answers in the same order, so `parallel` is left out;
-- an exception of the shared browser's launch is not modelled.
pub mod Reports
use chat_to_agent.Base.{
  if◌then◌else◌, truthy, any, all, ℕ, ◌+◌, String, Bool, false, ◌&&◌, Option, none, some, List, [],
  ◌∷◌, map, str_eq,
}
use chat_to_agent.Base.Exec.{Outcome, returned, raised}
use chat_to_agent.Adapters.Sending.{ProviderResponse}
use chat_to_agent.Orchestrator.Health.{
  Tracker, record_success, record_failure, record_auth_success, record_auth_failure, record_captcha,
}
use chat_to_agent.Orchestrator.Gateway.{Gateway, HttpError, http, Endpoint}

pub record ChatRequest : Type 0 where
  pub prompt : String
  pub provider : Option String
  pub providers : List String

-- The keys of _PROVIDER_CLASS_MAP.
abbrev pub provider_classes : List String
provider_classes =
    "chatgpt_ui" ∷ "deepseek_ui" ∷ "kimi_ui" ∷ "qwen_ui" ∷ "z_ai_ui" ∷ "xiaomimimo_ui"
    ∷ "minimax_ui" ∷ "local_llm" ∷ []

-- The providers that are asked; `none` is 400.
unfoldable pub names_asked : ChatRequest → Option (List String)
names_asked req = asked req.providers req.provider
  where
    asked : List String → Option String → Option (List String)
    asked (p ∷ ps) provider = some (p ∷ ps)
    asked [] (some p) = if str_eq p "" then none else some (p ∷ [])
    asked [] none = none

-- A response, or the response that stands for an exception.
abbrev response_of : String → Outcome String ProviderResponse → ProviderResponse
response_of name (returned r) = r
response_of name (raised text) = record {
  success = false;
  content = "";
  reasoning_content = none;
  model = name;
  error = some text;
  latency = 0;
}

pub record ChatResult : Type 0 where
  pub provider : String
  pub success : Bool
  pub content : String
  pub model : String
  pub latency : ℕ
  pub error : Option String

unfoldable pub to_chat_result : String × ProviderResponse → ChatResult
to_chat_result (name, r) = record {
  provider = name;
  success = r.success;
  content = r.content;
  model = r.model;
  latency = r.latency;
  error = r.error;
}

-- An adapter is built for every provider, or the answer is 400.
unfoldable pub buildable : (String → Bool) → String → Bool
buildable credentials_read name = any (str_eq name) provider_classes && credentials_read name

-- The n-th call of `send`, counted from the given number, is to the adapter of this provider; a
-- provider that is asked twice may answer differently.
unfoldable pub answers :
    (ℕ → String → Outcome String ProviderResponse)
    → ℕ
    → List String
    → List (String × ProviderResponse)
answers send n [] = []
answers send n (name ∷ names) = (name, response_of name (send n name)) ∷ answers send (n + 1) names

module _ (occurs : String → String → Bool) where
  -- The health of one result.
  unfoldable pub record_result : ℕ → String × ProviderResponse → Tracker → Tracker
  unfolding record_success record_failure record_auth_success record_auth_failure record_captcha
  record_result now (name, r) t =
      if r.success
      then record_auth_success name (record_success now name r.latency t)
      else let text = truthy r.error "" in
        let failed = record_failure now name text t in
        if occurs "AuthenticationError" text
        then record_auth_failure name failed
        else if occurs "CloudflareBlockError" text
        then record_captcha name failed
        else failed

  unfoldable pub record_results : ℕ → List (String × ProviderResponse) → Tracker → Tracker
  unfolding record_result
  record_results now [] t = t
  record_results now (x ∷ xs) t = record_results now xs (record_result now x t)

unfoldable pub chat :
    (occurs : String → String → Bool) (credentials_read : String → Bool)
    (send : ℕ → String → Outcome String ProviderResponse)
    → ℕ
    → ChatRequest
    → Endpoint (List ChatResult)
unfolding names_asked buildable answers record_results to_chat_result
chat occurs credentials_read send now req g = elim (names_asked req) [
  | none ↦ (raised (http 400), g)
  | some names ↦
      if all (buildable credentials_read) names
      then (
        returned (map to_chat_result (answers send 0 names)),
        record g {
          health_tracker = record_results occurs now (answers send 0 names) g.health_tracker;
        },
      )
      else (raised (http 400), g)
]
