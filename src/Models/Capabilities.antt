-- ===== src/Models/Capabilities.antt =====
-- ai_orchestrator/models/capabilities.py. Capabilities are counted in hundredths, as they are
-- written; the transport, the streaming, tool and concurrency fields of a profile, which nothing
-- reads but to show them, are left out.
use chat_to_agent.Base.{ℕ, String, Bool, List, [], ◌∷◌}
use chat_to_agent.Base.Dict.{Dict}
use chat_to_agent.Base.Number.{Number}

pub record CapabilityVector : Type 0 where
  pub reasoning : ℕ
  pub coding : ℕ
  pub translation : ℕ
  pub multimodality : ℕ
  pub speed : ℕ
  pub reliability : ℕ
  pub cost_efficiency : ℕ
  pub long_context : ℕ

pub record TaskRequirements (F : Type 0) : Type 0 where
  pub context_length : ℕ
  pub requires_reasoning : Bool
  pub requires_coding : Bool
  pub requires_translation : Bool
  pub requires_multimodality : Bool
  pub priority : Dict F

abbrev pub default_priority : {F : Type 0} ⦃o : Number F⦄ → Dict F
default_priority ⦃o⦄ =
    ("reasoning", o.of 5 10)
    ∷ ("coding", o.of 5 10)
    ∷ ("translation", o.of 0 10)
    ∷ ("multimodality", o.of 0 10)
    ∷ []

pub record ProviderCapabilities : Type 0 where
  pub provider_name : String
  pub capabilities : CapabilityVector
  pub context_limit : ℕ

abbrev vector : ℕ → ℕ → ℕ → ℕ → ℕ → ℕ → ℕ → ℕ → CapabilityVector
vector r c t m s re co l = record {
  reasoning = r;
  coding = c;
  translation = t;
  multimodality = m;
  speed = s;
  reliability = re;
  cost_efficiency = co;
  long_context = l;
}

abbrev profile : String → CapabilityVector → ℕ → ProviderCapabilities
profile name v limit = record { provider_name = name; capabilities = v; context_limit = limit }

-- PROVIDER_PROFILES, whose keys are the names of the providers.
unfoldable pub provider_profiles : List ProviderCapabilities
provider_profiles =
    profile "chatgpt_ui" (vector 85 80 75 90 30 30 90 30) 32768
    ∷ profile "qwen_ui" (vector 85 80 85 70 25 25 90 95) 131072
    ∷ profile "local_llm" (vector 50 50 50 20 30 60 100 90) 256000
    ∷ profile "deepseek_ui" (vector 95 95 70 30 25 25 95 90) 1048576
    ∷ profile "z_ai_ui" (vector 80 70 70 50 25 25 95 50) 131072
    ∷ profile "xiaomimimo_ui" (vector 70 60 60 60 25 25 95 50) 131072
    ∷ profile "minimax_ui" (vector 85 75 70 70 25 25 95 50) 131072
    ∷ profile "kimi_ui" (vector 70 60 85 50 25 25 95 85) 128000
    ∷ []
