-- ===== src/Tests/Providers.antt =====
-- The choice of a provider at concrete inputs.
use crabclaw.Prelude.{◌≡◌, refl, none, some, [], ◌∷◌}
use crabclaw.Prelude.Text.{Text, codes, list_eq}
use crabclaw.Providers.{
  ProviderConfig, Config, by_prefix, by_keyword, by_fallback, match_provider, get_api_base,
  find_gateway, resolve_model,
}
use crabclaw.Providers.Registry.{providers, aihubmix_spec}
use crabclaw.Providers.Matching.{IsChoice, match_provider-IsChoice}
use crabclaw.Providers.Names.{resolve_model-resolve_model}

abbrev lower : Text → Text
lower s = s

abbrev keyed : ProviderConfig
keyed = record { api_key = codes "sk-1"; api_base = none }

abbrev blank : ProviderConfig
blank = record { api_key = []; api_base = none }

abbrev config : Config
config = record {
  provider = codes "auto";
  providers =
      (codes "openrouter", keyed)
      ∷ (codes "anthropic", keyed)
      ∷ (codes "openai", blank)
      ∷ (codes "github_copilot", blank)
      ∷ [];
}

-- by a keyword, by the prefix of the model (an OAuth provider needs no key), and by default
matched :
    (match_provider lower config (codes "claude-3") ≡ some (keyed, codes "anthropic"))
    × (match_provider lower config (codes "github-copilot/gpt-5")
        ≡ some (blank, codes "github_copilot"))
    × (match_provider lower config (codes "gpt-5") ≡ some (keyed, codes "openrouter"))
unfolding match_provider
matched = (refl, refl, refl)

-- Only a gateway has a base address by default.
bases :
    (get_api_base lower config (codes "claude-3") ≡ none)
    × (get_api_base lower config (codes "gpt-5") ≡ some (codes "https://openrouter.ai/api/v1"))
unfolding get_api_base
bases = (refl, refl)

detected :
    find_gateway (codes "anthropic") (codes "sk-1") (codes "https://aihubmix.com/v1")
    ≡ some aihubmix_spec
unfolding find_gateway
detected = refl

renamed :
    (resolve_model lower (some aihubmix_spec) (codes "anthropic/claude-3")
      ≡ codes "openai/claude-3")
    × (resolve_model lower none (codes "github-copilot/gpt-5") ≡ codes "github_copilot/gpt-5")
    × (resolve_model lower none (codes "glm-4") ≡ codes "zai/glm-4")
unfolding resolve_model
renamed = (refl, refl, refl)

match_provider-IsChoice_example :
    IsChoice
      (by_prefix lower (codes "gpt-5"))
      (by_keyword lower (codes "gpt-5"))
      by_fallback
      config.providers
      providers
      (match_provider lower config (codes "gpt-5"))
match_provider-IsChoice_example = match_provider-IsChoice lower config (codes "gpt-5") refl

resolve_model-resolve_model_example :
    resolve_model lower
      (some aihubmix_spec)
      (resolve_model lower (some aihubmix_spec) (codes "anthropic/claude-3"))
    ≡ resolve_model lower (some aihubmix_spec) (codes "anthropic/claude-3")
resolve_model-resolve_model_example =
    resolve_model-resolve_model lower aihubmix_spec (codes "anthropic/claude-3")
