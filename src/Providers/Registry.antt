-- ===== src/Providers/Registry.antt =====
-- crabclaw/providers/registry.py: the list of providers. The names of environment variables, the labels
-- and the parameters of single models are left out.
use crabclaw.Prelude.{Bool, true, false, List, [], ◌∷◌, map}
use crabclaw.Prelude.Text.{Text, codes}

pub record ProviderSpec : Type 0 where
  pub name : Text
  pub keywords : List Text
  pub litellm_prefix : Text
  pub skip_prefixes : List Text
  pub is_gateway : Bool
  pub is_local : Bool
  pub detect_by_key_prefix : Text
  pub detect_by_base_keyword : Text
  pub default_api_base : Text
  pub strip_model_prefix : Bool
  pub is_oauth : Bool
  pub supports_prompt_caching : Bool

abbrev pub custom_spec : ProviderSpec
custom_spec = record {
  name = codes "custom";
  keywords = [];
  litellm_prefix = codes "";
  skip_prefixes = [];
  is_gateway = false;
  is_local = false;
  detect_by_key_prefix = codes "";
  detect_by_base_keyword = codes "";
  default_api_base = codes "";
  strip_model_prefix = false;
  is_oauth = false;
  supports_prompt_caching = false;
}

abbrev pub openrouter_spec : ProviderSpec
openrouter_spec = record {
  name = codes "openrouter";
  keywords = map codes ("openrouter" ∷ []);
  litellm_prefix = codes "openrouter";
  skip_prefixes = [];
  is_gateway = true;
  is_local = false;
  detect_by_key_prefix = codes "sk-or-";
  detect_by_base_keyword = codes "openrouter";
  default_api_base = codes "https://openrouter.ai/api/v1";
  strip_model_prefix = false;
  is_oauth = false;
  supports_prompt_caching = true;
}

abbrev pub aihubmix_spec : ProviderSpec
aihubmix_spec = record {
  name = codes "aihubmix";
  keywords = map codes ("aihubmix" ∷ []);
  litellm_prefix = codes "openai";
  skip_prefixes = [];
  is_gateway = true;
  is_local = false;
  detect_by_key_prefix = codes "";
  detect_by_base_keyword = codes "aihubmix";
  default_api_base = codes "https://aihubmix.com/v1";
  strip_model_prefix = true;
  is_oauth = false;
  supports_prompt_caching = false;
}

abbrev pub siliconflow_spec : ProviderSpec
siliconflow_spec = record {
  name = codes "siliconflow";
  keywords = map codes ("siliconflow" ∷ []);
  litellm_prefix = codes "openai";
  skip_prefixes = [];
  is_gateway = true;
  is_local = false;
  detect_by_key_prefix = codes "";
  detect_by_base_keyword = codes "siliconflow";
  default_api_base = codes "https://api.siliconflow.cn/v1";
  strip_model_prefix = false;
  is_oauth = false;
  supports_prompt_caching = false;
}

abbrev pub volcengine_spec : ProviderSpec
volcengine_spec = record {
  name = codes "volcengine";
  keywords = map codes ("volcengine" ∷ "volces" ∷ "ark" ∷ []);
  litellm_prefix = codes "volcengine";
  skip_prefixes = [];
  is_gateway = true;
  is_local = false;
  detect_by_key_prefix = codes "";
  detect_by_base_keyword = codes "volces";
  default_api_base = codes "https://ark.cn-beijing.volces.com/api/v3";
  strip_model_prefix = false;
  is_oauth = false;
  supports_prompt_caching = false;
}

abbrev pub anthropic_spec : ProviderSpec
anthropic_spec = record {
  name = codes "anthropic";
  keywords = map codes ("anthropic" ∷ "claude" ∷ []);
  litellm_prefix = codes "";
  skip_prefixes = [];
  is_gateway = false;
  is_local = false;
  detect_by_key_prefix = codes "";
  detect_by_base_keyword = codes "";
  default_api_base = codes "";
  strip_model_prefix = false;
  is_oauth = false;
  supports_prompt_caching = true;
}

abbrev pub openai_spec : ProviderSpec
openai_spec = record {
  name = codes "openai";
  keywords = map codes ("openai" ∷ "gpt" ∷ []);
  litellm_prefix = codes "";
  skip_prefixes = [];
  is_gateway = false;
  is_local = false;
  detect_by_key_prefix = codes "";
  detect_by_base_keyword = codes "";
  default_api_base = codes "";
  strip_model_prefix = false;
  is_oauth = false;
  supports_prompt_caching = false;
}

abbrev pub openai_codex_spec : ProviderSpec
openai_codex_spec = record {
  name = codes "openai_codex";
  keywords = map codes ("openai-codex" ∷ []);
  litellm_prefix = codes "";
  skip_prefixes = [];
  is_gateway = false;
  is_local = false;
  detect_by_key_prefix = codes "";
  detect_by_base_keyword = codes "codex";
  default_api_base = codes "https://chatgpt.com/backend-api";
  strip_model_prefix = false;
  is_oauth = true;
  supports_prompt_caching = false;
}

abbrev pub github_copilot_spec : ProviderSpec
github_copilot_spec = record {
  name = codes "github_copilot";
  keywords = map codes ("github_copilot" ∷ "copilot" ∷ []);
  litellm_prefix = codes "github_copilot";
  skip_prefixes = map codes ("github_copilot/" ∷ []);
  is_gateway = false;
  is_local = false;
  detect_by_key_prefix = codes "";
  detect_by_base_keyword = codes "";
  default_api_base = codes "";
  strip_model_prefix = false;
  is_oauth = true;
  supports_prompt_caching = false;
}

abbrev pub deepseek_spec : ProviderSpec
deepseek_spec = record {
  name = codes "deepseek";
  keywords = map codes ("deepseek" ∷ []);
  litellm_prefix = codes "deepseek";
  skip_prefixes = map codes ("deepseek/" ∷ []);
  is_gateway = false;
  is_local = false;
  detect_by_key_prefix = codes "";
  detect_by_base_keyword = codes "";
  default_api_base = codes "";
  strip_model_prefix = false;
  is_oauth = false;
  supports_prompt_caching = false;
}

abbrev pub gemini_spec : ProviderSpec
gemini_spec = record {
  name = codes "gemini";
  keywords = map codes ("gemini" ∷ []);
  litellm_prefix = codes "gemini";
  skip_prefixes = map codes ("gemini/" ∷ []);
  is_gateway = false;
  is_local = false;
  detect_by_key_prefix = codes "";
  detect_by_base_keyword = codes "";
  default_api_base = codes "";
  strip_model_prefix = false;
  is_oauth = false;
  supports_prompt_caching = false;
}

abbrev pub zhipu_spec : ProviderSpec
zhipu_spec = record {
  name = codes "zhipu";
  keywords = map codes ("zhipu" ∷ "glm" ∷ "zai" ∷ []);
  litellm_prefix = codes "zai";
  skip_prefixes = map codes ("zhipu/" ∷ "zai/" ∷ "openrouter/" ∷ "hosted_vllm/" ∷ []);
  is_gateway = false;
  is_local = false;
  detect_by_key_prefix = codes "";
  detect_by_base_keyword = codes "";
  default_api_base = codes "";
  strip_model_prefix = false;
  is_oauth = false;
  supports_prompt_caching = false;
}

abbrev pub dashscope_spec : ProviderSpec
dashscope_spec = record {
  name = codes "dashscope";
  keywords = map codes ("qwen" ∷ "dashscope" ∷ []);
  litellm_prefix = codes "dashscope";
  skip_prefixes = map codes ("dashscope/" ∷ "openrouter/" ∷ []);
  is_gateway = false;
  is_local = false;
  detect_by_key_prefix = codes "";
  detect_by_base_keyword = codes "";
  default_api_base = codes "";
  strip_model_prefix = false;
  is_oauth = false;
  supports_prompt_caching = false;
}

abbrev pub moonshot_spec : ProviderSpec
moonshot_spec = record {
  name = codes "moonshot";
  keywords = map codes ("moonshot" ∷ "kimi" ∷ []);
  litellm_prefix = codes "moonshot";
  skip_prefixes = map codes ("moonshot/" ∷ "openrouter/" ∷ []);
  is_gateway = false;
  is_local = false;
  detect_by_key_prefix = codes "";
  detect_by_base_keyword = codes "";
  default_api_base = codes "https://api.moonshot.ai/v1";
  strip_model_prefix = false;
  is_oauth = false;
  supports_prompt_caching = false;
}

abbrev pub minimax_spec : ProviderSpec
minimax_spec = record {
  name = codes "minimax";
  keywords = map codes ("minimax" ∷ []);
  litellm_prefix = codes "minimax";
  skip_prefixes = map codes ("minimax/" ∷ "openrouter/" ∷ []);
  is_gateway = false;
  is_local = false;
  detect_by_key_prefix = codes "";
  detect_by_base_keyword = codes "";
  default_api_base = codes "https://api.minimax.io/v1";
  strip_model_prefix = false;
  is_oauth = false;
  supports_prompt_caching = false;
}

abbrev pub vllm_spec : ProviderSpec
vllm_spec = record {
  name = codes "vllm";
  keywords = map codes ("vllm" ∷ []);
  litellm_prefix = codes "hosted_vllm";
  skip_prefixes = [];
  is_gateway = false;
  is_local = true;
  detect_by_key_prefix = codes "";
  detect_by_base_keyword = codes "";
  default_api_base = codes "";
  strip_model_prefix = false;
  is_oauth = false;
  supports_prompt_caching = false;
}

abbrev pub groq_spec : ProviderSpec
groq_spec = record {
  name = codes "groq";
  keywords = map codes ("groq" ∷ []);
  litellm_prefix = codes "groq";
  skip_prefixes = map codes ("groq/" ∷ []);
  is_gateway = false;
  is_local = false;
  detect_by_key_prefix = codes "";
  detect_by_base_keyword = codes "";
  default_api_base = codes "";
  strip_model_prefix = false;
  is_oauth = false;
  supports_prompt_caching = false;
}

-- `PROVIDERS`
abbrev pub providers : List ProviderSpec
providers =
    custom_spec ∷ openrouter_spec ∷ aihubmix_spec ∷ siliconflow_spec ∷ volcengine_spec
    ∷ anthropic_spec ∷ openai_spec ∷ openai_codex_spec ∷ github_copilot_spec ∷ deepseek_spec
    ∷ gemini_spec ∷ zhipu_spec ∷ dashscope_spec ∷ moonshot_spec ∷ minimax_spec ∷ vllm_spec
    ∷ groq_spec ∷ []
