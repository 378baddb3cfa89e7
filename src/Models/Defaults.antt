-- ===== src/Models/Defaults.antt =====
-- sifter/src/aa_sifter/model_defaults.py
use aa.Prelude.{ℕ, String}

abbrev pub default_local_provider : String
default_local_provider = "ollama"

abbrev pub default_local_model : String
default_local_model = "qwen3.5:9b"

abbrev pub default_local_context : ℕ
default_local_context = 64000

abbrev pub default_local_max_output : ℕ
default_local_max_output = 4096

abbrev pub default_expert_provider : String
default_expert_provider = "deepseek"

abbrev pub default_expert_model : String
default_expert_model = "deepseek-chat"

abbrev pub default_expert_endpoint : String
default_expert_endpoint = "https://api.deepseek.com/v1"

abbrev pub default_expert_api_key_env : String
default_expert_api_key_env = "DEEPSEEK_API_KEY"

abbrev pub default_expert_context : ℕ
default_expert_context = 64000

abbrev pub default_expert_max_output : ℕ
default_expert_max_output = 8192

abbrev pub default_routing_policy : String
default_routing_policy = "adaptive"
