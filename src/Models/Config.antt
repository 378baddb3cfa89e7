-- ===== src/Models/Config.antt =====
-- `ModelConfig` and `SifterConfig` of sifter/src/aa_sifter/models/config.py. Whole numbers of the
-- configuration are natural numbers; floats are those of the interface.
use aa.Prelude.{
  ℕ, String, Bool, true, false, not, Option, none, some, ◌==◌, if◌then◌else◌, ◌≡◌, arith,
}
use aa.Prelude.Float.{Float}
use aa.Models.Provider.{Tier, local, expert}
use aa.Models.Defaults.{
  default_local_provider, default_local_model, default_local_context, default_expert_provider,
  default_expert_model, default_expert_context, default_expert_api_key_env, default_routing_policy,
}

pub record ModelConfig (F : Type 0) : Type 0 where
  pub name : String
  pub provider : String
  pub tier : Tier
  pub context_limit : ℕ
  pub input_cost_per_mtok : F
  pub output_cost_per_mtok : F
  pub timeout_seconds : F

pub record SifterConfig (F : Type 0) : Type 0 where
  pub ollama_host : String
  pub local_provider : String
  pub local_endpoint : Option String
  pub local_api_key_env : Option String
  pub local_model : String
  pub local_context_limit : ℕ
  pub local_confidence_threshold : F
  pub local_max_retries : ℕ
  pub local_max_output_tokens : Option ℕ
  pub local_temperature : Option F
  pub expert_provider : String
  pub expert_endpoint : Option String
  pub expert_api_key_env : Option String
  pub cloud_model : String
  pub cloud_context_limit : ℕ
  pub cloud_input_cost_per_mtok : F
  pub cloud_output_cost_per_mtok : F
  pub expert_max_output_tokens : Option ℕ
  pub expert_temperature : Option F
  pub cloud_allowed : Bool
  pub prefer_local : Bool
  pub cost_sensitive : Bool
  pub privacy_sensitive : Bool
  pub config_profile : Option String
  pub routing_policy : String
  pub max_cloud_calls_per_task : ℕ
  pub max_cloud_tokens_per_task : ℕ
  pub max_cloud_cost_per_task : F
  pub max_parallel_cloud_calls : ℕ
  pub max_parallel_local_calls : ℕ
  pub request_timeout_seconds : F
  pub human_approval_for_major_decisions : Bool
  pub human_approval_for_critical_decisions : Bool
  pub human_approval_for_significant_decisions : Bool
  pub non_interactive : Bool
  pub redact_secrets : Bool
  pub debug : Bool
  pub database_path : String

module _ {F : Type 0} ⦃fl : Float F⦄ where
  -- `estimate_cost`
  unfoldable pub estimate_cost : ModelConfig F → ℕ → ℕ → F
  estimate_cost m input_tokens output_tokens =
      fl.add (fl.mul (fl.div (fl.of_ℕ input_tokens) (fl.of_ℕ 1000000)) m.input_cost_per_mtok)
        (fl.mul (fl.div (fl.of_ℕ output_tokens) (fl.of_ℕ 1000000)) m.output_cost_per_mtok)

  -- The fields' defaults: `SifterConfig()`.
  abbrev pub default_config : SifterConfig F
  default_config = record {
    ollama_host = "http://localhost:11434";
    local_provider = default_local_provider;
    local_endpoint = none;
    local_api_key_env = none;
    local_model = default_local_model;
    local_context_limit = default_local_context;
    local_confidence_threshold = fl.decimal 72 2;
    local_max_retries = 2;
    local_max_output_tokens = none;
    local_temperature = some (fl.decimal 2 1);
    expert_provider = default_expert_provider;
    expert_endpoint = none;
    expert_api_key_env = some default_expert_api_key_env;
    cloud_model = default_expert_model;
    cloud_context_limit = default_expert_context;
    cloud_input_cost_per_mtok = fl.decimal 14 2;
    cloud_output_cost_per_mtok = fl.decimal 28 2;
    expert_max_output_tokens = none;
    expert_temperature = some (fl.decimal 2 1);
    cloud_allowed = true;
    prefer_local = true;
    cost_sensitive = true;
    privacy_sensitive = true;
    config_profile = none;
    routing_policy = default_routing_policy;
    max_cloud_calls_per_task = 5;
    max_cloud_tokens_per_task = 200000;
    max_cloud_cost_per_task = fl.decimal 20 1;
    max_parallel_cloud_calls = 2;
    max_parallel_local_calls = 1;
    request_timeout_seconds = fl.decimal 3000 1;
    human_approval_for_major_decisions = true;
    human_approval_for_critical_decisions = true;
    human_approval_for_significant_decisions = false;
    non_interactive = false;
    redact_secrets = true;
    debug = false;
    database_path = "~/.aa_sifter/aa_sifter.db";
  }

  -- `_enforce_safety`, the validator that runs on construction and on assignment.
  unfoldable pub enforce_safety : SifterConfig F → SifterConfig F
  enforce_safety c = record c {
    human_approval_for_critical_decisions =
        if not c.human_approval_for_critical_decisions
        then true
        else c.human_approval_for_critical_decisions;
    human_approval_for_major_decisions =
        if not c.human_approval_for_major_decisions
        then true
        else c.human_approval_for_major_decisions;
    local_context_limit = if c.local_context_limit == 0 then 64000 else c.local_context_limit;
    max_cloud_cost_per_task =
        if fl.lt c.max_cloud_cost_per_task (fl.of_ℕ 0)
        then fl.of_ℕ 0
        else c.max_cloud_cost_per_task;
  }

  -- `local_model_config` and `cloud_model_config`
  unfoldable pub local_model_config : SifterConfig F → ModelConfig F
  local_model_config c = record {
    name = c.local_model;
    provider = c.local_provider;
    tier = local;
    context_limit = c.local_context_limit;
    input_cost_per_mtok = fl.of_ℕ 0;
    output_cost_per_mtok = fl.of_ℕ 0;
    timeout_seconds = c.request_timeout_seconds;
  }

  unfoldable pub cloud_model_config : SifterConfig F → ModelConfig F
  cloud_model_config c = record {
    name = c.cloud_model;
    provider = c.expert_provider;
    tier = expert;
    context_limit = c.cloud_context_limit;
    input_cost_per_mtok = c.cloud_input_cost_per_mtok;
    output_cost_per_mtok = c.cloud_output_cost_per_mtok;
    timeout_seconds = c.request_timeout_seconds;
  }

-- What `_enforce_safety` establishes.
pub record IsSafe {F : Type 0} (c : SifterConfig F) : Type 0 where
  pub major_gate : c.human_approval_for_major_decisions ≡ true
  pub critical_gate : c.human_approval_for_critical_decisions ≡ true

module _ {F : Type 0} ⦃fl : Float F⦄ where
  -- A validated configuration keeps both gates, whatever was asked for.
  pub enforce_safety-IsSafe : (c : SifterConfig F) → IsSafe (enforce_safety c)
  unfolding enforce_safety
  enforce_safety-IsSafe c = ground arith
