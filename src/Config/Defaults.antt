-- ===== src/Config/Defaults.antt =====
-- sifter/src/aa_sifter/config/defaults.py
use aa.Prelude.{[], ◌∷◌, String, true, none, some}
use aa.Prelude.Float.{Float}
use aa.Config.Schema.{
  ModelTierConfig, ComputeProfile, ApplicationConfig, default_budget, default_approval,
}
use aa.Models.Defaults.{
  default_local_provider, default_local_model, default_local_context, default_local_max_output,
  default_expert_provider, default_expert_model, default_expert_endpoint,
  default_expert_api_key_env, default_expert_context, default_expert_max_output,
  default_routing_policy,
}

module _ {F : Type 0} ⦃fl : Float F⦄ where
  abbrev pub default_local_tier : ModelTierConfig F
  default_local_tier = record {
    provider = default_local_provider;
    model = default_local_model;
    endpoint = none;
    api_key_env = none;
    context_limit = some default_local_context;
    max_output_tokens = some default_local_max_output;
    temperature = some (fl.decimal 2 1);
    input_cost_per_mtok = none;
    output_cost_per_mtok = none;
    enabled = true;
  }

  abbrev pub default_expert_tier : ModelTierConfig F
  default_expert_tier = record {
    provider = default_expert_provider;
    model = default_expert_model;
    endpoint = some default_expert_endpoint;
    api_key_env = some default_expert_api_key_env;
    context_limit = some default_expert_context;
    max_output_tokens = some default_expert_max_output;
    temperature = some (fl.decimal 2 1);
    input_cost_per_mtok = some (fl.decimal 14 2);
    output_cost_per_mtok = some (fl.decimal 28 2);
    enabled = true;
  }

  abbrev pub default_profile : String → ComputeProfile F
  default_profile name = record {
    name = name;
    local = some default_local_tier;
    expert = some default_expert_tier;
    local_fallbacks = [];
    routing_policy = default_routing_policy;
    budget = default_budget;
    approval = default_approval;
    preferences = record {
      local_first = true;
      cost_sensitive = true;
      privacy_sensitive = true;
      cloud_allowed = true;
      preferred_context = none;
    };
    hardware = none;
    goal = none;
  }

  abbrev pub default_application_config : ApplicationConfig F
  default_application_config = record {
    version = 1;
    active_profile = "default";
    active_hardware = none;
    profiles = ("default", default_profile "default") ∷ [];
    hardware = [];
  }
