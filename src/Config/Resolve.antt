-- ===== src/Config/Resolve.antt =====
-- sifter/src/aa_sifter/config/resolve.py: from the environment's configuration and a profile to the one
-- of a run. The environment's configuration, the environment itself and the catalogue are arguments.
use aa.Prelude.{
  ℕ, List, [], ◌∷◌, ◌++◌, String, Bool, true, false, not, ◌&&◌, ◌||◌, Option, none, some, ◌⊎◌, inl,
  inr, get_or, given, if◌then◌else◌, is_some,
}
use aa.Prelude.Text.{◌⧺◌, ◌≟◌, is_blank}
use aa.Prelude.Dict.{lookup, or_text}
use aa.Prelude.Float.{Float}
use aa.Models.Config.{SifterConfig}
use aa.Catalog.{ModelMetadata, CostMetadata, catalog_get}
use aa.Config.Schema.{ApplicationConfig, ComputeProfile, ModelTierConfig, UserGoal, natural_limit}
pub mod Cloud

-- `os.environ.get(a) or os.environ.get(b)`
unfoldable pub either : Option String → Option String → Option String
either none second = second
either (some first) second = if is_blank first then second else some first

module _ {F : Type 0} where
  -- `_tier_updates` with the prefix "local", applied.
  unfoldable pub local_tier_updates : ModelTierConfig F → SifterConfig F → SifterConfig F
  local_tier_updates tier c = record c {
    local_provider = tier.provider;
    local_model = tier.model;
    local_context_limit = get_or tier.context_limit c.local_context_limit;
    local_endpoint = given tier.endpoint c.local_endpoint;
    local_api_key_env = given tier.api_key_env c.local_api_key_env;
    local_max_output_tokens = given tier.max_output_tokens c.local_max_output_tokens;
    local_temperature = given tier.temperature c.local_temperature;
  }

  -- `_tier_updates` with the prefix "expert", applied.
  unfoldable pub expert_tier_updates : ModelTierConfig F → SifterConfig F → SifterConfig F
  expert_tier_updates tier c = record c {
    expert_provider = tier.provider;
    cloud_model = tier.model;
    cloud_context_limit = get_or tier.context_limit c.cloud_context_limit;
    expert_endpoint = given tier.endpoint c.expert_endpoint;
    expert_api_key_env = given tier.api_key_env c.expert_api_key_env;
    expert_max_output_tokens = given tier.max_output_tokens c.expert_max_output_tokens;
    expert_temperature = given tier.temperature c.expert_temperature;
    cloud_input_cost_per_mtok = get_or tier.input_cost_per_mtok c.cloud_input_cost_per_mtok;
    cloud_output_cost_per_mtok = get_or tier.output_cost_per_mtok c.cloud_output_cost_per_mtok;
  }

  -- What the catalogue adds where the profile names no price: the field of the entry's cost.
  unfoldable pub catalog_price :
      Option (F) → Option (ModelMetadata F) → (CostMetadata F → F) → F → F
  catalog_price (some price) entry field old = old
  catalog_price none none field old = old
  catalog_price none (some entry) field old = elim entry.cost [
    | none ↦ old
    | some cost ↦ field cost
  ]

  -- The entry of the expert in the catalogue, where there is one.
  unfoldable pub catalog_entry :
      Option (List (ModelMetadata F)) → ModelTierConfig F → Option (ModelMetadata F)
  unfolding catalog_get
  catalog_entry none expert = none
  catalog_entry (some models) expert = catalog_get models expert.provider expert.model

  unfoldable pub with_local : Option (ModelTierConfig F) → SifterConfig F → SifterConfig F
  unfolding local_tier_updates
  with_local none c = c
  with_local (some tier) c =
      if tier.enabled
      then local_tier_updates tier c
      else record c { local_provider = tier.provider }

  unfoldable pub with_expert :
      Option (List (ModelMetadata F)) → Option (ModelTierConfig F) → SifterConfig F → SifterConfig F
  unfolding expert_tier_updates catalog_price catalog_entry
  with_expert catalog none c = record c { cloud_allowed = false }
  with_expert catalog (some tier) c =
      let entry = catalog_entry catalog tier in
      let updates = expert_tier_updates tier c in
      if tier.enabled
      then record updates {
        cloud_allowed = true;
        cloud_input_cost_per_mtok =
            catalog_price tier.input_cost_per_mtok entry (λ cost. cost.input_per_mtok)
              updates.cloud_input_cost_per_mtok;
        cloud_output_cost_per_mtok =
            catalog_price tier.output_cost_per_mtok entry (λ cost. cost.output_per_mtok)
              updates.cloud_output_cost_per_mtok;
      }
      else record c { cloud_allowed = false }

  -- Whether the goal of a profile, where it has one, allows the cloud.
  unfoldable pub goal_allows : Option (UserGoal F) → Bool
  goal_allows none = true
  goal_allows (some goal) = goal.cloud_allowed

  unfoldable pub with_preferences : ComputeProfile F → SifterConfig F → SifterConfig F
  with_preferences profile c = record c {
    routing_policy = profile.routing_policy;
    prefer_local = profile.preferences.local_first;
    cost_sensitive = profile.preferences.cost_sensitive;
    privacy_sensitive = profile.preferences.privacy_sensitive;
  }

  -- `apply_profile_to_config`. The copy is not validated again.
  unfoldable pub apply_profile_to_config :
      SifterConfig F → ComputeProfile F → Option (List (ModelMetadata F)) → SifterConfig F
  unfolding with_preferences with_local with_expert goal_allows
  apply_profile_to_config base profile catalog =
      let c =
        with_expert catalog profile.expert
          (with_local profile.local (with_preferences profile base)) in
      record c {
        cloud_allowed =
            if not (goal_allows profile.goal)
            then false
            else if not profile.preferences.cloud_allowed
            then false
            else c.cloud_allowed;
        max_cloud_calls_per_task = natural_limit profile.budget.max_cloud_calls_per_task;
        max_cloud_tokens_per_task = natural_limit profile.budget.max_cloud_tokens_per_task;
        max_cloud_cost_per_task = profile.budget.max_cloud_cost_per_task;
        max_parallel_cloud_calls = profile.budget.max_parallel_cloud_calls;
        max_parallel_local_calls = profile.budget.max_parallel_local_calls;
        human_approval_for_major_decisions = profile.approval.major;
        human_approval_for_critical_decisions = profile.approval.critical;
        human_approval_for_significant_decisions = profile.approval.significant;
        non_interactive = profile.approval.non_interactive;
      }

  -- The warning of `apply_profile_to_config`.
  unfoldable pub approval_warnings : ComputeProfile F → List String
  approval_warnings profile =
      if not profile.approval.major || not profile.approval.critical
      then "major/critical approval is mandatory and was re-enabled" ∷ []
      else []

-- The keys that the command line overrides: `_runtime_overrides`.
pub record Overrides (F : Type 0) : Type 0 where
  pub max_cloud_cost_per_task : Option F
  pub local_provider : Option String
  pub local_model : Option String
  pub local_endpoint : Option String
  pub expert_provider : Option String
  pub cloud_model : Option String
  pub expert_endpoint : Option String
  pub local_context_limit : Option ℕ
  pub routing_policy : Option String
  pub cloud_allowed : Option Bool

module _ {F : Type 0} where
  -- The update with the overrides that are not None, which is not validated either.
  unfoldable pub override : Overrides F → SifterConfig F → SifterConfig F
  override o c = record c {
    max_cloud_cost_per_task = get_or o.max_cloud_cost_per_task c.max_cloud_cost_per_task;
    local_provider = get_or o.local_provider c.local_provider;
    local_model = get_or o.local_model c.local_model;
    local_endpoint = given o.local_endpoint c.local_endpoint;
    expert_provider = get_or o.expert_provider c.expert_provider;
    cloud_model = get_or o.cloud_model c.cloud_model;
    expert_endpoint = given o.expert_endpoint c.expert_endpoint;
    local_context_limit = get_or o.local_context_limit c.local_context_limit;
    routing_policy = get_or o.routing_policy c.routing_policy;
    cloud_allowed = get_or o.cloud_allowed c.cloud_allowed;
  }

  unfoldable pub apply_overrides : Option (Overrides F) → SifterConfig F → SifterConfig F
  unfolding override
  apply_overrides none c = c
  apply_overrides (some o) c = override o c

  unfoldable pub apply_profile :
      Option (ComputeProfile F) → Option (List (ModelMetadata F)) → SifterConfig F → SifterConfig F
  unfolding apply_profile_to_config
  apply_profile none catalog base = base
  apply_profile (some profile) catalog base = apply_profile_to_config base profile catalog

-- `_local_only_policy`
unfoldable pub local_only_policy : String → String
local_only_policy policy = if not (policy ≟ "local_only") then "local_only" else policy

module _ {F : Type 0} where
  -- The profile that a configuration is resolved with.
  unfoldable pub resolved_profile :
      ApplicationConfig F
      → (profile_name : Option String) → (apply_profile : Bool) → Option (ComputeProfile F)
  unfolding lookup
  resolved_profile app profile_name apply =
      if apply then lookup app.profiles (or_text profile_name app.active_profile) else none

  -- The end of `resolve_config`: no route to the cloud where the cloud is not allowed.
  unfoldable pub confine_policy : SifterConfig F → SifterConfig F
  unfolding local_only_policy
  confine_policy c =
      if not c.cloud_allowed
      then record c { routing_policy = local_only_policy c.routing_policy }
      else c

  -- The configuration of `resolve_config` with the profile and the overrides.
  unfoldable pub layered :
      (env : SifterConfig F)
      → (profile : Option (ComputeProfile F)) → (name : String) → Option (Overrides F)
      → Option (List (ModelMetadata F))
      → SifterConfig F
  unfolding apply_overrides apply_profile
  layered env profile name overrides catalog =
      record (apply_overrides overrides (apply_profile profile catalog env)) {
        config_profile = if is_some profile then some name else none;
      }

  -- `resolve_config`, its configuration
  unfoldable pub resolve_config :
      (env : SifterConfig F)
      → ApplicationConfig F
      → (profile_name : Option String) → Option (Overrides F)
      → Option (List (ModelMetadata F))
      → (apply_profile : Bool) → SifterConfig F
  unfolding resolved_profile layered confine_policy
  resolve_config env app profile_name overrides catalog apply = confine_policy (
      layered env (resolved_profile app profile_name apply)
        (or_text profile_name app.active_profile) overrides catalog)

  -- `_warn_legacy_env`: a model that the environment names and the profile overrides.
  unfoldable pub legacy_warning :
      ComputeProfile F
      → (name : String) → (env_value : Option String) → (profile_value : Option String)
      → List String
  legacy_warning profile name (some value) (some model) =
      if is_blank value || (is_blank model || (value ≟ model))
      then []
      else ("environment "
          ⧺ (name
              ⧺ ("='"
                  ⧺ (value
                      ⧺ ("' is overridden by profile '"
                          ⧺ (profile.name
                              ⧺ ("' ('"
                                  ⧺ (model
                                      ⧺ "'); precedence is cli_override > active_profile > environment > defaults"))))))))
        ∷ []
  legacy_warning profile name env_value profile_value = []

  unfoldable pub tier_model : Option (ModelTierConfig F) → Option String
  tier_model none = none
  tier_model (some tier) = some tier.model

  unfoldable pub warn_legacy_env :
      (environ : List (String × String)) → ComputeProfile F → List String
  unfolding lookup legacy_warning tier_model either
  warn_legacy_env environ profile =
      legacy_warning profile "LOCAL_MODEL"
        (either (lookup environ "SIFTER_LOCAL_MODEL") (lookup environ "LOCAL_MODEL"))
        (tier_model profile.local)
      ++ legacy_warning profile "CLOUD_MODEL"
          (either (lookup environ "SIFTER_CLOUD_MODEL") (lookup environ "CLOUD_MODEL"))
          (tier_model profile.expert)

  -- The warnings of `resolve_config`.
  unfoldable pub resolve_warnings :
      (environ : List (String × String)) → Option (ComputeProfile F) → List String
  unfolding approval_warnings warn_legacy_env
  resolve_warnings environ none = []
  resolve_warnings environ (some profile) =
      approval_warnings profile ++ warn_legacy_env environ profile
