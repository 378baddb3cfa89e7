-- ===== src/Config/Validation.antt =====
-- sifter/src/aa_sifter/config/validation.py: what is wrong with a profile. The printing of floats is an
-- argument.
use aa.Prelude.{
  ℕ, List, [], ◌∷◌, ◌++◌, String, Bool, true, false, not, ◌&&◌, ◌||◌, Option, none, some, is_empty,
  leb, if◌then◌else◌,
}
use aa.Prelude.Text.{◌⧺◌, elem, is_blank}
use aa.Prelude.Dict.{lookup, truthy}
use aa.Prelude.Float.{Float}
use aa.Catalog.{ModelMetadata, catalog_get}
use aa.Config.Schema.{ComputeProfile, ModelTierConfig, HardwareProfile, is_negative}
use aa.Config.Resolve.{goal_allows}
pub mod Checks

-- `KNOWN_PROVIDERS`, `KEYED_PROVIDERS` and `KNOWN_POLICIES`
abbrev pub known_providers : List String
known_providers = "ollama" ∷ "deepseek" ∷ "openai-compatible" ∷ []

abbrev pub keyed_providers : List String
keyed_providers = "deepseek" ∷ "openai-compatible" ∷ []

abbrev pub known_policies : List String
known_policies =
    "local_only" ∷ "cloud_only" ∷ "local_first" ∷ "expert_first" ∷ "adaptive" ∷ "budget_constrained"
    ∷ []

pub record ValidationResult : Type 0 where
  pub errors : List String
  pub warnings : List String

-- `ok`
abbrev pub result_ok : ValidationResult → Bool
result_ok result = is_empty result.errors

abbrev nothing : ValidationResult
nothing = record { errors = []; warnings = [] }

-- What one check appends and then the next.
infixr 40 ◌then_check◌
abbrev ◌then_check◌ : ValidationResult → ValidationResult → ValidationResult
a then_check b = record { errors = a.errors ++ b.errors; warnings = a.warnings ++ b.warnings }

-- `if test: result.errors.append(message)`, and the same of a warning.
abbrev error_if : Bool → String → ValidationResult
error_if test message = record { errors = if test then message ∷ [] else []; warnings = [] }

abbrev warn_if : Bool → String → ValidationResult
warn_if test message = record { errors = []; warnings = if test then message ∷ [] else [] }

-- The API key of a tier whose provider needs one.
unfoldable pub key_check :
    (label : String)
    → (provider : String) → (api_key_env : Option String) → (environ : List (String × String))
    → (require_credentials : Bool) → ValidationResult
unfolding lookup
key_check label provider none environ required =
    error_if true (label ⧺ (" provider '" ⧺ (provider ⧺ "' requires api_key_env to be set")))
key_check label provider (some env_name) environ required =
    let message =
      env_name ⧺ (" is required for the " ⧺ (label ⧺ " provider but is not configured")) in
    if is_blank env_name
    then error_if true (label ⧺ (" provider '" ⧺ (provider ⧺ "' requires api_key_env to be set")))
    else if truthy (lookup environ env_name)
    then nothing
    else if required
    then error_if true message
    else warn_if true message

-- `model_tier.context_limit is not None and model_tier.context_limit <= 0`
abbrev pub not_positive : Option ℕ → Bool
not_positive none = false
not_positive (some n) = leb n 0

module _ {F : Type 0} ⦃fl : Float F⦄ where
  -- Whether a model needs more than the hardware has, where both are known.
  unfoldable pub exceeds : Option F → Option F → Bool
  exceeds (some needed) (some present) = fl.lt present needed
  exceeds _ _ = false

  unfoldable pub shown : (F → String) → Option F → String
  shown show none = "None"
  shown show (some x) = show x

  unfoldable pub hardware_check :
      (F → String) → Option (HardwareProfile F) → ModelMetadata F → ValidationResult
  unfolding exceeds shown
  hardware_check show none metadata = nothing
  hardware_check show (some hardware) metadata =
      warn_if (exceeds metadata.minimum_vram_gb hardware.gpu_vram_gb) (
        "model '"
        ⧺ (metadata.display_name
            ⧺ ("' needs ~"
                ⧺ (shown show metadata.minimum_vram_gb
                    ⧺ (" GB VRAM but only "
                        ⧺ (shown show hardware.gpu_vram_gb
                            ⧺ " GB is available; expect CPU offload"))))))
      then_check warn_if (exceeds metadata.minimum_ram_gb hardware.system_ram_gb) (
          "model '"
          ⧺ (metadata.display_name
              ⧺ ("' wants ~"
                  ⧺ (shown show metadata.minimum_ram_gb
                      ⧺ (" GB RAM but "
                          ⧺ (shown show hardware.system_ram_gb ⧺ " GB is available"))))))

  unfoldable pub metadata_check :
      (F → String)
      → (label : String) → Option (HardwareProfile F)
      → ModelTierConfig F
      → Option (ModelMetadata F)
      → ValidationResult
  unfolding hardware_check
  metadata_check show label hardware tier none = warn_if true (
      label
      ⧺ (" model '"
          ⧺ (tier.provider
              ⧺ ("/"
                  ⧺ (tier.model ⧺ "' has no catalog metadata (configuration is still allowed)")))))
  metadata_check show label hardware tier (some metadata) = hardware_check show hardware metadata

  -- `_check_tier`
  unfoldable pub check_tier :
      (show : F → String)
      → (label : String) → (catalog : List (ModelMetadata F)) → Option (HardwareProfile F)
      → (environ : List (String × String)) → (require_credentials : Bool) → ModelTierConfig F
      → ValidationResult
  unfolding key_check metadata_check catalog_get
  check_tier show label catalog hardware environ required tier =
      error_if (is_blank tier.provider) (label ⧺ " provider is missing")
      then_check error_if (is_blank tier.model) (label ⧺ " model is missing")
      then_check warn_if (not (is_blank tier.provider) && not (elem tier.provider known_providers))
          (label
            ⧺ (" provider '"
                ⧺ (tier.provider
                    ⧺ "' is not a built-in provider; ensure it is registered at runtime")))
      then_check error_if (not_positive tier.context_limit)
          (label ⧺ " context_limit must be positive")
      then_check (if elem tier.provider keyed_providers
          then key_check label tier.provider tier.api_key_env environ required
          else nothing)
      then_check metadata_check show label hardware tier
          (catalog_get catalog tier.provider tier.model)

  -- The check of the local tier, and that of the expert's.
  unfoldable pub local_check :
      (ModelTierConfig F → ValidationResult) → Option (ModelTierConfig F) → ValidationResult
  local_check check none = error_if true "no local model tier is configured"
  local_check check (some tier) =
      if tier.enabled then check tier else error_if true "no local model tier is configured"

  unfoldable pub expert_check :
      (ModelTierConfig F → ValidationResult)
      → (cloud_allowed : Bool) → Option (ModelTierConfig F)
      → ValidationResult
  expert_check check cloud_allowed none = nothing
  expert_check check cloud_allowed (some tier) =
      if cloud_allowed && tier.enabled then check tier else nothing

  -- `validate_profile`
  unfoldable pub validate_profile :
      (show : F → String)
      → (catalog : List (ModelMetadata F)) → Option (HardwareProfile F)
      → (environ : List (String × String)) → (require_credentials : Bool) → ComputeProfile F
      → ValidationResult
  unfolding check_tier local_check expert_check goal_allows
  validate_profile show catalog hardware environ required profile =
      error_if (not (elem profile.routing_policy known_policies)) (
        "unknown routing policy '"
        ⧺ (profile.routing_policy
            ⧺ ("'; expected one of "
                ⧺ "['adaptive', 'budget_constrained', 'cloud_only', 'expert_first', 'local_first', 'local_only']")))
      then_check local_check (check_tier show "local" catalog hardware environ required)
          profile.local
      then_check expert_check (check_tier show "expert" catalog hardware environ required)
          (profile.preferences.cloud_allowed && goal_allows profile.goal) profile.expert
      then_check error_if (fl.lt profile.budget.max_cloud_cost_per_task (fl.of_ℕ 0))
          "max_cloud_cost_per_task cannot be negative"
      then_check error_if (is_negative profile.budget.max_cloud_calls_per_task)
          "max_cloud_calls_per_task cannot be negative"
      then_check error_if (is_negative profile.budget.max_cloud_tokens_per_task)
          "max_cloud_tokens_per_task cannot be negative"
