-- ===== src/Config/Schema.antt =====
-- sifter/src/aa_sifter/config/schema.py, less the free-form `options` of a tier.
use aa.Prelude.{
  ℕ, List, [], ◌∷◌, ◌++◌, String, Bool, true, false, not, ◌&&◌, Option, none, map, any, is_empty,
  if◌then◌else◌, get_or,
}
use aa.Prelude.Text.{elem, lower}
use aa.Prelude.Dict.{lookup, truthy}
use aa.Prelude.Float.{Float}

pub record HardwareProfile (F : Type 0) : Type 0 where
  pub cpu_name : Option String
  pub cpu_cores : Option ℕ
  pub cpu_threads : Option ℕ
  pub gpu_name : Option String
  pub gpu_vendor : Option String
  pub gpu_vram_gb : Option F
  pub system_ram_gb : Option F
  pub operating_system : Option String
  pub architecture : Option String
  pub source : String

pub record UserGoal (F : Type 0) : Type 0 where
  pub workload : List String
  pub quality_priority : F
  pub speed_priority : F
  pub cost_priority : F
  pub privacy_priority : F
  pub cloud_allowed : Bool
  pub preferred_context : Option ℕ

-- The whole numbers, for the counts that may be below zero.
pub data ℤ : Type 0 where
  pos : ℕ → ℤ
  negsuc : ℕ → ℤ

abbrev pub is_negative : ℤ → Bool
is_negative (pos n) = false
is_negative (negsuc n) = true

-- A count as the limit of a run, which is a natural number here: one below zero is taken as 0.
abbrev pub natural_limit : ℤ → ℕ
natural_limit (pos n) = n
natural_limit (negsuc n) = 0

pub record BudgetConfig (F : Type 0) : Type 0 where
  pub max_cloud_calls_per_task : ℤ
  pub max_cloud_tokens_per_task : ℤ
  pub max_cloud_cost_per_task : F
  pub max_parallel_cloud_calls : ℕ
  pub max_parallel_local_calls : ℕ

pub record ApprovalConfig : Type 0 where
  pub major : Bool
  pub critical : Bool
  pub significant : Bool
  pub non_interactive : Bool

-- `_protect_gates`, the validator that runs on construction and on assignment.
unfoldable pub protect_gates : ApprovalConfig → ApprovalConfig
protect_gates c = record c {
  major = if not c.major then true else c.major;
  critical = if not c.critical then true else c.critical;
}

pub record UserPreferenceConfig : Type 0 where
  pub local_first : Bool
  pub cost_sensitive : Bool
  pub privacy_sensitive : Bool
  pub cloud_allowed : Bool
  pub preferred_context : Option ℕ

pub record ModelTierConfig (F : Type 0) : Type 0 where
  pub provider : String
  pub model : String
  pub endpoint : Option String
  pub api_key_env : Option String
  pub context_limit : Option ℕ
  pub max_output_tokens : Option ℕ
  pub temperature : Option F
  pub input_cost_per_mtok : Option F
  pub output_cost_per_mtok : Option F
  pub enabled : Bool

-- `ModelTierConfig(provider=provider, model=model)`
abbrev pub new_tier : {F : Type 0} → String → String → ModelTierConfig F
new_tier provider model = record {
  provider = provider;
  model = model;
  endpoint = none;
  api_key_env = none;
  context_limit = none;
  max_output_tokens = none;
  temperature = none;
  input_cost_per_mtok = none;
  output_cost_per_mtok = none;
  enabled = true;
}

pub record ComputeProfile (F : Type 0) : Type 0 where
  pub name : String
  pub local : Option (ModelTierConfig F)
  pub expert : Option (ModelTierConfig F)
  pub local_fallbacks : List (ModelTierConfig F)
  pub routing_policy : String
  pub budget : BudgetConfig F
  pub approval : ApprovalConfig
  pub preferences : UserPreferenceConfig
  pub hardware : Option (HardwareProfile F)
  pub goal : Option (UserGoal F)

pub record ApplicationConfig (F : Type 0) : Type 0 where
  pub version : ℕ
  pub active_profile : String
  pub active_hardware : Option String
  pub profiles : List (String × ComputeProfile F)
  pub hardware : List (String × HardwareProfile F)

-- The words of a goal's workload that ask for a capability, in the order of the tests.
abbrev coding_words : List String
coding_words =
    "coding" ∷ "software development" ∷ "code generation" ∷ "software engineering"
    ∷ "software engineering agents" ∷ "local autonomous agents" ∷ "multi-agent orchestration" ∷ []

abbrev agent_words : List String
agent_words =
    "agents" ∷ "agent workflows" ∷ "software engineering agents" ∷ "local autonomous agents"
    ∷ "multi-agent orchestration" ∷ []

-- The capabilities, where one of the words is in the workload.
unfoldable pub wanted : List String → List String → List String → List String
wanted workload words capabilities =
    if any (λ word. elem word workload) words then capabilities else []

module _ {F : Type 0} ⦃fl : Float F⦄ where
  -- `has_gpu`
  unfoldable pub has_gpu : HardwareProfile F → Bool
  has_gpu h = truthy h.gpu_name && fl.lt (fl.of_ℕ 0) (get_or h.gpu_vram_gb (fl.of_ℕ 0))

  -- `BudgetConfig()`
  abbrev pub default_budget : BudgetConfig F
  default_budget = record {
    max_cloud_calls_per_task = pos 5;
    max_cloud_tokens_per_task = pos 200000;
    max_cloud_cost_per_task = fl.decimal 20 1;
    max_parallel_cloud_calls = 2;
    max_parallel_local_calls = 1;
  }

-- `ApprovalConfig()`
abbrev pub default_approval : ApprovalConfig
default_approval = record {
  major = true;
  critical = true;
  significant = false;
  non_interactive = false;
}

module _ {F : Type 0} where
  -- `required_capabilities`: the set as a list, which may name a member twice.
  unfoldable pub required_capabilities : UserGoal F → List String
  unfolding wanted lower
  required_capabilities goal =
      let workload : List String = map lower goal.workload in
      let found =
        wanted workload coding_words ("coding" ∷ [])
        ++ (wanted workload agent_words ("tool_use" ∷ "agentic" ∷ [])
            ++ (wanted workload ("reasoning" ∷ "research" ∷ []) ("reasoning" ∷ [])
                ++ (wanted workload ("large repository analysis" ∷ "summarization" ∷ [])
                      ("long_context" ∷ [])
                    ++ wanted workload ("data analysis" ∷ []) ("structured_output" ∷ [])))) in
      if is_empty found then "general" ∷ [] else found

  -- `active`: none is the KeyError.
  unfoldable pub active : ApplicationConfig F → Option (ComputeProfile F)
  unfolding lookup
  active app = lookup app.profiles app.active_profile
