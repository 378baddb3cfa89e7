-- ===== src/Metrics.antt =====
-- sifter/src/aa_sifter/metrics/usage.py: what a run has used.
use aa.Prelude.{ℕ, ◌+◌, Option, none, some}
use aa.Prelude.Float.{Float}
use aa.Models.Config.{ModelConfig, estimate_cost}
use aa.Models.Provider.{Tier, local, expert, GenerationResult}

pub record UsageMetrics (F : Type 0) : Type 0 where
  pub local_input_tokens : ℕ
  pub local_output_tokens : ℕ
  pub cloud_input_tokens : ℕ
  pub cloud_output_tokens : ℕ
  pub local_calls : ℕ
  pub cloud_calls : ℕ
  pub cloud_cost : F
  pub wall_clock_ms : F
  pub local_inference_ms : F
  pub cloud_inference_ms : F
  pub tool_execution_ms : F
  pub subtasks : ℕ
  pub escalations : ℕ
  pub retries : ℕ
  pub human_approval_requests : ℕ
  pub human_approved_cloud_analyses : ℕ
  pub major_decisions : ℕ

-- `total_tokens`
unfoldable pub total_tokens : {F : Type 0} → UsageMetrics F → ℕ
total_tokens u =
    u.local_input_tokens + u.local_output_tokens + u.cloud_input_tokens + u.cloud_output_tokens

module _ {F : Type 0} ⦃fl : Float F⦄ where
  -- `UsageMetrics()`
  abbrev pub no_usage : UsageMetrics F
  no_usage = record {
    local_input_tokens = 0;
    local_output_tokens = 0;
    cloud_input_tokens = 0;
    cloud_output_tokens = 0;
    local_calls = 0;
    cloud_calls = 0;
    cloud_cost = fl.of_ℕ 0;
    wall_clock_ms = fl.of_ℕ 0;
    local_inference_ms = fl.of_ℕ 0;
    cloud_inference_ms = fl.of_ℕ 0;
    tool_execution_ms = fl.of_ℕ 0;
    subtasks = 0;
    escalations = 0;
    retries = 0;
    human_approval_requests = 0;
    human_approved_cloud_analyses = 0;
    major_decisions = 0;
  }

  add_cost : F → GenerationResult F → Option (ModelConfig F) → F
  add_cost cost result none = cost
  add_cost cost result (some config) =
      fl.add cost (estimate_cost config result.input_tokens result.output_tokens)

  by_tier : Tier → GenerationResult F → Option (ModelConfig F) → UsageMetrics F → UsageMetrics F
  unfolding add_cost
  by_tier local result config u = record u {
    local_calls = u.local_calls + 1;
    local_input_tokens = u.local_input_tokens + result.input_tokens;
    local_output_tokens = u.local_output_tokens + result.output_tokens;
    local_inference_ms = fl.add u.local_inference_ms result.duration_ms;
  }
  by_tier expert result config u = record u {
    cloud_calls = u.cloud_calls + 1;
    cloud_input_tokens = u.cloud_input_tokens + result.input_tokens;
    cloud_output_tokens = u.cloud_output_tokens + result.output_tokens;
    cloud_inference_ms = fl.add u.cloud_inference_ms result.duration_ms;
    cloud_cost = add_cost u.cloud_cost result config;
  }

  -- `record_generation(result, config)`
  unfoldable pub record_generation :
      GenerationResult F → Option (ModelConfig F) → UsageMetrics F → UsageMetrics F
  unfolding by_tier
  record_generation result config u = by_tier result.tier result config u
