-- ===== src/Examples/Routes.antt =====
-- Routes, budgets and assessments.
use aa.Prelude.{ℕ, true, false, ◌&&◌, ◌||◌, none, some, ◌≡◌, ◌⊎◌, refl}
use aa.Prelude.Float.{nat_float, nat_float-IsOrdered}
use aa.Decisions.Level.{major}
use aa.Models.Provider.{expert}
use aa.Models.Config.{cloud_model_config}
use aa.Routing.Preflight.{PreflightAssessment}
use aa.Routing.Preflight.Merge.{
  ParsedAssessment, IsRaised, merge_assessment, merge_assessment-IsRaised,
}
use aa.Routing.Policy.{uses_cloud, coerce, or_configured, is_local_viable, decide}
use aa.Routing.Policy.Cloud.{
  IsCoherent, decide-IsCoherent, wants_cloud, ignores_budget, uses_cloud-decide,
}
use aa.Routing.Budget.{BudgetTracker, BudgetExceeded, new_tracker, check, record_call}
use aa.Routing.Budget.Limits.{Fits, Breaks, check_lem, IsWithin, record_call-IsWithin}
use aa.Examples.Sample.{sample_config, sample_result}

abbrev pub sample_assessment : PreflightAssessment ℕ
sample_assessment = record {
  task_type = "testing";
  complexity = 1;
  reasoning_difficulty = 1;
  context_requirement = 100;
  local_success_probability = 0;
  estimated_subtasks = 1;
  architecture_impact = false;
  security_sensitive = false;
  decision_level = major;
  requires_human_approval = true;
  requires_cloud = false;
  recommended_route = "local";
  reason = "sample";
  model_assisted = false;
}

abbrev sample_parsed : ParsedAssessment ℕ
sample_parsed = record {
  decision_level = some "critical";
  complexity = some 1;
  reasoning_difficulty = none;
  local_success_probability = some 1;
  context_requirement = some 50;
  architecture_impact = true;
  security_sensitive = false;
  requires_cloud = false;
  reason = "";
}

abbrev sample_tracker : BudgetTracker ℕ
sample_tracker = new_tracker sample_config none none

check_lem_example :
    ((check sample_tracker 100 1 ≡ (none, sample_tracker)) × Fits sample_tracker.budget 100 1)
    ⊎ ((e : BudgetExceeded ℕ) × (check sample_tracker 100 1
          ≡ (some e, record sample_tracker { exhausted = true; exhausted_reason = some e.kind }))
        × Breaks sample_tracker.budget e.kind 100 1)
check_lem_example = check_lem sample_tracker 100 1

passing_check : (check sample_tracker 100 1).0 ≡ none
unfolding check new_tracker
passing_check = refl

record_call-IsWithin_example : IsWithin (
    record_call
      (check sample_tracker 100 1).1
      (sample_result expert "deepseek-chat")
      (cloud_model_config sample_config))
record_call-IsWithin_example =
    record_call-IsWithin sample_tracker 100 1 (sample_result expert "deepseek-chat")
      (cloud_model_config sample_config) passing_check

uses_cloud-decide_example :
    uses_cloud (decide sample_config sample_assessment (some "local_first") 1 true) ≡ (
      wants_cloud
        (coerce (or_configured (some "local_first") sample_config.routing_policy))
        (is_local_viable sample_config sample_assessment)
        false
        1
      && (true
          || ignores_budget
              (coerce (or_configured (some "local_first") sample_config.routing_policy))))
uses_cloud-decide_example =
    uses_cloud-decide sample_config sample_assessment (some "local_first") 1 true

decide-IsCoherent_example :
    IsCoherent (decide sample_config sample_assessment (some "adaptive") 0 true)
decide-IsCoherent_example =
    decide-IsCoherent sample_config sample_assessment (some "adaptive") 0 true

merge_assessment-IsRaised_example :
    IsRaised sample_assessment (merge_assessment sample_assessment sample_parsed)
merge_assessment-IsRaised_example =
    merge_assessment-IsRaised nat_float-IsOrdered sample_assessment sample_parsed
