-- ===== src/Examples/Decisions.antt =====
-- Levels, answers and rules.
use aa.Prelude.{
  ℕ, ◌≤◌, ◌<◌, max, List, [], ◌∷◌, Bool, true, false, Option, none, some, ◌≡◌, ◌⊎◌, refl, String,
}
use aa.Prelude.Text.{lower}
use aa.Models.Config.{enforce_safety, enforce_safety-IsSafe}
use aa.Prelude.Float.{nat_float}
use aa.Decisions.Level.{major, critical, severity}
use aa.Decisions.Signals.{detect_signals, level_for_signals}
use aa.Decisions.Classifier.{DecisionClassification, classify}
use aa.Decisions.Classifier.Levels.{asked_by_model, asked_by_rules, severity-classify}
use aa.Decisions.Rules.{add_rule, detect_conflicts, rule_conflicts}
use aa.Decisions.Rules.Own.{rule_conflicts-own_text}
use aa.Decisions.Gate.{Proposal, classify_proposal}
use aa.Decisions.Gate.Authority.{impact_severity, classify_proposal_lem}
use aa.Decisions.Approval.Types.{ApprovalOption, ApprovalRequest, authorized}
use aa.Decisions.Approval.Input.{parse_decision_input, parse_decision_input-declines}
use aa.Examples.Sample.{sample_config}

abbrev sample_options : List ApprovalOption
sample_options = record { key = "S"; label = "Proceed"; description = "" } ∷ []

parse_decision_input-declines_example :
    authorized (parse_decision_input " STOP " sample_options) ≡ false
parse_decision_input-declines_example =
    parse_decision_input-declines " STOP " sample_options
      (unfold lower aa.Prelude.Text.strip in refl)

abbrev sample_request : ApprovalRequest
sample_request = record {
  category = critical;
  issue = "Drop the table";
  why_it_matters = "";
  current_approach = "";
  options = sample_options;
  recommended_action = "";
  cloud_reasoning_invoked = false;
  stage = "analysis";
  context = [];
}

rule_conflicts-own_text_example :
    rule_conflicts (lower "Use only k8s") (add_rule [] none "Use only k8s" none none []).1 ≡ false
rule_conflicts-own_text_example = rule_conflicts-own_text [] none "Use only k8s" none []

severity-classify_example :
    severity (classify "Fix the typo" (some major) none []).level
    ≡ max
        (severity (level_for_signals (detect_signals "Fix the typo")))
        (max (asked_by_model (some major)) (asked_by_rules []))
severity-classify_example = severity-classify "Fix the typo" (some major) none []

abbrev sample_proposal : Proposal
sample_proposal = record {
  description = "Fix the typo";
  task_type = "implementation";
  architecture_impact = true;
  security_sensitive = false;
  reversible = true;
  scope_impact = "";
}

abbrev sample_verdict : DecisionClassification
sample_verdict = classify_proposal (enforce_safety sample_config) [] sample_proposal none none

classify_proposal_lem_example :
    (severity sample_verdict.level
      ≡ max
          (max
            (severity (level_for_signals (detect_signals "Fix the typo")))
            (max (asked_by_model none) (asked_by_rules (detect_conflicts [] "Fix the typo"))))
          (max (impact_severity true) (impact_severity false)))
    × ((sample_verdict.requires_human_approval ≡ true) ⊎ (severity sample_verdict.level < 2))
classify_proposal_lem_example =
    classify_proposal_lem (enforce_safety sample_config) [] sample_proposal none none
      (enforce_safety-IsSafe sample_config)
