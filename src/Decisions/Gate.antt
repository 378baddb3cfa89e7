-- ===== src/Decisions/Gate.antt =====
-- sifter/src/aa_sifter/decisions/gate.py: the human's authority over decisions, in application code.
-- `require_approval` asks the approval provider and stands with the program's effects in `App`.
pub mod Authority
use aa.Prelude.{List, [], ◌∷◌, String, Bool, true, false, Option, none, some, if◌then◌else◌}
use aa.Models.Config.{SifterConfig}
use aa.Decisions.Level.{DecisionLevel, routine, significant, major, critical, level_at_least}
use aa.Decisions.Classifier.{DecisionClassification, classify}
use aa.Decisions.Rules.{StandingRule, detect_conflicts}

-- `Proposal`, without its free-form metadata.
pub record Proposal : Type 0 where
  pub description : String
  pub task_type : String
  pub architecture_impact : Bool
  pub security_sensitive : Bool
  pub reversible : Bool
  pub scope_impact : String

-- `_bump`
unfoldable pub bump : DecisionLevel → DecisionLevel → DecisionLevel
bump current floor = if level_at_least floor current then floor else current

module _ {F : Type 0} where
  -- `approval_needed`
  unfoldable pub approval_needed : SifterConfig F → DecisionLevel → Bool
  approval_needed config critical = config.human_approval_for_critical_decisions
  approval_needed config major = config.human_approval_for_major_decisions
  approval_needed config significant = config.human_approval_for_significant_decisions
  approval_needed config routine = false

  -- `classify` for a proposal that is a text: what `ComputeSifter.run` calls.
  unfoldable pub classify_text :
      SifterConfig F
      → List StandingRule
      → String
      → Option DecisionLevel
      → Option String
      → DecisionClassification
  unfolding approval_needed
  classify_text config rules text model_level model_reason =
      let c = classify text model_level model_reason (detect_conflicts rules text) in
      record c { requires_human_approval = approval_needed config c.level }

  -- `classify` for a `Proposal`.
  unfoldable pub classify_proposal :
      SifterConfig F
      → List StandingRule
      → Proposal
      → Option DecisionLevel
      → Option String
      → DecisionClassification
  unfolding approval_needed bump
  classify_proposal config rules proposal model_level model_reason =
      let c =
        classify proposal.description model_level model_reason
          (detect_conflicts rules proposal.description) in
      let impact = if proposal.architecture_impact then bump c.level major else c.level in
      let level = if proposal.security_sensitive then bump impact major else impact in
      record c { level = level; requires_human_approval = approval_needed config level }
