-- ===== src/Decisions/Gate/Authority.antt =====
-- When the gate asks for the human.
use aa.Prelude.{
  ℕ, ◌<◌, max, ◌⊎◌, inl, inr, List, String, Bool, true, false, Option, ◌≡◌, refl, arith,
  if◌then◌else◌,
}
use aa.Models.Config.{SifterConfig, IsSafe}
use aa.Decisions.Level.{
  DecisionLevel, routine, significant, major, critical, severity, level_at_least,
}
use aa.Decisions.Signals.{detect_signals, level_for_signals}
use aa.Decisions.Classifier.{classify}
use aa.Decisions.Classifier.Levels.{severity-classify, asked_by_model, asked_by_rules}
use aa.Decisions.Rules.{StandingRule, detect_conflicts}
use aa.Decisions.Gate.{Proposal, bump, approval_needed, classify_proposal}

severity-bump : (a b : DecisionLevel) → severity (bump a b) ≡ max (severity a) (severity b)
unfolding bump
severity-bump a b = ground arith

abbrev pub impact_severity : Bool → ℕ
impact_severity b = if b then severity major else 0

with_impact : (level : DecisionLevel) (architecture security : Bool) → DecisionLevel
with_impact level architecture security =
    let impact = if architecture then bump level major else level in
    if security then bump impact major else impact

severity-with_impact :
    (level : DecisionLevel) (architecture security : Bool)
    → severity (with_impact level architecture security)
      ≡ max (severity level) (max (impact_severity architecture) (impact_severity security))
unfolding with_impact
severity-with_impact level true true =
    omega (arith, severity-bump level major, severity-bump (bump level major) major)
severity-with_impact level true false = omega (arith, severity-bump level major)
severity-with_impact level false true = omega (arith, severity-bump level major)
severity-with_impact level false false = omega arith

module _ {F : Type 0} where
  pub approval_needed_iff_major :
      (config : SifterConfig F) (level : DecisionLevel)
      → IsSafe config
      → config.human_approval_for_significant_decisions ≡ false
      → approval_needed config level ≡ level_at_least level major
  unfolding approval_needed
  approval_needed_iff_major config routine safe quiet = refl
  approval_needed_iff_major config significant safe quiet = quiet
  approval_needed_iff_major config major safe quiet = safe.major_gate
  approval_needed_iff_major config critical safe quiet = safe.critical_gate

  -- A major decision always asks, whatever the setting for significant ones.
  pub major_asks :
      (config : SifterConfig F) (level : DecisionLevel)
      → IsSafe config
      → level_at_least level major ≡ true
      → approval_needed config level ≡ true
  unfolding approval_needed
  major_asks config routine safe h = cc
  major_asks config significant safe h = cc
  major_asks config major safe h = safe.major_gate
  major_asks config critical safe h = safe.critical_gate

  asks_or_below :
      (config : SifterConfig F) (level : DecisionLevel)
      → IsSafe config
      → (approval_needed config level ≡ true) ⊎ (severity level < 2)
  unfolding approval_needed
  asks_or_below config routine safe = inr (omega arith)
  asks_or_below config significant safe = inr (omega arith)
  asks_or_below config major safe = inl safe.major_gate
  asks_or_below config critical safe = inl safe.critical_gate

  -- The gate's level for a proposal is the highest of what the text's signals, the model, the standing
  -- rules and the declared impacts ask for; and from a major level on, a validated configuration always
  -- asks for the human.
  pub classify_proposal_lem :
      (config : SifterConfig F) (rules : List StandingRule) (p : Proposal)
      (model : Option DecisionLevel) (reason : Option String)
      → IsSafe config
      → (severity (classify_proposal config rules p model reason).level
          ≡ max
              (max (severity (level_for_signals (detect_signals p.description))) (
                max (asked_by_model model) (asked_by_rules (detect_conflicts rules p.description))))
              (max (impact_severity p.architecture_impact) (impact_severity p.security_sensitive)))
        × ((classify_proposal config rules p model reason).requires_human_approval ≡ true
            ⊎ (severity (classify_proposal config rules p model reason).level < 2))
  unfolding classify_proposal with_impact
  classify_proposal_lem config rules p model reason safe =
      let conflicts = detect_conflicts rules p.description in
      let c = classify p.description model reason conflicts in
      let level = with_impact c.level p.architecture_impact p.security_sensitive in
      (
        omega (
          arith,
          severity-with_impact c.level p.architecture_impact p.security_sensitive,
          severity-classify p.description model reason conflicts,
        ),
        asks_or_below config level safe,
      )
