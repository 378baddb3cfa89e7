-- ===== src/Routing/Preflight/Merge.antt =====
-- `merge_assessment` and `_merge_float` of sifter/src/aa_sifter/routing/preflight.py: a model's answer joined
-- to the deterministic assessment.
use aa.Prelude.{
  ℕ, ◌≤◌, max, String, Bool, true, false, not, ◌||◌, ◌&&◌, Option, none, some, ltb, ◌≡◌, arith,
  if◌then◌else◌,
}
use aa.Prelude.Float.{Float, IsOrdered, max_float, min_float}
use aa.Prelude.Text.{◌⧺◌, ◌≟◌, is_blank}
use aa.Decisions.Level.{DecisionLevel, routine, significant, major, critical, severity}
use aa.Routing.Preflight.{PreflightAssessment, clamp}

-- What the program reads of a model's answer, behind Python's own conversions: a field is `none`
-- where `isinstance`, `float(…)` or `int(…)` refuses it, and a flag is its truth value.
pub record ParsedAssessment (F : Type 0) : Type 0 where
  pub decision_level : Option String
  pub complexity : Option F
  pub reasoning_difficulty : Option F
  pub local_success_probability : Option F
  pub context_requirement : Option ℕ
  pub architecture_impact : Bool
  pub security_sensitive : Bool
  pub requires_cloud : Bool
  pub reason : String

-- `DecisionLevel(value)` for the values that are members
unfoldable pub level_of_value : String → Option DecisionLevel
level_of_value value =
    if value ≟ "routine"
    then some routine
    else if value ≟ "significant"
    then some significant
    else if value ≟ "major"
    then some major
    else if value ≟ "critical"
    then some critical
    else none

raised : DecisionLevel → Option DecisionLevel → DecisionLevel
raised base none = base
raised base (some level) = if ltb (severity base) (severity level) then level else base

merged_level : DecisionLevel → Option String → DecisionLevel
unfolding raised level_of_value
merged_level base none = base
merged_level base (some value) = raised base (level_of_value value)

merged_requirement : ℕ → Option ℕ → ℕ
merged_requirement base none = base
merged_requirement base (some n) = max base n

module _ {F : Type 0} ⦃fl : Float F⦄ where
  -- `_merge_float(base, candidate, higher=True)` and `(…, higher=False)`
  merge_higher : F → Option F → F
  unfolding clamp
  merge_higher base none = base
  merge_higher base (some v) = max_float base (clamp v)

  merge_lower : F → Option F → F
  unfolding clamp
  merge_lower base none = base
  merge_lower base (some v) = min_float base (clamp v)

  unfoldable pub merge_assessment :
      PreflightAssessment F → ParsedAssessment F → PreflightAssessment F
  unfolding merged_level merged_requirement merge_higher merge_lower
  merge_assessment base parsed = record base {
    model_assisted = true;
    decision_level = merged_level base.decision_level parsed.decision_level;
    complexity = merge_higher base.complexity parsed.complexity;
    reasoning_difficulty = merge_higher base.reasoning_difficulty parsed.reasoning_difficulty;
    local_success_probability =
        merge_lower base.local_success_probability parsed.local_success_probability;
    context_requirement = merged_requirement base.context_requirement parsed.context_requirement;
    architecture_impact = base.architecture_impact || parsed.architecture_impact;
    security_sensitive = base.security_sensitive || parsed.security_sensitive;
    requires_cloud = base.requires_cloud || parsed.requires_cloud;
    reason =
        if is_blank parsed.reason then base.reason else base.reason ⧺ ("; model: " ⧺ parsed.reason);
  }

  -- `b` is at least as concerned as `a`, in every respect that routing reads.
  pub record IsRaised (a b : PreflightAssessment F) : Type 0 where
    pub level : severity a.decision_level ≤ severity b.decision_level
    pub complexity : fl.le a.complexity b.complexity ≡ true
    pub difficulty : fl.le a.reasoning_difficulty b.reasoning_difficulty ≡ true
    pub success : fl.le b.local_success_probability a.local_success_probability ≡ true
    pub context : a.context_requirement ≤ b.context_requirement
    pub architecture : (a.architecture_impact && not b.architecture_impact) ≡ false
    pub security : (a.security_sensitive && not b.security_sensitive) ≡ false
    pub cloud : (a.requires_cloud && not b.requires_cloud) ≡ false

  module _ (ordered : IsOrdered fl) where
    le-merge_higher : (base : F) (v : Option F) → fl.le base (merge_higher base v) ≡ true
    unfolding merge_higher
    le-merge_higher base none = ordered.le_refl base
    le-merge_higher base (some v) = ground (
      arith,
      ordered.le_refl base,
      ordered.lt-not-le base (clamp v),
      ordered.le_total (clamp v) base,
    )

    merge_lower-le : (base : F) (v : Option F) → fl.le (merge_lower base v) base ≡ true
    unfolding merge_lower
    merge_lower-le base none = ordered.le_refl base
    merge_lower-le base (some v) = ground (
      arith,
      ordered.le_refl base,
      ordered.lt-not-le (clamp v) base,
      ordered.le_total base (clamp v),
    )

    le-merged_level :
        (base : DecisionLevel) (v : Option String) → severity base ≤ severity (merged_level base v)
    unfolding merged_level
    le-merged_level base none = omega arith
    le-merged_level base (some s) = ground arith

    le-merged_requirement : (base : ℕ) (v : Option ℕ) → base ≤ merged_requirement base v
    unfolding merged_requirement
    le-merged_requirement base none = omega arith
    le-merged_requirement base (some n) = omega arith

    -- Whatever a model answers, the merged assessment is at least as concerned as the deterministic
    -- one: no lower level, complexity, difficulty or context need, no higher hope of local success, and
    -- no flag withdrawn.
    pub merge_assessment-IsRaised :
        (base : PreflightAssessment F) (parsed : ParsedAssessment F)
        → IsRaised base (merge_assessment base parsed)
    unfolding merge_assessment
    merge_assessment-IsRaised base parsed = record {
      level = le-merged_level base.decision_level parsed.decision_level;
      complexity = le-merge_higher base.complexity parsed.complexity;
      difficulty = le-merge_higher base.reasoning_difficulty parsed.reasoning_difficulty;
      success = merge_lower-le base.local_success_probability parsed.local_success_probability;
      context = le-merged_requirement base.context_requirement parsed.context_requirement;
      architecture = ground arith;
      security = ground arith;
      cloud = ground arith;
    }
