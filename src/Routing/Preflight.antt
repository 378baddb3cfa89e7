-- ===== src/Routing/Preflight.antt =====
-- sifter/src/aa_sifter/routing/preflight.py: the deterministic assessment of a task, and what a model's
-- own assessment may change in it.
pub mod Merge
use aa.Prelude.{
  ℕ, ◌+◌, ◌*◌, ◌/◌, max, List, [], ◌∷◌, ◌++◌, String, Bool, true, false, not, ◌&&◌, ◌||◌, Option,
  none, some, any, is_empty, ltb, ◌==◌, if◌then◌else◌, get_or,
}
use aa.Prelude.Float.{Float, max_float, min_float}
use aa.Prelude.Text.{◌⧺◌, ◌≟◌, lower, contains, join, len, show_ℕ}
use aa.Models.Config.{SifterConfig}
use aa.Decisions.Level.{DecisionLevel, routine, major, critical, level_value, level_at_least}
use aa.Decisions.Classifier.{DecisionClassification}

pub record PreflightAssessment (F : Type 0) : Type 0 where
  pub task_type : String
  pub complexity : F
  pub local_success_probability : F
  pub reasoning_difficulty : F
  pub context_requirement : ℕ
  pub estimated_subtasks : ℕ
  pub architecture_impact : Bool
  pub security_sensitive : Bool
  pub decision_level : DecisionLevel
  pub requires_human_approval : Bool
  pub requires_cloud : Bool
  pub recommended_route : String
  pub reason : String
  pub model_assisted : Bool

-- `_TASK_TYPES`, in order.
task_types : List (String × List String)
task_types =
    ("testing", "test" ∷ "pytest" ∷ "unit test" ∷ "coverage" ∷ [])
    ∷ ("debugging", "debug" ∷ "bug" ∷ "failing" ∷ "failure" ∷ "traceback" ∷ "error" ∷ "broken" ∷ [])
    ∷ ("implementation", "implement" ∷ "add" ∷ "build" ∷ "create" ∷ "write" ∷ "feature" ∷ [])
    ∷ ("refactor", "refactor" ∷ "restructure" ∷ "cleanup" ∷ "clean up" ∷ [])
    ∷ ("documentation", "document" ∷ "readme" ∷ "docstring" ∷ "comment" ∷ [])
    ∷ ("review", "review" ∷ "audit" ∷ "inspect" ∷ "analyze" ∷ [])
    ∷ ("architecture", "architecture" ∷ "design" ∷ "plan" ∷ "migration" ∷ [])
    ∷ []

-- `_COMPLEXITY_SIGNALS`
complexity_signals : List String
complexity_signals =
    "concurrency" ∷ "distributed" ∷ "performance" ∷ "algorithm" ∷ "optimize" ∷ "security" ∷ "crypto"
    ∷ "migration" ∷ "refactor" ∷ "architecture" ∷ "asynchronous" ∷ "async" ∷ "race condition"
    ∷ "deadlock" ∷ []

-- `_SECURITY_SIGNALS`
security_signals : List String
security_signals =
    "auth" ∷ "oauth" ∷ "password" ∷ "credential" ∷ "secret" ∷ "encryption" ∷ "security" ∷ []

type_from : List (String × List String) → String → String
type_from [] text = "general"
type_from ((task_type, keywords) ∷ rest) text =
    if any (λ keyword. contains text keyword) keywords then task_type else type_from rest text

-- `_task_type`
unfoldable pub task_type_of : String → String
unfolding task_types type_from contains
task_type_of text = type_from task_types text

count_matching : String → List String → ℕ
count_matching text [] = 0
count_matching text (s ∷ ss) = (if contains text s then 1 else 0) + count_matching text ss

assess_reason : DecisionLevel → Bool → ℕ → ℕ → ℕ → String
unfolding join level_value show_ℕ
assess_reason level context_pressure context_requirement limit failed_attempts =
    let reasons =
      (if level_at_least routine level then [] else ("decision level " ⧺ level_value level) ∷ [])
      ++ ((if context_pressure
            then ("context ~"
                ⧺ (show_ℕ context_requirement ⧺ (" tokens exceeds local limit " ⧺ show_ℕ limit)))
              ∷ []
            else [])
          ++ (if failed_attempts == 0
              then []
              else (show_ℕ failed_attempts ⧺ " prior failed attempt(s)") ∷ [])) in
    join "; "
      (if is_empty reasons then "localized work within local model capability" ∷ [] else reasons)

module _ {F : Type 0} ⦃fl : Float F⦄ where
  -- `_clamp(value)`
  unfoldable pub clamp : F → F
  clamp value = max_float (fl.of_ℕ 0) (min_float (fl.of_ℕ 1) value)

  -- `local_probability` before it is clamped.
  local_probability : F → F → ℕ → ℕ → Bool → F
  local_probability complexity difficulty failed_attempts retry_count architecture_impact =
      let base =
        fl.sub (fl.sub (fl.decimal 92 2) (fl.mul (fl.decimal 5 1) complexity))
          (fl.mul (fl.decimal 25 2) difficulty) in
      let after_failures =
        fl.sub base
          (min_float (fl.decimal 4 1) (fl.mul (fl.decimal 2 1) (fl.of_ℕ failed_attempts))) in
      let after_retries =
        fl.sub after_failures
          (min_float (fl.decimal 2 1) (fl.mul (fl.decimal 5 2) (fl.of_ℕ retry_count))) in
      if architecture_impact then fl.sub after_retries (fl.decimal 15 2) else after_retries

  -- `assess`, for a classification that is given, as `ComputeSifter.run` and the RPC service do.
  unfoldable pub assess :
      SifterConfig F
      → (prompt : String) → (context : Option String) → (failed_attempts retry_count : ℕ)
      → DecisionClassification
      → PreflightAssessment F
  unfolding task_type_of complexity_signals security_signals count_matching assess_reason clamp
      local_probability lower contains
  assess config prompt context failed_attempts retry_count classification =
      let text = lower (prompt ⧺ ("\n" ⧺ get_or context "")) in
      let context_requirement = max 1 (len prompt / 4) + len (get_or context "") / 4 in
      let task_type = task_type_of text in
      let matching = count_matching text complexity_signals in
      let length_factor = min_float (fl.of_ℕ 1) (fl.div (fl.of_ℕ (len prompt)) (fl.of_ℕ 4000)) in
      let complexity = clamp (
        fl.add (fl.add (fl.decimal 15 2) (fl.mul (fl.decimal 1 1) (fl.of_ℕ matching)))
          (fl.mul (fl.decimal 5 1) length_factor)) in
      let difficulty = clamp (
        fl.add (fl.add (fl.decimal 2 1) (fl.mul (fl.decimal 12 2) (fl.of_ℕ matching)))
          (fl.mul (fl.decimal 4 1) length_factor)) in
      let architecture_impact = classification.signals.architecture_change in
      let security_sensitive =
        classification.signals.security_boundary
        || any (λ signal. contains text signal) security_signals in
      let probability =
        clamp (
          local_probability complexity difficulty failed_attempts retry_count
            architecture_impact) in
      let context_pressure = ltb config.local_context_limit context_requirement in
      let requires_cloud =
        fl.lt probability config.local_confidence_threshold
        || (context_pressure || level_at_least classification.level major) in
      let subtasks = 1 + fl.truncate (fl.mul complexity (fl.of_ℕ 4)) in
      let estimated_subtasks =
        if (task_type ≟ "architecture" || task_type ≟ "implementation")
          && fl.lt (fl.decimal 5 1) complexity
        then max subtasks 3
        else subtasks in
      let route : String =
        if requires_cloud || architecture_impact
        then (if context_pressure
            then "cloud"
            else if fl.lt (fl.decimal 4 1) probability
            then "hybrid"
            else "cloud")
        else "local" in
      record {
        task_type = task_type;
        complexity = fl.round complexity 3;
        local_success_probability = fl.round probability 3;
        reasoning_difficulty = fl.round difficulty 3;
        context_requirement = context_requirement;
        estimated_subtasks = estimated_subtasks;
        architecture_impact = architecture_impact;
        security_sensitive = security_sensitive;
        decision_level = classification.level;
        requires_human_approval = classification.requires_human_approval;
        requires_cloud = requires_cloud;
        recommended_route = route;
        reason =
            assess_reason classification.level context_pressure context_requirement
              config.local_context_limit failed_attempts;
        model_assisted = false;
      }
