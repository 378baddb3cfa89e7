-- ===== src/Decisions/Classifier/Levels.antt =====
-- The level that `classify` gives, against the sources that it is made of.
use aa.Prelude.{ℕ, max, List, [], ◌∷◌, String, Option, none, some, ◌≡◌, arith}
use aa.Decisions.Level.{DecisionLevel, routine, significant, major, critical, severity, max_level}
use aa.Decisions.Signals.{detect_signals, level_for_signals}
use aa.Decisions.Classifier.{classify, with_model, with_conflicts}

-- What a source of concern asks for, as a severity.
abbrev pub asked_by_model : Option DecisionLevel → ℕ
asked_by_model none = 0
asked_by_model (some level) = severity level

abbrev pub asked_by_rules : List String → ℕ
asked_by_rules [] = 0
asked_by_rules (c ∷ cs) = severity major

severity-max_level :
    (a b : DecisionLevel) → severity (max_level (a ∷ b ∷ [])) ≡ max (severity a) (severity b)
unfolding max_level
severity-max_level routine routine = omega arith
severity-max_level routine significant = omega arith
severity-max_level routine major = omega arith
severity-max_level routine critical = omega arith
severity-max_level significant routine = omega arith
severity-max_level significant significant = omega arith
severity-max_level significant major = omega arith
severity-max_level significant critical = omega arith
severity-max_level major routine = omega arith
severity-max_level major significant = omega arith
severity-max_level major major = omega arith
severity-max_level major critical = omega arith
severity-max_level critical routine = omega arith
severity-max_level critical significant = omega arith
severity-max_level critical major = omega arith
severity-max_level critical critical = omega arith

severity-with_model :
    (level : DecisionLevel) (model : Option DecisionLevel)
    → severity (with_model level model) ≡ max (severity level) (asked_by_model model)
unfolding with_model
severity-with_model level none = omega arith
severity-with_model level (some model) = severity-max_level level model

severity-with_conflicts :
    (level : DecisionLevel) (conflicts : List String)
    → severity (with_conflicts level conflicts) ≡ max (severity level) (asked_by_rules conflicts)
unfolding with_conflicts
severity-with_conflicts level [] = omega arith
severity-with_conflicts level (c ∷ cs) = severity-max_level level major

-- The level of a classification is the highest of what the text's signals, the model's assessment
-- (if there is one) and a conflict with a standing rule (if there is one) ask for.
pub severity-classify :
    (text : String) (model : Option DecisionLevel) (reason : Option String)
    (conflicts : List String)
    → severity (classify text model reason conflicts).level
      ≡ max
          (severity (level_for_signals (detect_signals text)))
          (max (asked_by_model model) (asked_by_rules conflicts))
unfolding classify
severity-classify text model reason conflicts =
    let found = level_for_signals (detect_signals text) in
    omega (
      arith,
      severity-with_model found model,
      severity-with_conflicts (with_model found model) conflicts,
    )
