-- ===== src/Decisions/Classifier.antt =====
-- `DecisionClassification` and `DecisionClassifier.classify` of
-- sifter/src/aa_sifter/decisions/classifier.py. What is proved stands in the child modules.
pub mod Levels
use aa.Prelude.{
  List, [], ◌∷◌, ◌++◌, String, Bool, true, false, Option, none, some, is_empty, is_some,
  if◌then◌else◌,
}
use aa.Prelude.Text.{◌⧺◌, join, is_blank}
use aa.Decisions.Level.{DecisionLevel, major, max_level, level_at_least, level_value}
use aa.Decisions.Signals.{DecisionSignals, detect_signals, level_for_signals, signal_names}

pub record DecisionClassification : Type 0 where
  pub level : DecisionLevel
  pub signals : DecisionSignals
  pub reasons : List String
  pub requires_human_approval : Bool
  pub model_assisted : Bool
  pub conflicts_with_rules : List String

-- `is_major`
unfoldable pub is_major : DecisionClassification → Bool
is_major c = level_at_least c.level major

signal_reasons : List String → List String
unfolding join
signal_reasons [] = []
signal_reasons (s ∷ ss) = ("deterministic signals: " ⧺ join ", " (s ∷ ss)) ∷ []

-- `f" ({model_reason})" if model_reason else ""`
bracketed : Option String → String
bracketed none = ""
bracketed (some reason) = if is_blank reason then "" else " (" ⧺ (reason ⧺ ")")

model_reasons : Option DecisionLevel → Option String → List String
unfolding bracketed level_value
model_reasons none reason = []
model_reasons (some level) reason =
    ("model assessment suggested " ⧺ (level_value level ⧺ bracketed reason)) ∷ []

conflict_reasons : List String → List String
unfolding join
conflict_reasons [] = []
conflict_reasons (c ∷ cs) = ("conflicts with standing rule(s): " ⧺ join "; " (c ∷ cs)) ∷ []

with_model : DecisionLevel → Option DecisionLevel → DecisionLevel
unfolding max_level
with_model level none = level
with_model level (some model) = max_level (level ∷ model ∷ [])

with_conflicts : DecisionLevel → List String → DecisionLevel
unfolding max_level
with_conflicts level conflicts =
    if is_empty conflicts then level else max_level (level ∷ major ∷ [])

-- `classify(text, model_level, model_reason, rule_conflicts)`; no conflicts are the empty list.
unfoldable pub classify :
    String → Option DecisionLevel → Option String → List String → DecisionClassification
unfolding with_model with_conflicts signal_reasons model_reasons conflict_reasons
classify text model_level model_reason rule_conflicts =
    let signals = detect_signals text in
    let level =
      with_conflicts (with_model (level_for_signals signals) model_level) rule_conflicts in
    let requires_approval = level_at_least level major in
    record {
      level = level;
      signals = signals;
      reasons =
          signal_reasons (signal_names signals)
          ++ (model_reasons model_level model_reason
              ++ (conflict_reasons rule_conflicts
                  ++ (if requires_approval
                      then []
                      else "routine or significant; autonomous execution permitted by default"
                        ∷ [])));
      requires_human_approval = requires_approval;
      model_assisted = is_some model_level;
      conflicts_with_rules = rule_conflicts;
    }
