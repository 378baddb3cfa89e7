-- ===== src/Decisions/Level.antt =====
-- `DecisionLevel` of sifter/src/aa_sifter/decisions/classifier.py and its order.
use aa.Prelude.{ℕ, List, [], ◌∷◌, String, Bool, leb, ltb, if◌then◌else◌}

pub data DecisionLevel : Type 0 where
  routine significant major critical : DecisionLevel

-- `level.value`
unfoldable pub level_value : DecisionLevel → String
level_value routine = "routine"
level_value significant = "significant"
level_value major = "major"
level_value critical = "critical"

-- `_SEVERITY`
abbrev pub severity : DecisionLevel → ℕ
severity routine = 0
severity significant = 1
severity major = 2
severity critical = 3

abbrev higher : DecisionLevel → DecisionLevel → DecisionLevel
higher result level = if ltb (severity result) (severity level) then level else result

max_from : DecisionLevel → List DecisionLevel → DecisionLevel
max_from result [] = result
max_from result (level ∷ levels) = max_from (higher result level) levels

-- `max_level(*levels)`
unfoldable pub max_level : List DecisionLevel → DecisionLevel
unfolding max_from
max_level levels = max_from routine levels

abbrev pub level_at_least : DecisionLevel → DecisionLevel → Bool
level_at_least level floor = leb (severity floor) (severity level)
