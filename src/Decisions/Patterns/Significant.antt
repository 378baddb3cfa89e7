-- ===== src/Decisions/Patterns/Significant.antt =====
-- `_SIGNIFICANT_PATTERNS` of sifter/src/aa_sifter/decisions/classifier.py: a list of patterns for each signal.
use aa.Prelude.{List, [], ◌∷◌}
use aa.Prelude.Regex.{Regex, seq, alt, opt, at_least, space, text_ci, boundary}

unfoldable pub refactor : List Regex
refactor =
    (seq (boundary ∷ text_ci "refactor" ∷ boundary ∷ []))
    ∷ (seq (boundary ∷ text_ci "restructure" ∷ boundary ∷ []))
    ∷ (seq (boundary ∷ text_ci "moderate" ∷ at_least 1 space ∷ text_ci "refactor" ∷ boundary ∷ []))
    ∷ []

unfoldable pub cross_file : List Regex
cross_file =
    (seq (
      boundary
      ∷ alt (text_ci "several" ∷ text_ci "multiple" ∷ text_ci "many" ∷ [])
      ∷ at_least 1 space
      ∷ opt (seq (text_ci "related" ∷ at_least 1 space ∷ []))
      ∷ text_ci "files"
      ∷ boundary
      ∷ []))
    ∷ (seq (boundary ∷ text_ci "across" ∷ at_least 1 space ∷ text_ci "files" ∷ boundary ∷ []))
    ∷ (seq (boundary ∷ text_ci "multiple" ∷ at_least 1 space ∷ text_ci "modules" ∷ boundary ∷ []))
    ∷ []

unfoldable pub minor_dependency : List Regex
minor_dependency =
    (seq (boundary ∷ text_ci "minor" ∷ at_least 1 space ∷ text_ci "dependency" ∷ boundary ∷ []))
    ∷ (seq (
        boundary
        ∷ text_ci "add"
        ∷ at_least 1 space
        ∷ opt (seq (text_ci "a" ∷ at_least 1 space ∷ []))
        ∷ alt (text_ci "small" ∷ text_ci "minor" ∷ [])
        ∷ at_least 1 space
        ∷ alt (text_ci "dependency" ∷ text_ci "library" ∷ text_ci "package" ∷ [])
        ∷ boundary
        ∷ []))
    ∷ []

unfoldable pub migration_required : List Regex
migration_required = (seq (boundary ∷ text_ci "migration" ∷ boundary ∷ [])) ∷ []
