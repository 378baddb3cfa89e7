-- ===== src/Decisions/Patterns/Critical.antt =====
-- `_CRITICAL_PATTERNS` of sifter/src/aa_sifter/decisions/classifier.py: a list of patterns for each signal.
use aa.Prelude.{List, [], ◌∷◌}
use aa.Prelude.Regex.{
  Regex, seq, alt, opt, star, at_least, dot, space, digit, text_ci, one_of, boundary, not_ahead,
}

unfoldable pub destructive : List Regex
destructive =
    (seq (
      boundary
      ∷ text_ci "drop"
      ∷ at_least 1 space
      ∷ alt (text_ci "table" ∷ text_ci "database" ∷ text_ci "schema" ∷ text_ci "column" ∷ [])
      ∷ boundary
      ∷ []))
    ∷ (seq (boundary ∷ text_ci "truncate" ∷ boundary ∷ []))
    ∷ (seq (boundary ∷ text_ci "delete" ∷ at_least 1 space ∷ text_ci "from" ∷ boundary ∷ []))
    ∷ (seq (boundary ∷ text_ci "rm" ∷ at_least 1 space ∷ text_ci "-rf" ∷ boundary ∷ []))
    ∷ (seq (boundary ∷ text_ci "destroy" ∷ boundary ∷ []))
    ∷ (seq (boundary ∷ text_ci "wipe" ∷ boundary ∷ []))
    ∷ (seq (
        boundary
        ∷ text_ci "purge"
        ∷ boundary
        ∷ not_ahead (seq (at_least 1 space ∷ text_ci "cache" ∷ []))
        ∷ []))
    ∷ (seq (boundary ∷ text_ci "reset" ∷ at_least 1 space ∷ text_ci "--hard" ∷ boundary ∷ []))
    ∷ (seq (boundary ∷ text_ci "force" ∷ one_of "- " ∷ text_ci "push" ∷ boundary ∷ []))
    ∷ []

unfoldable pub data_deletion : List Regex
data_deletion =
    (seq (
      boundary
      ∷ text_ci "delete"
      ∷ at_least 1 space
      ∷ alt (text_ci "all" ∷ text_ci "every" ∷ text_ci "the" ∷ [])
      ∷ boundary
      ∷ star dot
      ∷ boundary
      ∷ alt (
          text_ci "data"
          ∷ text_ci "records"
          ∷ text_ci "rows"
          ∷ text_ci "users"
          ∷ text_ci "database"
          ∷ [])
      ∷ boundary
      ∷ []))
    ∷ (seq (
        boundary
        ∷ text_ci "erase"
        ∷ boundary
        ∷ star dot
        ∷ boundary
        ∷ alt (text_ci "data" ∷ text_ci "records" ∷ text_ci "history" ∷ [])
        ∷ boundary
        ∷ []))
    ∷ (seq (
        boundary
        ∷ text_ci "remove"
        ∷ at_least 1 space
        ∷ text_ci "all"
        ∷ at_least 1 space
        ∷ alt (text_ci "data" ∷ text_ci "records" ∷ text_ci "users" ∷ [])
        ∷ boundary
        ∷ []))
    ∷ []

unfoldable pub irreversible : List Regex
irreversible =
    (seq (boundary ∷ text_ci "irreversible" ∷ boundary ∷ []))
    ∷ (seq (boundary ∷ text_ci "cannot be undone" ∷ boundary ∷ []))
    ∷ (seq (boundary ∷ text_ci "can't be undone" ∷ boundary ∷ []))
    ∷ (seq (boundary ∷ text_ci "no rollback" ∷ boundary ∷ []))
    ∷ (seq (boundary ∷ text_ci "unrecoverable" ∷ boundary ∷ []))
    ∷ (seq (
        boundary
        ∷ text_ci "permanent"
        ∷ opt (text_ci "ly")
        ∷ at_least 1 space
        ∷ alt (text_ci "delete" ∷ text_ci "remove" ∷ text_ci "migrat" ∷ [])
        ∷ []))
    ∷ []

unfoldable pub credential_change : List Regex
credential_change =
    (seq (
      boundary
      ∷ text_ci "rotate"
      ∷ at_least 1 space
      ∷ alt (text_ci "credentials" ∷ text_ci "keys" ∷ text_ci "secrets" ∷ [])
      ∷ boundary
      ∷ []))
    ∷ (seq (boundary ∷ text_ci "credential" ∷ at_least 1 space ∷ text_ci "model" ∷ boundary ∷ []))
    ∷ (seq (
        boundary
        ∷ text_ci "api"
        ∷ at_least 1 space
        ∷ text_ci "key"
        ∷ opt (text_ci "s")
        ∷ boundary
        ∷ []))
    ∷ (seq (boundary ∷ text_ci "private" ∷ at_least 1 space ∷ text_ci "key" ∷ boundary ∷ []))
    ∷ (seq (
        boundary
        ∷ text_ci "secret"
        ∷ opt (text_ci "s")
        ∷ boundary
        ∷ star dot
        ∷ boundary
        ∷ alt (text_ci "config" ∷ text_ci "store" ∷ text_ci "rotate" ∷ [])
        ∷ boundary
        ∷ []))
    ∷ []

unfoldable pub production_action : List Regex
production_action =
    (seq (boundary ∷ text_ci "production" ∷ boundary ∷ []))
    ∷ (seq (
        boundary
        ∷ text_ci "prod"
        ∷ at_least 1 space
        ∷ alt
            (text_ci "environment" ∷ text_ci "server" ∷ text_ci "deploy" ∷ text_ci "database" ∷ [])
        ∷ boundary
        ∷ []))
    ∷ (seq (
        boundary
        ∷ text_ci "live"
        ∷ at_least 1 space
        ∷ alt (text_ci "system" ∷ text_ci "traffic" ∷ text_ci "users" ∷ [])
        ∷ boundary
        ∷ []))
    ∷ []

unfoldable pub large_expenditure : List Regex
large_expenditure =
    (seq (boundary ∷ text_ci "budget" ∷ at_least 1 space ∷ text_ci "increase" ∷ boundary ∷ []))
    ∷ (seq (
        boundary
        ∷ text_ci "large"
        ∷ at_least 1 space
        ∷ opt (seq (text_ci "unexpected" ∷ at_least 1 space ∷ []))
        ∷ alt (text_ci "cost" ∷ text_ci "expenditure" ∷ text_ci "spend" ∷ [])
        ∷ []))
    ∷ (seq
        (boundary ∷ text_ci "spend" ∷ at_least 1 space ∷ opt (text_ci "$") ∷ at_least 3 digit ∷ []))
    ∷ (seq (boundary ∷ text_ci "cost" ∷ at_least 1 space ∷ text_ci "spike" ∷ boundary ∷ []))
    ∷ []

unfoldable pub confidential_exposure : List Regex
confidential_exposure =
    (seq (
      boundary
      ∷ text_ci "expose"
      ∷ at_least 1 space
      ∷ alt (text_ci "confidential" ∷ text_ci "secrets" ∷ text_ci "private" ∷ [])
      ∷ []))
    ∷ (seq (
        boundary
        ∷ text_ci "upload"
        ∷ boundary
        ∷ star dot
        ∷ boundary
        ∷ alt (
            text_ci "externally"
            ∷ seq (
                text_ci "to"
                ∷ at_least 1 space
                ∷ text_ci "the"
                ∷ at_least 1 space
                ∷ text_ci "cloud"
                ∷ [])
            ∷ seq (text_ci "third" ∷ one_of "- " ∷ text_ci "party" ∷ [])
            ∷ [])
        ∷ boundary
        ∷ []))
    ∷ (seq (
        boundary
        ∷ text_ci "send"
        ∷ boundary
        ∷ star dot
        ∷ boundary
        ∷ alt (text_ci "secrets" ∷ text_ci "credentials" ∷ text_ci "keys" ∷ [])
        ∷ boundary
        ∷ []))
    ∷ (seq (boundary ∷ text_ci "leak" ∷ boundary ∷ []))
    ∷ []

unfoldable pub security_control_removal : List Regex
security_control_removal =
    (seq (
      boundary
      ∷ text_ci "disable"
      ∷ at_least 1 space
      ∷ alt (
          text_ci "auth"
          ∷ text_ci "authentication"
          ∷ text_ci "authorization"
          ∷ text_ci "tls"
          ∷ text_ci "ssl"
          ∷ text_ci "https"
          ∷ text_ci "security"
          ∷ [])
      ∷ boundary
      ∷ []))
    ∷ (seq (
        boundary
        ∷ text_ci "remove"
        ∷ at_least 1 space
        ∷ alt (
            text_ci "auth"
            ∷ text_ci "authentication"
            ∷ text_ci "authorization"
            ∷ text_ci "security"
            ∷ [])
        ∷ boundary
        ∷ []))
    ∷ (seq (
        boundary
        ∷ text_ci "bypass"
        ∷ at_least 1 space
        ∷ alt (text_ci "auth" ∷ text_ci "security" ∷ text_ci "authentication" ∷ [])
        ∷ boundary
        ∷ []))
    ∷ (seq (
        boundary
        ∷ alt (text_ci "no" ∷ text_ci "without" ∷ [])
        ∷ at_least 1 space
        ∷ text_ci "authentication"
        ∷ boundary
        ∷ []))
    ∷ []
