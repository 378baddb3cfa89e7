-- ===== src/Decisions/Patterns/Major.antt =====
-- `_MAJOR_PATTERNS` of sifter/src/aa_sifter/decisions/classifier.py: a list of patterns for each signal.
use aa.Prelude.{List, [], ◌∷◌}
use aa.Prelude.Regex.{Regex, seq, alt, opt, star, at_least, dot, space, text_ci, one_of, boundary}

unfoldable pub architecture_change : List Regex
architecture_change =
    (seq (boundary ∷ text_ci "architectur" ∷ alt (text_ci "e" ∷ text_ci "al" ∷ []) ∷ boundary ∷ []))
    ∷ (seq (boundary ∷ text_ci "micro" ∷ opt (one_of "- ") ∷ text_ci "service" ∷ []))
    ∷ (seq (boundary ∷ text_ci "monolith" ∷ []))
    ∷ (seq (boundary ∷ text_ci "re" ∷ opt (one_of "- ") ∷ text_ci "architect" ∷ boundary ∷ []))
    ∷ (seq (boundary ∷ text_ci "system" ∷ at_least 1 space ∷ text_ci "design" ∷ boundary ∷ []))
    ∷ []

unfoldable pub framework_change : List Regex
framework_change =
    (seq (
      boundary
      ∷ alt (
          text_ci "change"
          ∷ text_ci "switch"
          ∷ text_ci "replace"
          ∷ text_ci "migrate"
          ∷ text_ci "adopt"
          ∷ [])
      ∷ boundary
      ∷ star dot
      ∷ boundary
      ∷ text_ci "framework"
      ∷ boundary
      ∷ []))
    ∷ (seq (boundary ∷ text_ci "new" ∷ at_least 1 space ∷ text_ci "framework" ∷ boundary ∷ []))
    ∷ (seq (
        boundary
        ∷ alt (
            text_ci "react"
            ∷ text_ci "vue"
            ∷ text_ci "angular"
            ∷ text_ci "svelte"
            ∷ seq (text_ci "next" ∷ opt (text_ci ".") ∷ text_ci "js" ∷ [])
            ∷ text_ci "django"
            ∷ text_ci "rails"
            ∷ text_ci "laravel"
            ∷ [])
        ∷ boundary
        ∷ []))
    ∷ []

unfoldable pub database_change : List Regex
database_change =
    (seq (
      boundary
      ∷ alt (
          text_ci "changing"
          ∷ text_ci "change"
          ∷ text_ci "switch"
          ∷ text_ci "replace"
          ∷ text_ci "swap"
          ∷ seq (text_ci "migrate" ∷ at_least 1 space ∷ text_ci "to" ∷ [])
          ∷ [])
      ∷ boundary
      ∷ star dot
      ∷ boundary
      ∷ seq (text_ci "d" ∷ alt (text_ci "atabase" ∷ text_ci "b" ∷ []) ∷ [])
      ∷ boundary
      ∷ []))
    ∷ (seq (
        boundary
        ∷ seq (text_ci "d" ∷ alt (text_ci "atabase" ∷ text_ci "b" ∷ []) ∷ [])
        ∷ at_least 1 space
        ∷ text_ci "technology"
        ∷ boundary
        ∷ []))
    ∷ (seq (
        boundary
        ∷ alt (
            text_ci "postgres"
            ∷ text_ci "postgresql"
            ∷ text_ci "mysql"
            ∷ text_ci "mariadb"
            ∷ text_ci "mongodb"
            ∷ text_ci "oracle"
            ∷ text_ci "dynamodb"
            ∷ [])
        ∷ boundary
        ∷ []))
    ∷ (seq (
        boundary
        ∷ text_ci "large"
        ∷ at_least 1 space
        ∷ text_ci "database"
        ∷ at_least 1 space
        ∷ text_ci "migration"
        ∷ boundary
        ∷ []))
    ∷ (seq (boundary ∷ text_ci "schema" ∷ at_least 1 space ∷ text_ci "redesign" ∷ boundary ∷ []))
    ∷ (seq (boundary ∷ text_ci "major" ∷ at_least 1 space ∷ text_ci "schema" ∷ boundary ∷ []))
    ∷ []

unfoldable pub persistence_change : List Regex
persistence_change =
    (seq (
      boundary
      ∷ text_ci "persistence"
      ∷ at_least 1 space
      ∷ alt (text_ci "architecture" ∷ text_ci "layer" ∷ text_ci "strategy" ∷ text_ci "design" ∷ [])
      ∷ boundary
      ∷ []))
    ∷ (seq (
        boundary
        ∷ text_ci "re"
        ∷ opt (one_of "- ")
        ∷ text_ci "design"
        ∷ boundary
        ∷ star dot
        ∷ boundary
        ∷ text_ci "persistence"
        ∷ boundary
        ∷ []))
    ∷ (seq (
        boundary
        ∷ text_ci "replace"
        ∷ boundary
        ∷ star dot
        ∷ boundary
        ∷ alt (
            text_ci "sqlite"
            ∷ text_ci "persistence"
            ∷ seq (text_ci "storage" ∷ at_least 1 space ∷ text_ci "layer" ∷ [])
            ∷ [])
        ∷ boundary
        ∷ []))
    ∷ (seq
        (boundary ∷ text_ci "storage" ∷ at_least 1 space ∷ text_ci "architecture" ∷ boundary ∷ []))
    ∷ []

unfoldable pub auth_change : List Regex
auth_change =
    (seq (boundary ∷ text_ci "oauth" ∷ boundary ∷ []))
    ∷ (seq (boundary ∷ text_ci "oidc" ∷ boundary ∷ []))
    ∷ (seq (boundary ∷ text_ci "saml" ∷ boundary ∷ []))
    ∷ (seq (boundary ∷ text_ci "sso" ∷ boundary ∷ []))
    ∷ (seq (
        boundary
        ∷ text_ci "auth"
        ∷ opt (text_ci "entication")
        ∷ at_least 1 space
        ∷ alt (
            text_ci "architecture"
            ∷ text_ci "provider"
            ∷ text_ci "system"
            ∷ text_ci "strategy"
            ∷ text_ci "model"
            ∷ [])
        ∷ boundary
        ∷ []))
    ∷ (seq (
        boundary
        ∷ alt (
            text_ci "change"
            ∷ text_ci "replace"
            ∷ text_ci "switch"
            ∷ text_ci "redesign"
            ∷ text_ci "rework"
            ∷ [])
        ∷ boundary
        ∷ star dot
        ∷ boundary
        ∷ text_ci "auth"
        ∷ opt (alt (text_ci "entication" ∷ text_ci "orization" ∷ []))
        ∷ boundary
        ∷ []))
    ∷ (seq (
        boundary
        ∷ text_ci "auth"
        ∷ opt (alt (text_ci "entication" ∷ text_ci "orization" ∷ []))
        ∷ boundary
        ∷ star dot
        ∷ boundary
        ∷ alt (text_ci "architecture" ∷ text_ci "provider" ∷ text_ci "strategy" ∷ [])
        ∷ boundary
        ∷ []))
    ∷ []

unfoldable pub new_external_service : List Regex
new_external_service =
    (seq (
      boundary
      ∷ text_ci "new"
      ∷ at_least 1 space
      ∷ alt (
          text_ci "external"
          ∷ seq (text_ci "third" ∷ one_of "- " ∷ text_ci "party" ∷ [])
          ∷ text_ci "major"
          ∷ [])
      ∷ at_least 1 space
      ∷ alt (text_ci "service" ∷ text_ci "provider" ∷ text_ci "api" ∷ text_ci "vendor" ∷ [])
      ∷ boundary
      ∷ []))
    ∷ (seq (
        boundary
        ∷ text_ci "introduc"
        ∷ alt (text_ci "e" ∷ text_ci "ing" ∷ [])
        ∷ boundary
        ∷ star dot
        ∷ boundary
        ∷ alt (text_ci "service" ∷ text_ci "vendor" ∷ text_ci "provider" ∷ [])
        ∷ boundary
        ∷ []))
    ∷ (seq (
        boundary
        ∷ alt (
            text_ci "stripe"
            ∷ text_ci "twilio"
            ∷ text_ci "sendgrid"
            ∷ text_ci "auth0"
            ∷ text_ci "okta"
            ∷ text_ci "datadog"
            ∷ text_ci "sentry"
            ∷ [])
        ∷ boundary
        ∷ []))
    ∷ []

unfoldable pub provider_change : List Regex
provider_change =
    (seq (
      boundary
      ∷ alt (text_ci "cloud" ∷ text_ci "model" ∷ text_ci "inference" ∷ text_ci "llm" ∷ [])
      ∷ at_least 1 space
      ∷ text_ci "provider"
      ∷ boundary
      ∷ []))
    ∷ (seq (
        boundary
        ∷ text_ci "provider"
        ∷ at_least 1 space
        ∷ alt (text_ci "layer" ∷ text_ci "strategy" ∷ text_ci "change" ∷ text_ci "switch" ∷ [])
        ∷ boundary
        ∷ []))
    ∷ (seq (
        boundary
        ∷ text_ci "replace"
        ∷ at_least 1 space
        ∷ alt (text_ci "ollama" ∷ text_ci "openai" ∷ text_ci "anthropic" ∷ text_ci "deepseek" ∷ [])
        ∷ boundary
        ∷ []))
    ∷ (seq (
        boundary
        ∷ text_ci "switch"
        ∷ at_least 1 space
        ∷ opt (seq (text_ci "to" ∷ at_least 1 space ∷ []))
        ∷ alt (
            text_ci "openai"
            ∷ text_ci "anthropic"
            ∷ text_ci "deepseek"
            ∷ text_ci "bedrock"
            ∷ text_ci "azure"
            ∷ [])
        ∷ boundary
        ∷ []))
    ∷ []

unfoldable pub api_incompatible : List Regex
api_incompatible =
    (seq (
      boundary
      ∷ text_ci "breaking"
      ∷ at_least 1 space
      ∷ alt (text_ci "change" ∷ text_ci "api" ∷ [])
      ∷ boundary
      ∷ []))
    ∷ (seq (
        boundary
        ∷ text_ci "backward"
        ∷ opt (text_ci "s")
        ∷ one_of "- "
        ∷ text_ci "incompatible"
        ∷ boundary
        ∷ []))
    ∷ (seq (
        boundary
        ∷ text_ci "public"
        ∷ at_least 1 space
        ∷ text_ci "api"
        ∷ boundary
        ∷ star dot
        ∷ boundary
        ∷ alt (text_ci "change" ∷ text_ci "break" ∷ [])
        ∷ boundary
        ∷ []))
    ∷ (seq (
        boundary
        ∷ text_ci "change"
        ∷ at_least 1 space
        ∷ text_ci "the"
        ∷ at_least 1 space
        ∷ text_ci "public"
        ∷ at_least 1 space
        ∷ text_ci "api"
        ∷ boundary
        ∷ []))
    ∷ []

unfoldable pub schema_migration : List Regex
schema_migration =
    (seq (
      boundary
      ∷ alt (text_ci "schema" ∷ text_ci "data" ∷ [])
      ∷ at_least 1 space
      ∷ text_ci "migration"
      ∷ boundary
      ∷ []))
    ∷ (seq (
        boundary
        ∷ text_ci "migrate"
        ∷ at_least 1 space
        ∷ opt (seq (text_ci "the" ∷ at_least 1 space ∷ []))
        ∷ alt (text_ci "schema" ∷ text_ci "database" ∷ [])
        ∷ boundary
        ∷ []))
    ∷ (seq (
        boundary
        ∷ text_ci "schema"
        ∷ at_least 1 space
        ∷ alt (text_ci "change" ∷ text_ci "version" ∷ [])
        ∷ boundary
        ∷ []))
    ∷ []

unfoldable pub security_boundary : List Regex
security_boundary =
    (seq (
      boundary
      ∷ text_ci "security"
      ∷ at_least 1 space
      ∷ alt (text_ci "boundary" ∷ text_ci "boundaries" ∷ text_ci "model" ∷ text_ci "posture" ∷ [])
      ∷ boundary
      ∷ []))
    ∷ (seq (boundary ∷ text_ci "trust" ∷ at_least 1 space ∷ text_ci "boundary" ∷ boundary ∷ []))
    ∷ (seq (boundary ∷ text_ci "permission" ∷ at_least 1 space ∷ text_ci "model" ∷ boundary ∷ []))
    ∷ []

unfoldable pub deployment_change : List Regex
deployment_change =
    (seq
      (boundary ∷ text_ci "deployment" ∷ at_least 1 space ∷ text_ci "architecture" ∷ boundary ∷ []))
    ∷ (seq (boundary ∷ text_ci "kubernetes" ∷ boundary ∷ []))
    ∷ (seq (boundary ∷ text_ci "k8s" ∷ boundary ∷ []))
    ∷ (seq (
        boundary
        ∷ alt (
            seq (text_ci "docker" ∷ at_least 1 space ∷ text_ci "swarm" ∷ [])
            ∷ text_ci "infrastructure"
            ∷ seq (text_ci "hosting" ∷ at_least 1 space ∷ text_ci "provider" ∷ [])
            ∷ [])
        ∷ boundary
        ∷ []))
    ∷ (seq (
        boundary
        ∷ text_ci "deploy"
        ∷ opt (text_ci "ment")
        ∷ at_least 1 space
        ∷ alt (text_ci "to" ∷ text_ci "on" ∷ [])
        ∷ boundary
        ∷ star dot
        ∷ boundary
        ∷ alt (text_ci "cloud" ∷ text_ci "aws" ∷ text_ci "azure" ∷ text_ci "gcp" ∷ [])
        ∷ boundary
        ∷ []))
    ∷ []

unfoldable pub scope_expansion : List Regex
scope_expansion =
    (seq (
      boundary
      ∷ text_ci "expandin"
      ∷ opt (text_ci "g")
      ∷ at_least 1 space
      ∷ opt (seq (text_ci "the" ∷ at_least 1 space ∷ []))
      ∷ text_ci "scope"
      ∷ boundary
      ∷ []))
    ∷ (seq (boundary ∷ text_ci "major" ∷ at_least 1 space ∷ text_ci "scope" ∷ boundary ∷ []))
    ∷ (seq (
        boundary
        ∷ text_ci "substantially"
        ∷ at_least 1 space
        ∷ alt (text_ci "expand" ∷ text_ci "increase" ∷ [])
        ∷ boundary
        ∷ []))
    ∷ (seq (
        boundary
        ∷ text_ci "new"
        ∷ at_least 1 space
        ∷ text_ci "major"
        ∷ at_least 1 space
        ∷ alt (text_ci "feature" ∷ text_ci "capability" ∷ text_ci "component" ∷ [])
        ∷ boundary
        ∷ []))
    ∷ []

unfoldable pub remove_functionality : List Regex
remove_functionality =
    (seq (
      boundary
      ∷ text_ci "remove"
      ∷ at_least 1 space
      ∷ alt (text_ci "major" ∷ text_ci "core" ∷ text_ci "existing" ∷ [])
      ∷ at_least 1 space
      ∷ alt (text_ci "functionality" ∷ text_ci "feature" ∷ text_ci "module" ∷ [])
      ∷ boundary
      ∷ []))
    ∷ (seq (
        boundary
        ∷ text_ci "delete"
        ∷ at_least 1 space
        ∷ opt (seq (text_ci "the" ∷ at_least 1 space ∷ []))
        ∷ alt (text_ci "feature" ∷ text_ci "module" ∷ text_ci "subsystem" ∷ [])
        ∷ boundary
        ∷ []))
    ∷ []

unfoldable pub new_major_dependency : List Regex
new_major_dependency =
    (seq (
      boundary
      ∷ text_ci "major"
      ∷ at_least 1 space
      ∷ opt (seq (text_ci "third" ∷ one_of "- " ∷ text_ci "party" ∷ at_least 1 space ∷ []))
      ∷ alt (text_ci "dependency" ∷ text_ci "library" ∷ text_ci "package" ∷ [])
      ∷ boundary
      ∷ []))
    ∷ (seq (
        boundary
        ∷ text_ci "add"
        ∷ at_least 1 space
        ∷ opt (seq (text_ci "a" ∷ at_least 1 space ∷ []))
        ∷ alt (
            text_ci "major"
            ∷ seq (text_ci "new" ∷ at_least 1 space ∷ text_ci "foundational" ∷ [])
            ∷ [])
        ∷ at_least 1 space
        ∷ alt (text_ci "dependency" ∷ text_ci "framework" ∷ [])
        ∷ boundary
        ∷ []))
    ∷ []
