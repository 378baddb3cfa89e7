-- ===== src/Decisions/Rules/Metadata.antt =====
-- `_TECH_FAMILIES`, `_APPROVAL_FRAMING`, `_KNOWN_GRANTS`, `derive_rule_metadata` and `_family_for` of
-- sifter/src/aa_sifter/decisions/policy.py.
use Prim.Native.Nat.{Ordering}
use Prim.Native.String.{compare}
use aa.Prelude.{
  List, [], ◌∷◌, ◌++◌, String, Option, none, some, any, filter, if◌then◌else◌, ◌≡◌, refl,
}
use aa.Prelude.Regex.{Regex, search, seq, alt, opt, at_least, space, text_ci, text, boundary}
use aa.Prelude.Text.{lower, contains, elem}

pub record Family : Type 0 where
  pub name : String
  pub terms : List String

abbrev pub tech_families : List Family
tech_families =
    record {
      name = "persistence";
      terms =
          "sqlite" ∷ "postgres" ∷ "postgresql" ∷ "mysql" ∷ "mariadb" ∷ "mongodb" ∷ "dynamodb"
          ∷ "oracle" ∷ "redis" ∷ "filesystem" ∷ [];
    }
    ∷ record {
      name = "frontend";
      terms = "react" ∷ "vue" ∷ "svelte" ∷ "angular" ∷ "next.js" ∷ "nextjs" ∷ "solid" ∷ [];
    }
    ∷ record {
      name = "backend";
      terms = "django" ∷ "fastapi" ∷ "flask" ∷ "rails" ∷ "laravel" ∷ "express" ∷ "nestjs" ∷ [];
    }
    ∷ record {
      name = "auth";
      terms =
          "oauth" ∷ "oidc" ∷ "saml" ∷ "sso" ∷ "jwt" ∷ "session" ∷ "basic auth" ∷ "auth"
          ∷ "authentication" ∷ [];
    }
    ∷ record {
      name = "provider";
      terms = "ollama" ∷ "openai" ∷ "anthropic" ∷ "deepseek" ∷ "bedrock" ∷ "azure openai" ∷ [];
    }
    ∷ record {
      name = "deployment";
      terms = "kubernetes" ∷ "k8s" ∷ "docker" ∷ "ecs" ∷ "lambda" ∷ "serverless" ∷ "bare metal" ∷ [];
    }
    ∷ []

-- `_family_for`: the first family that has the term.
unfoldable pub family_for : List Family → String → Option Family
family_for [] term = none
family_for (f ∷ fs) term = if elem term f.terms then some f else family_for fs term

-- `_APPROVAL_FRAMING`
unfoldable pub approval_framing : Regex
approval_framing = seq (
    boundary
    ∷ alt (
        text_ci "approved"
        ∷ text_ci "approve"
        ∷ seq (text_ci "use" ∷ at_least 1 space ∷ text_ci "only" ∷ [])
        ∷ seq (text_ci "must" ∷ at_least 1 space ∷ text_ci "use" ∷ [])
        ∷ seq (text_ci "stick" ∷ at_least 1 space ∷ text_ci "with" ∷ [])
        ∷ seq (text_ci "do" ∷ at_least 1 space ∷ text_ci "not" ∷ [])
        ∷ text_ci "don't"
        ∷ text_ci "never"
        ∷ seq (text_ci "no" ∷ at_least 1 space ∷ text_ci "other" ∷ [])
        ∷ text_ci "forbid"
        ∷ [])
    ∷ boundary
    ∷ [])

-- `_KNOWN_GRANTS`
known_grants : List (String × List Regex)
known_grants =
    (
      "cloud_debug_failed_tests",
      seq (
            text "debug"
            ∷ at_least 1 space
            ∷ opt (seq (text "failed" ∷ at_least 1 space ∷ []))
            ∷ text "tests"
            ∷ at_least 1 space
            ∷ text "automatically"
            ∷ [])
          ∷ seq (
              text "deepseek"
              ∷ at_least 1 space
              ∷ text "may"
              ∷ at_least 1 space
              ∷ text "debug"
              ∷ [])
          ∷ [],
    )
    ∷ (
      "cloud_auto_escalation",
      seq (text "automatically" ∷ at_least 1 space ∷ text "escalate" ∷ [])
          ∷ seq (
              text "may"
              ∷ at_least 1 space
              ∷ text "use"
              ∷ at_least 1 space
              ∷ text "cloud"
              ∷ at_least 1 space
              ∷ text "automatically"
              ∷ [])
          ∷ [],
    )
    ∷ []

-- A text put in its place in a sorted list, once: `sorted(set(…))` one text at a time.
unfoldable pub insert_unique : String → List String → List String
insert_unique s [] = s ∷ []
insert_unique s (t ∷ ts) =
    let rest = insert_unique s ts in
    elim (compare s t) [ Ordering.lt ↦ s ∷ t ∷ ts | Ordering.eq ↦ t ∷ ts | Ordering.gt ↦ t ∷ rest ]

unfoldable pub sorted_set : List String → List String
sorted_set [] = []
sorted_set (s ∷ ss) = insert_unique s (sorted_set ss)

unfoldable pub all_terms : List Family → List String
all_terms [] = []
all_terms (f ∷ fs) = f.terms ++ all_terms fs

matching_grants : String → List (String × List Regex) → List String
matching_grants lowered [] = []
matching_grants lowered ((grant, patterns) ∷ rest) =
    let others = matching_grants lowered rest in
    if any (λ pattern. search pattern lowered) patterns then grant ∷ others else others

pub record RuleMetadata : Type 0 where
  pub forbid_terms : List String
  pub grants : List String

-- `derive_rule_metadata(text)`
unfoldable pub derive_rule_metadata : String → RuleMetadata
unfolding approval_framing known_grants insert_unique sorted_set all_terms matching_grants search
    lower contains
derive_rule_metadata text =
    let lowered = lower text in
    record {
      forbid_terms = sorted_set (
          if search approval_framing text
          then filter (λ term. contains lowered term) (all_terms tech_families)
          else []);
      grants = sorted_set (matching_grants lowered known_grants);
    }

-- A rule text names the technologies that it approves and the grants that it makes.
derive_test :
    derive_rule_metadata "Use only SQLite; DeepSeek may debug"
    ≡ record { forbid_terms = "deepseek" ∷ "sqlite" ∷ []; grants = "cloud_debug_failed_tests" ∷ [] }
unfolding derive_rule_metadata
derive_test = refl
