-- ===== src/Decisions/Signals.antt =====
-- `DecisionSignals` of sifter/src/aa_sifter/decisions/classifier.py, and how the classifier's
-- `detect_signals` and `level_for_signals` set and read them.
use aa.Prelude.{List, [], ◌∷◌, ◌++◌, String, Bool, false, any, if◌then◌else◌}
use aa.Prelude.Regex.{Regex, search}
use aa.Decisions.Level.{DecisionLevel, routine, significant, major, critical}
use aa.Decisions.Patterns.Critical
use aa.Decisions.Patterns.Major
use aa.Decisions.Patterns.Significant

pub record DecisionSignals : Type 0 where
  pub architecture_change : Bool
  pub framework_change : Bool
  pub database_change : Bool
  pub persistence_change : Bool
  pub auth_change : Bool
  pub new_external_service : Bool
  pub provider_change : Bool
  pub api_incompatible : Bool
  pub schema_migration : Bool
  pub security_boundary : Bool
  pub deployment_change : Bool
  pub scope_expansion : Bool
  pub remove_functionality : Bool
  pub new_major_dependency : Bool
  pub destructive : Bool
  pub data_deletion : Bool
  pub irreversible : Bool
  pub credential_change : Bool
  pub production_action : Bool
  pub large_expenditure : Bool
  pub confidential_exposure : Bool
  pub security_control_removal : Bool
  pub cross_file : Bool
  pub minor_dependency : Bool
  pub refactor : Bool
  pub migration_required : Bool

abbrev pub no_signals : DecisionSignals
no_signals = record {
  architecture_change = false;
  framework_change = false;
  database_change = false;
  persistence_change = false;
  auth_change = false;
  new_external_service = false;
  provider_change = false;
  api_incompatible = false;
  schema_migration = false;
  security_boundary = false;
  deployment_change = false;
  scope_expansion = false;
  remove_functionality = false;
  new_major_dependency = false;
  destructive = false;
  data_deletion = false;
  irreversible = false;
  credential_change = false;
  production_action = false;
  large_expenditure = false;
  confidential_exposure = false;
  security_control_removal = false;
  cross_file = false;
  minor_dependency = false;
  refactor = false;
  migration_required = false;
}

-- One entry of `triggered()`: the name, if the signal is set.
abbrev name_if : String → Bool → List String
name_if name value = if value then name ∷ [] else []

-- `names()`: the signals that are set, in the order of the fields.
unfoldable pub signal_names : DecisionSignals → List String
signal_names s =
    name_if "architecture_change" s.architecture_change
    ++ (name_if "framework_change" s.framework_change
        ++ (name_if "database_change" s.database_change
            ++ (name_if "persistence_change" s.persistence_change
                ++ (name_if "auth_change" s.auth_change
                    ++ (name_if "new_external_service" s.new_external_service
                        ++ (name_if "provider_change" s.provider_change
                            ++ (name_if "api_incompatible" s.api_incompatible
                                ++ (name_if "schema_migration" s.schema_migration
                                    ++ (name_if "security_boundary" s.security_boundary
                                        ++ (name_if "deployment_change" s.deployment_change
                                            ++ (name_if "scope_expansion" s.scope_expansion
                                                ++ (name_if "remove_functionality"
                                                      s.remove_functionality
                                                    ++ (name_if "new_major_dependency"
                                                          s.new_major_dependency
                                                        ++ (name_if "destructive" s.destructive
                                                            ++ (name_if "data_deletion"
                                                            s.data_deletion
                                                            ++ (name_if "irreversible"
                                                            s.irreversible
                                                            ++ (name_if "credential_change"
                                                            s.credential_change
                                                            ++ (name_if "production_action"
                                                            s.production_action
                                                            ++ (name_if "large_expenditure"
                                                            s.large_expenditure
                                                            ++ (name_if "confidential_exposure"
                                                            s.confidential_exposure
                                                            ++ (name_if "security_control_removal"
                                                            s.security_control_removal
                                                            ++ (name_if "cross_file" s.cross_file
                                                            ++ (name_if "minor_dependency"
                                                            s.minor_dependency
                                                            ++ (name_if "refactor" s.refactor
                                                            ++ (name_if "migration_required"
                                                            s.migration_required)))))))))))))))))))))))))

-- `_search`: whether any of the patterns is found.
unfoldable pub search_any : List Regex → String → Bool
unfolding search
search_any patterns text = any (λ pattern. search pattern text) patterns

unfoldable pub detect_signals : String → DecisionSignals
unfolding search_any
detect_signals text = record {
  architecture_change = search_any Major.architecture_change text;
  framework_change = search_any Major.framework_change text;
  database_change = search_any Major.database_change text;
  persistence_change = search_any Major.persistence_change text;
  auth_change = search_any Major.auth_change text;
  new_external_service = search_any Major.new_external_service text;
  provider_change = search_any Major.provider_change text;
  api_incompatible = search_any Major.api_incompatible text;
  schema_migration = search_any Major.schema_migration text;
  security_boundary = search_any Major.security_boundary text;
  deployment_change = search_any Major.deployment_change text;
  scope_expansion = search_any Major.scope_expansion text;
  remove_functionality = search_any Major.remove_functionality text;
  new_major_dependency = search_any Major.new_major_dependency text;
  destructive = search_any Critical.destructive text;
  data_deletion = search_any Critical.data_deletion text;
  irreversible = search_any Critical.irreversible text;
  credential_change = search_any Critical.credential_change text;
  production_action = search_any Critical.production_action text;
  large_expenditure = search_any Critical.large_expenditure text;
  confidential_exposure = search_any Critical.confidential_exposure text;
  security_control_removal = search_any Critical.security_control_removal text;
  cross_file = search_any Significant.cross_file text;
  minor_dependency = search_any Significant.minor_dependency text;
  refactor = search_any Significant.refactor text;
  migration_required = search_any Significant.migration_required text;
}

-- The lists that `level_for_signals` looks through.
abbrev pub critical_signals : DecisionSignals → List Bool
critical_signals s =
    s.destructive ∷ s.data_deletion ∷ s.irreversible ∷ s.credential_change ∷ s.production_action
    ∷ s.large_expenditure ∷ s.confidential_exposure ∷ s.security_control_removal ∷ []

abbrev pub major_signals : DecisionSignals → List Bool
major_signals s =
    s.architecture_change ∷ s.framework_change ∷ s.database_change ∷ s.persistence_change
    ∷ s.auth_change ∷ s.new_external_service ∷ s.provider_change ∷ s.api_incompatible
    ∷ s.schema_migration ∷ s.security_boundary ∷ s.deployment_change ∷ s.scope_expansion
    ∷ s.remove_functionality ∷ s.new_major_dependency ∷ []

abbrev pub significant_signals : DecisionSignals → List Bool
significant_signals s = s.refactor ∷ s.cross_file ∷ s.minor_dependency ∷ s.migration_required ∷ []

unfoldable pub level_for_signals : DecisionSignals → DecisionLevel
level_for_signals s =
    if any (λ b. b) (critical_signals s)
    then critical
    else if any (λ b. b) (major_signals s)
    then major
    else if any (λ b. b) (significant_signals s)
    then significant
    else routine
