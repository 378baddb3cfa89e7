-- ===== src/Config/Store.antt =====
-- sifter/src/aa_sifter/config/store.py: from the text of the file to a configuration. `tomllib` and the
-- decoding of fields are an argument, from a text to a document.
use aa.Prelude.{
  ℕ, List, [], ◌∷◌, ◌++◌, String, Bool, true, false, not, ◌||◌, Option, none, some, map, is_empty,
  is_some, ltb, get_or, ◌==◌, if◌then◌else◌,
}
use aa.Prelude.Text.{◌⧺◌, is_blank, show_ℕ}
use aa.Prelude.Dict.{lookup, insert, has}
use aa.Prelude.Float.{Float}
use aa.Models.Config.{SifterConfig}
use aa.Catalog.{ModelMetadata}
use aa.Config.Schema.{
  ApplicationConfig, ComputeProfile, ModelTierConfig, HardwareProfile, protect_gates,
}
use aa.Config.Defaults.{default_profile, default_application_config}
use aa.Config.Resolve.{Overrides, resolve_config}
pub mod Loaded

-- What `tomllib` reads: the keys of the document, the three legacy ones included.
pub record Document (F : Type 0) : Type 0 where
  pub version : Option ℕ
  pub active_profile : Option String
  pub active_hardware : Option String
  pub profiles : Option (List (String × ComputeProfile F))
  pub hardware : List (String × HardwareProfile F)
  pub local_model : Option String
  pub expert_model : Option String
  pub cloud_model : Option String

-- `document.pop(first, document.pop(second, None))`
unfoldable pub pop_first : Option String → Option String → Option String
pop_first none second = second
pop_first (some first) second = some first

module _ {F : Type 0} where
  -- A legacy model replaces the one of a tier.
  unfoldable pub legacy_model :
      Option String → Option (ModelTierConfig F) → Option (ModelTierConfig F)
  legacy_model model none = none
  legacy_model none (some tier) = some tier
  legacy_model (some model) (some tier) =
      if is_blank model then some tier else some (record tier { model = model })

  -- Its warning.
  unfoldable pub legacy_warnings :
      (key : String) → Option String → Option (ModelTierConfig F) → List String
  legacy_warnings key model none = []
  legacy_warnings key none (some tier) = []
  legacy_warnings key (some model) (some tier) =
      if is_blank model
      then []
      else ("migrated legacy " ⧺ (key ⧺ ("='" ⧺ (model ⧺ "' into the default profile")))) ∷ []

  -- `"profiles" not in document or not document["profiles"]`
  unfoldable pub lacks_profiles : Document F → Bool
  lacks_profiles document = elim document.profiles [
    | none ↦ true
    | some profiles ↦ is_empty profiles
  ]

module _ {F : Type 0} ⦃fl : Float F⦄ where
  -- `migrate`, its document
  unfoldable pub migrate : Document F → Document F
  unfolding legacy_model lacks_profiles pop_first
  migrate document =
      let profile : ComputeProfile F = default_profile "default" in
      if lacks_profiles document
      then record document {
        version = some 1;
        profiles = some (
            (
              "default",
              record profile {
                local = legacy_model document.local_model profile.local;
                expert =
                    legacy_model (pop_first document.expert_model document.cloud_model)
                      profile.expert;
              },
            )
            ∷ []);
        local_model = none;
        expert_model = none;
        cloud_model = none;
      }
      else record document { version = some 1 }

  -- `migrate`, its warnings
  unfoldable pub migrate_warnings : Document F → List String
  unfolding legacy_warnings lacks_profiles pop_first show_ℕ
  migrate_warnings document =
      let version = get_or document.version 0 in
      let profile : ComputeProfile F = default_profile "default" in
      (if ltb 1 version
        then ("config version "
            ⧺ (show_ℕ version ⧺ " is newer than supported 1; unknown fields are ignored"))
          ∷ []
        else [])
      ++ (if lacks_profiles document
          then legacy_warnings "local_model" document.local_model profile.local
            ++ (legacy_warnings "expert_model"
                  (pop_first document.expert_model document.cloud_model) profile.expert
                ++ (if version == 0
                    then []
                    else ("migrated config from version " ⧺ (show_ℕ version ⧺ " to 1")) ∷ []))
          else [])

  -- `ApplicationConfig.model_validate`: the defaults, and the validator of each profile's approval.
  unfoldable pub validated : ComputeProfile F → ComputeProfile F
  unfolding protect_gates
  validated profile = record profile { approval = protect_gates profile.approval }

  unfoldable pub validated_all : List (String × ComputeProfile F) → List (String × ComputeProfile F)
  unfolding validated
  validated_all [] = []
  validated_all ((name, profile) ∷ rest) = (name, validated profile) ∷ validated_all rest

  unfoldable pub model_validate : Document F → ApplicationConfig F
  unfolding validated_all
  model_validate document = record {
    version = get_or document.version 1;
    active_profile = get_or document.active_profile "default";
    active_hardware = document.active_hardware;
    profiles = validated_all (get_or document.profiles []);
    hardware = document.hardware;
  }

  -- The repairs at the end of `parse_application_config`.
  unfoldable pub with_default : ApplicationConfig F → ApplicationConfig F
  unfolding insert has
  with_default app =
      if not (has app.profiles "default")
      then record app { profiles = insert "default" (default_profile "default") app.profiles }
      else app

  unfoldable pub with_active : ApplicationConfig F → ApplicationConfig F
  unfolding has
  with_active app =
      if not (has app.profiles app.active_profile)
      then record app { active_profile = "default" }
      else app

  -- `parse_application_config`; none is the error of the decoding.
  unfoldable pub parse_application_config :
      (loads : String → Option (Document F)) → String → Option (ApplicationConfig F)
  unfolding migrate model_validate with_default with_active
  parse_application_config loads text = elim (loads text) [
    | none ↦ none
    | some document ↦ some (with_active (with_default (model_validate (migrate document))))
  ]

  -- `load_application_config`: the text of the file, where there is one.
  unfoldable pub load_application_config :
      (loads : String → Option (Document F)) → Option String → Option (ApplicationConfig F)
  unfolding parse_application_config
  load_application_config loads none = some default_application_config
  load_application_config loads (some text) = parse_application_config loads text

  -- `load_runtime_config`
  unfoldable pub load_runtime_config :
      (loads : String → Option (Document F))
      → (file : Option String) → (env : SifterConfig F) → (profile_name : Option String)
      → Option (Overrides F)
      → Option (List (ModelMetadata F))
      → Option (SifterConfig F)
  unfolding load_application_config resolve_config
  load_runtime_config loads file env profile_name overrides catalog =
      elim (load_application_config loads file) [
        | none ↦ none
        | some app ↦ some (resolve_config env app profile_name overrides catalog (is_some file))
      ]
