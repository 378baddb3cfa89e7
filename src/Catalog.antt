-- ===== src/Catalog.antt =====
-- sifter/src/aa_sifter/catalog: what is known of models. The bundled file of models is an argument.
use aa.Prelude.{
  ℕ, List, [], ◌∷◌, String, Bool, true, false, not, ◌&&◌, Option, none, some, all, filter, is_empty,
  if◌then◌else◌,
}
use aa.Prelude.Text.{◌⧺◌, elem}
use aa.Prelude.Dict.{lookup, insert}

pub record CostMetadata (F : Type 0) : Type 0 where
  pub input_per_mtok : F
  pub output_per_mtok : F

pub record ModelMetadata (F : Type 0) : Type 0 where
  pub provider : String
  pub model_id : String
  pub display_name : String
  pub parameter_count_b : Option F
  pub minimum_vram_gb : Option F
  pub recommended_vram_gb : Option F
  pub minimum_ram_gb : Option F
  pub context_window : Option ℕ
  pub capabilities : List String
  pub strengths : List String
  pub local : Bool
  pub cloud : Bool
  pub tool_use : Bool
  pub structured_output : Bool
  pub cost : Option (CostMetadata F)

-- Python's `required.issubset(capabilities)`
abbrev pub subset : List String → List String → Bool
subset required capabilities = all (λ c. elem c capabilities) required

-- A test that is not asked for holds.
unfoldable pub asked : Option Bool → Bool → Bool
asked none value = true
asked (some true) value = value
asked (some false) value = not value

unfoldable pub among : Option (List String) → String → Bool
among none s = true
among (some names) s = elem s names

module _ {F : Type 0} where
  -- `has_capabilities`, `supports` and `key`
  unfoldable pub has_capabilities : ModelMetadata F → List String → Bool
  has_capabilities m required = if is_empty required then true else subset required m.capabilities

  unfoldable pub supports : ModelMetadata F → String → Bool
  supports m capability = elem capability m.capabilities

  unfoldable pub key : ModelMetadata F → String
  key m = m.provider ⧺ ("/" ⧺ m.model_id)

  -- `_by_key`: of two models with one key the later stands.
  unfoldable pub by_key :
      List (ModelMetadata F) → List (String × ModelMetadata F) → List (String × ModelMetadata F)
  unfolding insert key
  by_key [] d = d
  by_key (m ∷ ms) d = by_key ms (insert (key m) m d)

  -- `ModelCatalog.get`
  unfoldable pub catalog_get : List (ModelMetadata F) → String → String → Option (ModelMetadata F)
  unfolding by_key lookup
  catalog_get models provider model_id = lookup (by_key models []) (provider ⧺ ("/" ⧺ model_id))

  -- `local_models` and `cloud_models`
  unfoldable pub local_models : List (ModelMetadata F) → List (ModelMetadata F)
  local_models models = filter (λ m. m.local) models

  unfoldable pub cloud_models : List (ModelMetadata F) → List (ModelMetadata F)
  cloud_models models = filter (λ m. m.cloud) models

  -- `ModelCatalog.filter`
  unfoldable pub filter_models :
      List (ModelMetadata F)
      → (local : Option Bool) → (cloud : Option Bool) → (providers : Option (List String))
      → (capabilities : List String) → List (ModelMetadata F)
  unfolding asked among has_capabilities
  filter_models models local cloud providers capabilities =
      filter
        (λ m.
          asked local m.local
          && (asked cloud m.cloud
              && (among providers m.provider && has_capabilities m capabilities)))
        models
