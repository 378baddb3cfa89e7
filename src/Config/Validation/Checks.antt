-- ===== src/Config/Validation/Checks.antt =====
-- When sifter/src/aa_sifter/config/validation.py finds nothing wrong with a profile.
use aa.Prelude.{
  ℕ, List, [], ◌∷◌, ◌++◌, String, Bool, true, false, not, ◌&&◌, ◌||◌, Option, none, some, is_empty,
  leb, if◌then◌else◌, ◌≡◌, refl, arith, Bool-cases, inl, inr,
}
use aa.Prelude.Text.{elem, is_blank}
use aa.Prelude.Dict.{lookup, truthy}
use aa.Prelude.Float.{Float}
use aa.Catalog.{ModelMetadata, catalog_get}
use aa.Config.Schema.{ComputeProfile, ModelTierConfig, HardwareProfile, is_negative}
use aa.Config.Resolve.{goal_allows}
use aa.Config.Validation.{
  ValidationResult, result_ok, nothing, ◌then_check◌, error_if, key_check, metadata_check,
  hardware_check, known_policies, known_providers, keyed_providers, check_tier, local_check,
  expert_check, validate_profile,
}

-- The key that a provider needs is named and, where credentials are required, set.
abbrev pub has_key : Option String → List (String × String) → Bool → Bool
has_key none environ required = false
has_key (some name) environ required =
    not (is_blank name) && (truthy (lookup environ name) || not required)

abbrev pub positive : Option ℕ → Bool
positive none = true
positive (some n) = not (leb n 0)

is_empty-append : {A : Type 0} (xs ys : List A) → is_empty (xs ++ ys) ≡ is_empty xs && is_empty ys
is_empty-append [] ys = refl
is_empty-append (x ∷ xs) ys = refl

ok-then_check : (a b : ValidationResult) → result_ok (a then_check b) ≡ result_ok a && result_ok b
ok-then_check a b = is_empty-append a.errors b.errors

ok-error_if : (test : Bool) (message : String) → result_ok (error_if test message) ≡ not test
ok-error_if true message = refl
ok-error_if false message = refl

key_check_lem :
    (label provider : String) (key : Option String) (environ : List (String × String))
    (required : Bool)
    → result_ok (key_check label provider key environ required) ≡ has_key key environ required
unfolding key_check
key_check_lem label provider none environ required = refl
key_check_lem label provider (some name) environ required = ground arith

limits_lem :
    (cost calls tokens : Bool)
    → result_ok (
        error_if cost "max_cloud_cost_per_task cannot be negative"
        then_check error_if calls "max_cloud_calls_per_task cannot be negative"
        then_check error_if tokens "max_cloud_tokens_per_task cannot be negative")
      ≡ not cost && (not calls && not tokens)
limits_lem true calls tokens = refl
limits_lem false true tokens = refl
limits_lem false false true = refl
limits_lem false false false = refl

module _ {F : Type 0} ⦃fl : Float F⦄ where
  -- What a tier needs: a provider, a model, a positive context and, for two of the providers, a key.
  abbrev pub usable_tier : List (String × String) → Bool → ModelTierConfig F → Bool
  usable_tier environ required tier =
      not (is_blank tier.provider)
      && (not (is_blank tier.model)
          && (positive tier.context_limit
              && (not (elem tier.provider keyed_providers)
                  || has_key tier.api_key_env environ required)))

  abbrev pub usable_local : List (String × String) → Bool → Option (ModelTierConfig F) → Bool
  usable_local environ required none = false
  usable_local environ required (some tier) = tier.enabled && usable_tier environ required tier

  abbrev pub usable_expert :
      List (String × String) → Bool → Bool → Option (ModelTierConfig F) → Bool
  usable_expert environ required cloud_allowed none = true
  usable_expert environ required cloud_allowed (some tier) =
      not (cloud_allowed && tier.enabled) || usable_tier environ required tier

  metadata_check_lem :
      (show : F → String) (label : String) (hardware : Option (HardwareProfile F))
      (tier : ModelTierConfig F) (metadata : Option (ModelMetadata F))
      → (metadata_check show label hardware tier metadata).errors ≡ []
  unfolding metadata_check hardware_check
  metadata_check_lem show label hardware tier none = refl
  metadata_check_lem show label none tier (some metadata) = refl
  metadata_check_lem show label (some hardware) tier (some metadata) = refl

  check_tier_lem :
      (show : F → String) (label : String) (catalog : List (ModelMetadata F))
      (hardware : Option (HardwareProfile F)) (environ : List (String × String)) (required : Bool)
      (tier : ModelTierConfig F)
      → result_ok (check_tier show label catalog hardware environ required tier)
        ≡ usable_tier environ required tier
  unfolding check_tier
  check_tier_lem show label catalog hardware environ required tier =
      let known = not (is_blank tier.provider) && not (elem tier.provider known_providers) in
      let key : ValidationResult =
        if elem tier.provider keyed_providers
        then key_check label tier.provider tier.api_key_env environ required
        else nothing in
      let metadata =
        metadata_check show label hardware tier (catalog_get catalog tier.provider tier.model) in
      ground (
        arith,
        key_check_lem label tier.provider tier.api_key_env environ required,
        metadata_check_lem show label hardware tier (catalog_get catalog tier.provider tier.model),
      )

  local_check_lem :
      (show : F → String) (catalog : List (ModelMetadata F)) (hardware : Option (HardwareProfile F))
      (environ : List (String × String)) (required : Bool) (tier : Option (ModelTierConfig F))
      → result_ok (local_check (check_tier show "local" catalog hardware environ required) tier)
        ≡ usable_local environ required tier
  unfolding local_check check_tier
  local_check_lem show catalog hardware environ required none = refl
  local_check_lem show catalog hardware environ required (some tier) =
      elim (Bool-cases tier.enabled) [
        | inl e ↦ rw e (check_tier_lem show "local" catalog hardware environ required tier)
        | inr e ↦ rw e refl
      ]

  expert_check_lem :
      (show : F → String) (catalog : List (ModelMetadata F)) (hardware : Option (HardwareProfile F))
      (environ : List (String × String)) (required : Bool) (cloud : Bool)
      (tier : Option (ModelTierConfig F))
      → result_ok
          (expert_check (check_tier show "expert" catalog hardware environ required) cloud tier)
        ≡ usable_expert environ required cloud tier
  unfolding expert_check
  expert_check_lem show catalog hardware environ required cloud none = refl
  expert_check_lem show catalog hardware environ required cloud (some tier) =
      elim (Bool-cases (cloud && tier.enabled)) [
        | inl e ↦ rw e (check_tier_lem show "expert" catalog hardware environ required tier)
        | inr e ↦ rw e refl
      ]

  -- A profile is found valid exactly when its policy is known, its local tier is enabled and usable, its
  -- expert's tier is usable or not allowed, and none of its limits on calls, tokens and cost is below zero: the
  -- catalogue and the hardware never make it invalid.
  pub result_ok-validate_profile :
      (show : F → String) (catalog : List (ModelMetadata F)) (hardware : Option (HardwareProfile F))
      (environ : List (String × String)) (required : Bool) (profile : ComputeProfile F)
      → result_ok (validate_profile show catalog hardware environ required profile)
        ≡ elem profile.routing_policy known_policies
          && (usable_local environ required profile.local
              && (usable_expert environ required
                    (profile.preferences.cloud_allowed && goal_allows profile.goal)
                    profile.expert
                  && (not (fl.lt profile.budget.max_cloud_cost_per_task (fl.of_ℕ 0))
                      && (not (is_negative profile.budget.max_cloud_calls_per_task)
                          && not (is_negative profile.budget.max_cloud_tokens_per_task)))))
  unfolding validate_profile
  result_ok-validate_profile show catalog hardware environ required profile =
      let cloud = profile.preferences.cloud_allowed && goal_allows profile.goal in
      let local =
        local_check (check_tier show "local" catalog hardware environ required) profile.local in
      let expert =
        expert_check (check_tier show "expert" catalog hardware environ required) cloud
          profile.expert in
      let cost = fl.lt profile.budget.max_cloud_cost_per_task (fl.of_ℕ 0) in
      let calls = is_negative profile.budget.max_cloud_calls_per_task in
      let tokens = is_negative profile.budget.max_cloud_tokens_per_task in
      let limits : ValidationResult =
        error_if cost "max_cloud_cost_per_task cannot be negative"
        then_check error_if calls "max_cloud_calls_per_task cannot be negative"
        then_check error_if tokens "max_cloud_tokens_per_task cannot be negative" in
      ground (
        arith,
        limits_lem cost calls tokens,
        is_empty-append local.errors (expert.errors ++ limits.errors),
        is_empty-append expert.errors limits.errors,
        local_check_lem show catalog hardware environ required profile.local,
        expert_check_lem show catalog hardware environ required cloud profile.expert,
      )
