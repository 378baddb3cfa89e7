-- ===== src/Config/Profiles/Change.antt =====
-- `set_tier` and `update_profile` of sifter/src/aa_sifter/config/profiles.py.
use aa.Prelude.{[], ◌∷◌, ℕ, String, Bool, Option, none, some, ◌⊎◌, inl, inr, given, if◌then◌else◌}
use aa.Prelude.Text.{◌≟◌, elem}
use aa.Prelude.Dict.{lookup, insert, truthy}
use aa.Config.Schema.{ApplicationConfig, ComputeProfile, ModelTierConfig, new_tier}
use aa.Config.Profiles.{ProfileError, unknown_tier, found, selected_name}

-- `if text: x = text` for an optional `x`
abbrev pub given_text : Option String → Option String → Option String
given_text new old = if truthy new then new else old

-- The arguments of `set_tier` behind the model.
pub record TierLimits : Type 0 where
  pub context_limit : Option ℕ
  pub max_output_tokens : Option ℕ
  pub endpoint : Option String
  pub api_key_env : Option String

-- The arguments of `update_profile`.
pub record ProfileUpdate : Type 0 where
  pub local_model : Option String
  pub expert_model : Option String
  pub routing : Option String
  pub cloud : Option Bool
  pub local_first : Option Bool
  pub context_limit : Option ℕ

module _ {F : Type 0} where
  -- The profile under a name is changed in place.
  unfoldable pub put_profile : ApplicationConfig F → String → ComputeProfile F → ApplicationConfig F
  unfolding insert
  put_profile app name profile = record app { profiles = insert name profile app.profiles }

  unfoldable pub choose_model : Option (ModelTierConfig F) → String → String → ModelTierConfig F
  choose_model none provider model = new_tier provider model
  choose_model (some t) provider model = record t { provider = provider; model = model }

  unfoldable pub limit_tier : TierLimits → ModelTierConfig F → ModelTierConfig F
  limit_tier limits t = record t {
    context_limit = given limits.context_limit t.context_limit;
    max_output_tokens = given limits.max_output_tokens t.max_output_tokens;
    endpoint = given_text limits.endpoint t.endpoint;
    api_key_env = given_text limits.api_key_env t.api_key_env;
  }

  -- The change that `set_tier` makes to the profile.
  unfoldable pub with_tier :
      (tier : String)
      → (provider : String) → (model : String) → TierLimits
      → ComputeProfile F
      → ComputeProfile F
  unfolding choose_model limit_tier
  with_tier tier provider model limits profile =
      if tier ≟ "local"
      then record profile {
        local = some (limit_tier limits (choose_model profile.local provider model));
      }
      else record profile {
        expert = some (limit_tier limits (choose_model profile.expert provider model));
      }

  -- `set_tier`
  unfoldable pub set_tier :
      ApplicationConfig F
      → (tier : String) → (provider : String) → (model : String) → Option String
      → TierLimits
      → ProfileError ⊎ ApplicationConfig F
  unfolding found lookup with_tier put_profile
  set_tier app tier provider model profile_name limits =
      let selected = selected_name app profile_name in
      elim (found selected (lookup app.profiles selected) (λ profile. profile)) [
        | inl e ↦ inl e
        | inr profile ↦
            if elem tier ("local" ∷ "expert" ∷ [])
            then inr (put_profile app selected (with_tier tier provider model limits profile))
            else inl (unknown_tier tier)
      ]

  -- `local_model` and `expert_model` of `update_profile`: an absent tier is made for the given provider.
  unfoldable pub renamed :
      String → Option String → Option (ModelTierConfig F) → Option (ModelTierConfig F)
  renamed provider none tier = tier
  renamed provider (some model) none =
      if truthy (some model) then some (new_tier provider model) else none
  renamed provider (some model) (some t) =
      if truthy (some model) then some (record t { model = model }) else some t

  -- `cloud` and `context_limit` of `update_profile`, on the tiers they concern.
  unfoldable pub switched : Option Bool → Option (ModelTierConfig F) → Option (ModelTierConfig F)
  switched none tier = tier
  switched (some cloud) none = none
  switched (some cloud) (some t) = some (record t { enabled = cloud })

  unfoldable pub limited : Option ℕ → Option (ModelTierConfig F) → Option (ModelTierConfig F)
  limited none tier = tier
  limited (some n) none = none
  limited (some n) (some t) = some (record t { context_limit = some n })

  unfoldable pub updated : ProfileUpdate → ComputeProfile F → ComputeProfile F
  unfolding renamed switched limited
  updated u profile = record profile {
    local = limited u.context_limit (renamed "ollama" u.local_model profile.local);
    expert = switched u.cloud (renamed "deepseek" u.expert_model profile.expert);
    routing_policy = elim u.routing [
      | none ↦ profile.routing_policy
      | some routing ↦ if truthy (some routing) then routing else profile.routing_policy
    ];
    preferences = record (profile.preferences) {
      cloud_allowed = elim u.cloud [
        | none ↦ profile.preferences.cloud_allowed
        | some cloud ↦ cloud
      ];
      local_first = elim u.local_first [
        | none ↦ profile.preferences.local_first
        | some first ↦ first
      ];
    };
  }

  -- `update_profile`
  unfoldable pub update_profile :
      ApplicationConfig F → Option String → ProfileUpdate → ProfileError ⊎ ApplicationConfig F
  unfolding found lookup updated put_profile
  update_profile app profile_name u =
      let selected = selected_name app profile_name in
      found selected (lookup app.profiles selected)
        (λ profile. put_profile app selected (updated u profile))
