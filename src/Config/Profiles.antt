-- ===== src/Config/Profiles.antt =====
-- sifter/src/aa_sifter/config/profiles.py: the operations on the profiles of a configuration, less the
-- saving of the file that ends each of them. An operation returns the configuration that it leaves.
use aa.Prelude.{
  ℕ, List, [], ◌∷◌, String, Bool, true, false, not, ◌&&◌, Option, none, some, ◌⊎◌, inl, inr, length,
  is_some, map, get_or, ◌==◌, if◌then◌else◌, Option-cases,
}
use aa.Prelude.Text.{◌≟◌, elem}
use aa.Prelude.Dict.{lookup, insert, remove, has, or_text, truthy}
use aa.Config.Schema.{
  ApplicationConfig, ComputeProfile, ModelTierConfig, UserPreferenceConfig, new_tier,
}
pub mod Change
pub mod Kept
pub mod Session

-- `ProfileError`, by the message that it carries.
pub data ProfileError : Type 0 where
  missing_profile : (name : String) → ProfileError
  existing_profile : (name : String) → ProfileError
  last_profile : ProfileError
  unknown_tier : (tier : String) → ProfileError

module _ {F : Type 0} where
  -- What follows a profile that is found, and the error for one that is not.
  unfoldable pub found :
      {A : Type 0} → String → Option (ComputeProfile F) → (ComputeProfile F → A) → ProfileError ⊎ A
  found name none f = inl (missing_profile name)
  found name (some profile) f = inr (f profile)

  -- `get_profile`, and the name that it selects.
  abbrev pub selected_name : ApplicationConfig F → Option String → String
  selected_name app name = or_text name app.active_profile

  unfoldable pub get_profile : ApplicationConfig F → Option String → ProfileError ⊎ ComputeProfile F
  unfolding found lookup
  get_profile app name =
      let selected = selected_name app name in
      found selected (lookup app.profiles selected) (λ profile. profile)

  -- The items of `list_profiles`: the name, whether it is the active one, and the profile.
  unfoldable pub list_profiles : ApplicationConfig F → List (String × (Bool × ComputeProfile F))
  list_profiles app = map (λ item. (item.0, (item.0 ≟ app.active_profile, item.1))) app.profiles

  -- `activate_profile`: `name` is what is looked up, and what becomes active.
  unfoldable pub activate_profile :
      ApplicationConfig F → String → ProfileError ⊎ ApplicationConfig F
  unfolding found lookup
  activate_profile app name =
      let selected = selected_name app (some name) in
      found selected (lookup app.profiles selected) (λ _. record app { active_profile = name })

  -- `create_profile`
  unfoldable pub create_profile :
      ApplicationConfig F
      → (name : String) → (source : Option String) → (force : Bool)
      → ProfileError ⊎ ApplicationConfig F
  unfolding found lookup insert has
  create_profile app name source force =
      let selected = selected_name app (some (or_text source app.active_profile)) in
      if has app.profiles name && not force
      then inl (existing_profile name)
      else found selected (lookup app.profiles selected)
          (λ base. record app { profiles = insert name (record base { name = name }) app.profiles })

  -- `copy_profile`
  unfoldable pub copy_profile :
      ApplicationConfig F
      → (source : String) → (target : String) → (force : Bool) → ProfileError ⊎ ApplicationConfig F
  unfolding create_profile
  copy_profile app source target force = create_profile app target (some source) force

  -- `next(iter(profiles))`, or the given name where there is none.
  unfoldable pub first_name : String → List (String × ComputeProfile F) → String
  first_name default [] = default
  first_name default ((name, _) ∷ rest) = name

  -- `del app.profiles[name]`, and the change of the active profile
  unfoldable pub deleted : ApplicationConfig F → String → ApplicationConfig F
  unfolding remove first_name
  deleted app name =
      let profiles = remove name app.profiles in
      record app {
        profiles = profiles;
        active_profile =
            if app.active_profile ≟ name
            then first_name app.active_profile profiles
            else app.active_profile;
      }

  -- `delete_profile`. The name that is deleted is the one given, also where an empty name has selected the
  -- active profile: `del` then raises the KeyError, for which `missing_profile` stands.
  unfoldable pub delete_profile : ApplicationConfig F → String → ProfileError ⊎ ApplicationConfig F
  unfolding found lookup has deleted
  delete_profile app name =
      let selected = selected_name app (some name) in
      if not (has app.profiles selected)
      then inl (missing_profile selected)
      else if length app.profiles == 1
      then inl last_profile
      else if not (has app.profiles name)
      then inl (missing_profile name)
      else inr (deleted app name)
