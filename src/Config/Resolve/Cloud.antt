-- ===== src/Config/Resolve/Cloud.antt =====
-- What the configuration that sifter/src/aa_sifter/config/resolve.py resolves allows: the cloud, the
-- routes and the gates.
use aa.Prelude.{
  String, Bool, true, false, ◌&&◌, Option, none, some, inl, inr, List, get_or, ◌≡◌, ◌∙◌, ap, eq_iff,
  refl, arith, Option-cases, Bool-cases, ℕ,
}
use aa.Prelude.Dict.{lookup, or_text, AllValues, AllValues-lookup}
use aa.Prelude.Float.{Float}
use aa.Models.Config.{SifterConfig, IsSafe}
use aa.Catalog.{ModelMetadata}
use aa.Config.Schema.{ApplicationConfig, ComputeProfile, ModelTierConfig, ApprovalConfig}
use aa.Config.Resolve.{
  resolve_config, resolved_profile, apply_profile, apply_overrides, confine_policy, Overrides,
  goal_allows, apply_profile_to_config, with_expert, with_local, with_preferences, layered,
  local_only_policy, override,
}
use aa.Routing.Policy.{decide, local_route}
use aa.Routing.Policy.Cloud.{decide-configured}
use aa.Routing.Preflight.{PreflightAssessment}

-- Both gates of a profile's approval are closed, as `_protect_gates` leaves them.
pub record IsProtected (c : ApprovalConfig) : Type 0 where
  pub major_on : c.major ≡ true
  pub critical_on : c.critical ≡ true

module _ {F : Type 0} where
  -- What a profile says of the cloud: it has an expert that is enabled, and neither its preferences nor its
  -- goal forbid the cloud. Without a profile the environment says it.
  abbrev pub expert_enabled : Option (ModelTierConfig F) → Bool
  expert_enabled none = false
  expert_enabled (some tier) = tier.enabled

  abbrev pub profile_consents : Option (ComputeProfile F) → Bool → Bool
  profile_consents none env = env
  profile_consents (some profile) env =
      expert_enabled profile.expert
      && (profile.preferences.cloud_allowed && goal_allows profile.goal)

  abbrev pub override_of : Option (Overrides F) → Option Bool
  override_of none = none
  override_of (some o) = o.cloud_allowed

  -- The expert's tier decides whether the cloud is allowed, and the local one says nothing.
  with_expert-cloud_allowed :
      (catalog : Option (List (ModelMetadata F))) (tier : Option (ModelTierConfig F))
      (c : SifterConfig F)
      → (with_expert catalog tier c).cloud_allowed ≡ expert_enabled tier
  unfolding with_expert
  with_expert-cloud_allowed catalog none c = refl
  with_expert-cloud_allowed catalog (some tier) c = ground arith

  apply_profile-cloud_allowed :
      (profile : Option (ComputeProfile F)) (catalog : Option (List (ModelMetadata F)))
      (env : SifterConfig F)
      → (apply_profile profile catalog env).cloud_allowed
        ≡ profile_consents profile env.cloud_allowed
  unfolding apply_profile apply_profile_to_config
  apply_profile-cloud_allowed none catalog env = refl
  apply_profile-cloud_allowed (some profile) catalog env = ground (
    arith,
    with_expert-cloud_allowed catalog profile.expert
        (with_local profile.local (with_preferences profile env)),
  )

  apply_overrides-cloud_allowed :
      (o : Option (Overrides F)) (c : SifterConfig F)
      → (apply_overrides o c).cloud_allowed ≡ get_or (override_of o) c.cloud_allowed
  unfolding apply_overrides override
  apply_overrides-cloud_allowed none c = refl
  apply_overrides-cloud_allowed (some o) c = refl

  confine_policy-cloud_allowed :
      (c : SifterConfig F) → (confine_policy c).cloud_allowed ≡ c.cloud_allowed
  unfolding confine_policy
  confine_policy-cloud_allowed c = ground arith

  layered-cloud_allowed :
      (env : SifterConfig F) (profile : Option (ComputeProfile F)) (name : String)
      (o : Option (Overrides F)) (catalog : Option (List (ModelMetadata F)))
      → (layered env profile name o catalog).cloud_allowed
        ≡ get_or (override_of o) (profile_consents profile env.cloud_allowed)
  unfolding layered
  layered-cloud_allowed env profile name o catalog =
      apply_overrides-cloud_allowed o (apply_profile profile catalog env)
      ∙ ap (get_or (override_of o)) (apply_profile-cloud_allowed profile catalog env)

  -- The configuration of a run allows the cloud exactly where the command line says so or, where it says nothing, the
  -- profile has an enabled expert and neither its preferences nor its goal forbid the cloud; without a
  -- profile the environment decides.
  pub cloud_allowed-resolve_config :
      (env : SifterConfig F) (app : ApplicationConfig F) (name : Option String)
      (o : Option (Overrides F)) (catalog : Option (List (ModelMetadata F))) (apply : Bool)
      → (resolve_config env app name o catalog apply).cloud_allowed
        ≡ get_or
            (override_of o)
            (profile_consents (resolved_profile app name apply) env.cloud_allowed)
  unfolding resolve_config
  cloud_allowed-resolve_config env app name o catalog apply =
      let profile = resolved_profile app name apply in
      let selected = or_text name app.active_profile in
      confine_policy-cloud_allowed (layered env profile selected o catalog)
      ∙ layered-cloud_allowed env profile selected o catalog

  confine_policy-routing_policy :
      (c : SifterConfig F)
      → (confine_policy c).cloud_allowed ≡ false
      → (confine_policy c).routing_policy ≡ "local_only"
  unfolding confine_policy local_only_policy
  confine_policy-routing_policy c h = ground (arith, eq_iff c.routing_policy "local_only")

  routing_policy-resolve_config :
      (env : SifterConfig F) (app : ApplicationConfig F) (name : Option String)
      (o : Option (Overrides F)) (catalog : Option (List (ModelMetadata F))) (apply : Bool)
      → (resolve_config env app name o catalog apply).cloud_allowed ≡ false
      → (resolve_config env app name o catalog apply).routing_policy ≡ "local_only"
  unfolding resolve_config
  routing_policy-resolve_config env app name o catalog apply h =
      confine_policy-routing_policy
        (layered env (resolved_profile app name apply) (or_text name app.active_profile) o catalog)
        h

  -- The gates of a profile.
  abbrev IsClosed : Option (ComputeProfile F) → Type 0
  IsClosed none = Unit
  IsClosed (some p) = IsProtected p.approval

  resolved_profile-IsClosed :
      (app : ApplicationConfig F) (name : Option String) (apply : Bool)
      → AllValues (λ p. IsProtected p.approval) app.profiles
      → IsClosed (resolved_profile app name apply)
  unfolding resolved_profile
  resolved_profile-IsClosed app name false h = tt
  resolved_profile-IsClosed app name true h =
      let selected = or_text name app.active_profile in
      elim (Option-cases (lookup app.profiles selected)) [
        | inl e ↦ rw e tt
        | inr (p, e) ↦
            rw e (AllValues-lookup (λ p. IsProtected p.approval) app.profiles selected p h e)
      ]

  apply_profile-IsSafe :
      (env : SifterConfig F) (profile : Option (ComputeProfile F))
      (catalog : Option (List (ModelMetadata F)))
      → IsSafe env
      → IsClosed profile
      → IsSafe (apply_profile profile catalog env)
  unfolding apply_profile apply_profile_to_config
  apply_profile-IsSafe env none catalog safe h = safe
  apply_profile-IsSafe env (some p) catalog safe h = record {
    major_gate = h.major_on;
    critical_gate = h.critical_on;
  }

  apply_overrides-IsSafe :
      (o : Option (Overrides F)) (c : SifterConfig F) → IsSafe c → IsSafe (apply_overrides o c)
  unfolding apply_overrides override
  apply_overrides-IsSafe none c safe = safe
  apply_overrides-IsSafe (some o) c safe = record {
    major_gate = safe.major_gate;
    critical_gate = safe.critical_gate;
  }

  confine_policy-IsSafe : (c : SifterConfig F) → IsSafe c → IsSafe (confine_policy c)
  unfolding confine_policy
  confine_policy-IsSafe c safe = elim (Bool-cases (c.cloud_allowed)) [
    | inl e ↦ rw e record { major_gate = safe.major_gate; critical_gate = safe.critical_gate }
    | inr e ↦ rw e record { major_gate = safe.major_gate; critical_gate = safe.critical_gate }
  ]

  layered-IsSafe :
      (env : SifterConfig F) (profile : Option (ComputeProfile F)) (name : String)
      (o : Option (Overrides F)) (catalog : Option (List (ModelMetadata F)))
      → IsSafe env
      → IsClosed profile
      → IsSafe (layered env profile name o catalog)
  unfolding layered
  layered-IsSafe env profile name o catalog safe h =
      let kept =
        apply_overrides-IsSafe o (apply_profile profile catalog env)
          (apply_profile-IsSafe env profile catalog safe h) in
      record { major_gate = kept.major_gate; critical_gate = kept.critical_gate }

  -- A resolved configuration keeps both gates.
  pub resolve_config-IsSafe :
      (env : SifterConfig F) (app : ApplicationConfig F) (name : Option String)
      (o : Option (Overrides F)) (catalog : Option (List (ModelMetadata F))) (apply : Bool)
      → IsSafe env
      → AllValues (λ p. IsProtected p.approval) app.profiles
      → IsSafe (resolve_config env app name o catalog apply)
  unfolding resolve_config
  resolve_config-IsSafe env app name o catalog apply safe closed =
      confine_policy-IsSafe
        (layered env (resolved_profile app name apply) (or_text name app.active_profile) o catalog)
        (layered-IsSafe env (resolved_profile app name apply) (or_text name app.active_profile) o
          catalog safe (resolved_profile-IsClosed app name apply closed))

module _ {F : Type 0} ⦃fl : Float F⦄ where
  -- Where the configuration of a run does not allow the cloud, each route of a task that names no policy of its own is
  -- local, whatever was assessed, failed and budgeted.
  pub decide-resolve_config :
      (env : SifterConfig F) (app : ApplicationConfig F) (name : Option String)
      (o : Option (Overrides F)) (catalog : Option (List (ModelMetadata F))) (apply : Bool)
      → (resolve_config env app name o catalog apply).cloud_allowed ≡ false
      → (a : PreflightAssessment F) (failed : ℕ) (budget : Bool)
      → (decide (resolve_config env app name o catalog apply) a none failed budget).kind
        ≡ local_route
  decide-resolve_config env app name o catalog apply h a failed budget =
      decide-configured (resolve_config env app name o catalog apply) a failed budget
        (routing_policy-resolve_config env app name o catalog apply h)
