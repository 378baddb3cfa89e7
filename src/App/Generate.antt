-- ===== src/App/Generate.antt =====
-- `ComputeSifter.generate` of sifter/src/aa_sifter/app.py: one call without the gate of a run.
use aa.Prelude.{
  ℕ, List, ◌∷◌, [], String, not, ◌&&◌, Option, none, some, ◌⊎◌, inl, inr, ◌≡◌, false, refl,
  if◌then◌else◌, Bool-cases,
}
use aa.Prelude.Float.{Float}
use aa.Prelude.Text.{◌⧺◌, elem, lower}
use aa.Models.Provider.{Tier, local, expert, Message, provider_for}
use aa.Context.Redaction.{redact_model_messages}
use aa.App.State.{ComputeSifter, Call}
use aa.App.Calls.{model_of, is_cloud_bound}
use aa.App.Confinement.{leaves}

-- `Tier.EXPERT if str(tier).lower() in {"expert", "cloud"} else Tier.LOCAL`
unfoldable pub selected_tier : String → Tier
unfolding lower
selected_tier tier = if elem (lower tier) ("expert" ∷ "cloud" ∷ []) then expert else local

module _ {F : Type 0} ⦃fl : Float F⦄ where
  -- What `generate` hands to the provider. The provider's own defaults for the temperature and the
  -- length of an answer are the arguments.
  direct_call : ComputeSifter F → Tier → List Message → F → ℕ → String → Call F
  unfolding model_of is_cloud_bound
  direct_call app tier messages temperature max_tokens provider =
      let model = model_of app.config tier in
      record {
        tier = tier;
        provider = provider;
        model = model.name;
        messages =
            if is_cloud_bound tier model
            then redact_model_messages app.config.redact_secrets messages
            else messages;
        temperature = temperature;
        max_tokens = max_tokens;
      }

  guarded : ComputeSifter F → Tier → Option String → (String → Call F) → String ⊎ Call F
  unfolding model_of is_cloud_bound
  guarded app tier none call =
      inl ("No provider registered for model '" ⧺ ((model_of app.config tier).name ⧺ "'"))
  guarded app tier (some provider) call =
      if is_cloud_bound tier (model_of app.config tier) && not app.config.cloud_allowed
      then inl "cloud is disabled by the active profile (cloud_allowed = false)"
      else inr (call provider)

  -- `generate`: a `ProviderError`, or the call that is made.
  unfoldable pub generate :
      ComputeSifter F → List Message → (tier : String) → F → ℕ → String ⊎ Call F
  unfolding selected_tier direct_call guarded
  generate app messages tier temperature max_tokens =
      let selected = selected_tier tier in
      let model = model_of app.config selected in
      guarded app selected (provider_for app.providers model.name model.provider)
        (direct_call app selected messages temperature max_tokens)

  -- The call that is made for these messages, if there is one, is of the tier and its model, is allowed where it
  -- leaves the machine, and then has the redactor's image of these messages, and else the messages themselves.
  abbrev pub Confines : ComputeSifter F → Tier → List Message → String ⊎ Call F → Type 0
  Confines app tier messages (inl error) = Unit
  Confines app tier messages (inr call) =
      ((call.tier ≡ tier) × (call.model ≡ (model_of app.config tier).name))
      × (((leaves call && not app.config.cloud_allowed) ≡ false)
          × (call.messages ≡ (
              if leaves call
              then redact_model_messages app.config.redact_secrets messages
              else messages)))

  guarded-Confines :
      (app : ComputeSifter F) (tier : Tier) (messages : List Message) (temperature : F)
      (max_tokens : ℕ) (provider : Option String)
      → Confines app tier messages
          (guarded app tier provider (direct_call app tier messages temperature max_tokens))
  unfolding guarded direct_call
  guarded-Confines app tier messages temperature max_tokens none = tt
  guarded-Confines app tier messages temperature max_tokens (some provider) =
      elim (Bool-cases
        (is_cloud_bound tier (model_of app.config tier) && not app.config.cloud_allowed)) [
          | inl refused ↦ rw refused tt
          | inr allowed ↦ rw allowed ((refl, refl), (allowed, refl))
        ]

  -- The low-level entry, which no gate guards, keeps to the same rule as a run: whatever tier is
  -- asked for, a call that leaves the machine is made only where the configuration allows the cloud,
  -- and its messages are the redactor's image of the caller's; any other call has the caller's messages
  -- as they are. The call is of the tier that was asked for, and of this tier's model.
  pub generate-Confines :
      (app : ComputeSifter F) (messages : List Message) (tier : String) (temperature : F)
      (max_tokens : ℕ)
      → Confines app
          (selected_tier tier)
          messages
          (generate app messages tier temperature max_tokens)
  unfolding generate
  generate-Confines app messages tier temperature max_tokens =
      let selected = selected_tier tier in
      let model = model_of app.config selected in
      guarded-Confines app selected messages temperature max_tokens
        (provider_for app.providers model.name model.provider)
