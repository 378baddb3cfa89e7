-- ===== src/Models/Provider.antt =====
-- sifter/src/aa_sifter/models/provider.py: tiers, messages, results, and `ModelRegistry`. A provider is
-- known by its name; its `generate` belongs to the outside world.
use Prim.Native.Char.{code}
use aa.Prelude.{
  ℕ, List, [], ◌∷◌, String, Bool, true, false, ◌&&◌, Option, none, some, ◌==◌, if◌then◌else◌,
}
use aa.Prelude.Text.{◌≟◌, elem, is_blank}

pub data Tier : Type 0 where
  local expert : Tier

-- `tier.value`
unfoldable pub tier_value : Tier → String
tier_value local = "local"
tier_value expert = "expert"

abbrev pub is_local : Tier → Bool
is_local local = true
is_local expert = false

pub data Role : Type 0 where
  system user assistant tool : Role

-- `role.value`
unfoldable pub role_value : Role → String
role_value system = "system"
role_value user = "user"
role_value assistant = "assistant"
role_value tool = "tool"

abbrev pub is_system : Role → Bool
is_system system = true
is_system _ = false

pub record Message : Type 0 where
  pub role : Role
  pub content : String

abbrev pub system_message : String → Message
system_message content = record { role = system; content = content }

abbrev pub user_message : String → Message
user_message content = record { role = user; content = content }

abbrev pub assistant_message : String → Message
assistant_message content = record { role = assistant; content = content }

pub record GenerationResult (F : Type 0) : Type 0 where
  pub text : String
  pub model : String
  pub tier : Tier
  pub input_tokens : ℕ
  pub output_tokens : ℕ
  pub duration_ms : F

-- Everything behind the first colon of a text, if it has one: `model_name.split(":", 1)[1]`.
after_first_colon : String → Option String
after_first_colon String.[] = none
after_first_colon (String.◌∷◌ c s) =
    let rest = after_first_colon s in if code c == b':' then some s else rest

unfoldable pub is_cloud_alias : String → Bool
unfolding after_first_colon
is_cloud_alias name = elim (after_first_colon name) [ none ↦ false | some s ↦ s ≟ "cloud" ]

-- `return next(iter(self._providers.values()))` where there is exactly one provider
only_one : List String → Option String
only_one (p ∷ []) = some p
only_one _ = none

not_blank : String → Bool
not_blank s = elim (is_blank s) [ true ↦ false | false ↦ true ]

-- `provider_for(model_name, default)`: the name of the provider, or `none` for `ProviderError`.
unfoldable pub provider_for : List String → String → String → Option String
unfolding is_cloud_alias only_one not_blank
provider_for providers model_name default =
    if is_cloud_alias model_name && elem "ollama" providers
    then some "ollama"
    else if not_blank default && elem default providers
    then some default
    else only_one providers
