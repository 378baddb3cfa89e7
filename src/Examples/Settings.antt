-- ===== src/Examples/Settings.antt =====
-- Profiles, their files and the configurations that they give, at concrete inputs.
use aa.Prelude.{ℕ, [], ◌∷◌, String, true, false, ◌&&◌, Option, none, some, inl, inr, ◌≡◌, refl}
use mathlib.Core.Path.{subst}
use aa.Prelude.Text.{◌⧺◌, elem}
use aa.Prelude.Float.{nat_float}
use aa.Prelude.Dict.{lookup, has}
use aa.Models.Config.{IsSafe}
use aa.Routing.Policy.{decide, local_route}
use aa.Config.Schema.{ApplicationConfig, ComputeProfile}
use aa.Config.Defaults.{default_application_config, default_profile}
use aa.Config.Profiles.{missing_profile, get_profile, create_profile, delete_profile}
use aa.Config.Profiles.Kept.{IsWellFormed}
use aa.Config.Profiles.Session.{
  activating, creating, deleting, perform, perform-IsWellFormed, get_profile-create_profile,
  get_profile-delete_profile,
}
use aa.Config.Resolve.{resolve_config, resolved_profile, Overrides}
use aa.Config.Resolve.Cloud.{cloud_allowed-resolve_config, decide-resolve_config}
use aa.Config.Store.{Document, load_runtime_config}
use aa.Config.Store.Loaded.{load_runtime_config-Safe, Safe, Distinct}
use aa.Config.Toml.{quoted}
use aa.Config.Toml.Reading.{plain, read_string, read_string-quoted}
use aa.Config.Validation.{validate_profile, result_ok, known_policies}
use aa.Config.Validation.Checks.{result_ok-validate_profile, usable_local, usable_expert}
use aa.Config.Resolve.{goal_allows}
use aa.Examples.Sample.{sample_config}
use aa.Examples.Routes.{sample_assessment}

abbrev pub sample_settings : ApplicationConfig ℕ
sample_settings = default_application_config

abbrev private_profile : ComputeProfile ℕ
private_profile =
    let p : ComputeProfile ℕ = default_profile "private" in
    record p { preferences = record (p.preferences) { cloud_allowed = false } }

abbrev private_app : ApplicationConfig ℕ
private_app = record sample_settings {
  active_profile = "private";
  profiles = ("default", default_profile "default") ∷ ("private", private_profile) ∷ [];
}

abbrev no_overrides : Option (Overrides ℕ)
no_overrides = none

cloud_allowed-resolve_config_example :
    (resolve_config sample_config private_app none no_overrides none true).cloud_allowed ≡ false
unfolding resolved_profile
cloud_allowed-resolve_config_example =
    cloud_allowed-resolve_config sample_config private_app none no_overrides none true

decide-resolve_config_example :
    (decide
      (resolve_config sample_config private_app none no_overrides none true)
      sample_assessment
      none
      0
      true).kind
    ≡ local_route
unfolding resolved_profile
decide-resolve_config_example =
    decide-resolve_config sample_config private_app none no_overrides none true
      (cloud_allowed-resolve_config sample_config private_app none no_overrides none true)
      sample_assessment 0 true

-- A document with an open gate.
abbrev sample_document : Document ℕ
sample_document = record {
  version = some 1;
  active_profile = some "gone";
  active_hardware = none;
  profiles = some (
      (
        "open",
        record private_profile {
          approval = record {
            major = false;
            critical = false;
            significant = true;
            non_interactive = true;
          };
        },
      )
      ∷ []);
  hardware = [];
  local_model = none;
  expert_model = none;
  cloud_model = none;
}

abbrev sample_loads : String → Option (Document ℕ)
sample_loads text = some sample_document

sample_loads-Distinct :
    (text : String) (document : Document ℕ)
    → sample_loads text ≡ some document
    → Distinct document.profiles
unfolding has lookup
sample_loads-Distinct text document e =
    let same : sample_document ≡ document = cc e in subst (λ d. Distinct d.profiles) same (refl, tt)

sample_config-IsSafe : IsSafe sample_config
sample_config-IsSafe = record { major_gate = refl; critical_gate = refl }

load_runtime_config-Safe_example :
    Safe (
      load_runtime_config sample_loads
        (some "a file")
        sample_config
        (some "open")
        no_overrides
        none)
load_runtime_config-Safe_example =
    load_runtime_config-Safe sample_loads (some "a file") sample_config (some "open") no_overrides
      none sample_loads-Distinct sample_config-IsSafe

sample_settings-IsWellFormed : IsWellFormed sample_settings
unfolding has lookup
sample_settings-IsWellFormed = record { present = refl; distinct = (refl, tt) }

perform-IsWellFormed_example : IsWellFormed (
    perform (creating "work" none false ∷ activating "work" ∷ deleting "work" ∷ []) sample_settings)
perform-IsWellFormed_example =
    perform-IsWellFormed (creating "work" none false ∷ activating "work" ∷ deleting "work" ∷ [])
      sample_settings (tt, (refl, (tt, tt))) sample_settings-IsWellFormed

get_profile-create_profile_example :
    get_profile
      (record private_app {
        profiles =
            ("default", default_profile "default")
            ∷ ("private", private_profile)
            ∷ ("work", record private_profile { name = "work" })
            ∷ [];
      })
      (some "work")
    ≡ inr (record private_profile { name = "work" })
unfolding get_profile create_profile
get_profile-create_profile_example =
    get_profile-create_profile private_app
      (record private_app {
        profiles =
            ("default", default_profile "default")
            ∷ ("private", private_profile)
            ∷ ("work", record private_profile { name = "work" })
            ∷ [];
      })
      "work" "work" none false private_profile refl refl refl

get_profile-delete_profile_example :
    get_profile
      (record private_app {
        active_profile = "default";
        profiles = ("default", default_profile "default") ∷ [];
      })
      (some "private")
    ≡ inl (missing_profile "private")
unfolding delete_profile
get_profile-delete_profile_example =
    get_profile-delete_profile private_app
      (record private_app {
        active_profile = "default";
        profiles = ("default", default_profile "default") ∷ [];
      })
      "private" "private" refl refl

read_string-quoted_example :
    read_string (quoted "C:\\models \"a\"" ⧺ "\n") ≡ some ("C:\\models \"a\"", "\n")
unfolding plain
read_string-quoted_example = read_string-quoted "C:\\models \"a\"" "\n"

result_ok-validate_profile_example :
    result_ok (validate_profile (λ n. "") [] none [] true private_profile)
    ≡ elem private_profile.routing_policy known_policies
      && (usable_local [] true private_profile.local
          && (usable_expert [] true
                (private_profile.preferences.cloud_allowed && goal_allows private_profile.goal)
                private_profile.expert
              && true))
result_ok-validate_profile_example =
    result_ok-validate_profile (λ n. "") [] none [] true private_profile
