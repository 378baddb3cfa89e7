-- ===== src/Config/Store/Loaded.antt =====
-- What holds of a configuration that sifter/src/aa_sifter/config/store.py loads, and of what the operations on
-- its profiles make of it.
use aa.Prelude.{
  List, [], ◌∷◌, String, true, Option, none, some, inl, inr, get_or, is_some, ◌≡◌, ◌∙◌, refl, arith,
  Bool-cases, Option-cases,
}
use aa.Prelude.Dict.{
  lookup, has, NoRepeats, has-insert, insert-NoRepeats, AllValues, AllValues-insert,
}
use aa.Prelude.Float.{Float}
use aa.Models.Config.{SifterConfig, IsSafe}
use aa.Catalog.{ModelMetadata}
use aa.Config.Schema.{ApplicationConfig, ComputeProfile, protect_gates}
use aa.Config.Defaults.{default_profile}
use aa.Config.Profiles.Kept.{IsWellFormed}
use aa.Config.Resolve.{Overrides}
use aa.Config.Resolve.Cloud.{IsProtected, resolve_config-IsSafe}
use aa.Config.Store.{
  Document, migrate, lacks_profiles, model_validate, validated, validated_all, with_default,
  with_active, parse_application_config, load_application_config, load_runtime_config,
}

-- What a document gives: the profiles, none of them twice and with closed gates, and an active one among them.
pub record IsLoaded {F : Type 0} (app : ApplicationConfig F) : Type 0 where
  pub well_formed : IsWellFormed app
  pub has_default : has app.profiles "default" ≡ true
  pub closed : AllValues (λ p. IsProtected p.approval) app.profiles

module _ {F : Type 0} ⦃fl : Float F⦄ where
  -- `tomllib` gives each table once.
  abbrev pub Distinct : Option (List (String × ComputeProfile F)) → Type 0
  Distinct none = Unit
  Distinct (some profiles) = NoRepeats profiles

  protect_gates-IsProtected : (p : ComputeProfile F) → IsProtected (validated p).approval
  unfolding validated protect_gates
  protect_gates-IsProtected p = ground arith

  validated_all-closed :
      (d : List (String × ComputeProfile F))
      → AllValues (λ p. IsProtected p.approval) (validated_all d)
  unfolding validated_all
  validated_all-closed [] = tt
  validated_all-closed ((k, p) ∷ d) = (protect_gates-IsProtected p, validated_all-closed d)

  has-validated_all :
      (d : List (String × ComputeProfile F)) (name : String)
      → has (validated_all d) name ≡ has d name
  unfolding validated_all has lookup
  has-validated_all [] name = refl
  has-validated_all ((k, p) ∷ d) name = ground (arith, has-validated_all d name)

  validated_all-NoRepeats :
      (d : List (String × ComputeProfile F)) → NoRepeats d → NoRepeats (validated_all d)
  unfolding validated_all
  validated_all-NoRepeats [] h = tt
  validated_all-NoRepeats ((k, p) ∷ d) h =
      (has-validated_all d k ∙ h.0, validated_all-NoRepeats d h.1)

  migrate-Distinct :
      (document : Document F) → Distinct document.profiles → Distinct (migrate document).profiles
  unfolding migrate has lookup
  migrate-Distinct document h = elim (Bool-cases (lacks_profiles document)) [
    | inl e ↦ rw e (refl, tt)
    | inr e ↦ rw e h
  ]

  validated-NoRepeats :
      (o : Option (List (String × ComputeProfile F)))
      → Distinct o
      → NoRepeats (validated_all (get_or o []))
  unfolding validated_all
  validated-NoRepeats none h = tt
  validated-NoRepeats (some d) h = validated_all-NoRepeats d h

  -- The repairs keep what holds of each profile, and leave the default profile and an active one.
  with_default-closed :
      (app : ApplicationConfig F)
      → AllValues (λ p. IsProtected p.approval) app.profiles
      → AllValues (λ p. IsProtected p.approval) (with_default app).profiles
  unfolding with_default
  with_default-closed app h = elim (Bool-cases (has app.profiles "default")) [
    | inl e ↦ rw e h
    | inr e ↦ rw e (
        AllValues-insert (λ p. IsProtected p.approval) "default" (default_profile "default")
          app.profiles record { major_on = refl; critical_on = refl } h)
  ]

  with_default-NoRepeats :
      (app : ApplicationConfig F) → NoRepeats app.profiles → NoRepeats (with_default app).profiles
  unfolding with_default
  with_default-NoRepeats app h = elim (Bool-cases (has app.profiles "default")) [
    | inl e ↦ rw e h
    | inr e ↦ rw e (insert-NoRepeats "default" (default_profile "default") app.profiles h)
  ]

  has-with_default : (app : ApplicationConfig F) → has (with_default app).profiles "default" ≡ true
  unfolding with_default
  has-with_default app = elim (Bool-cases (has app.profiles "default")) [
    | inl e ↦ rw (e, with_default) e
    | inr e ↦ rw e (has-insert "default" "default" (default_profile "default") app.profiles)
  ]

  with_active-IsLoaded :
      (app : ApplicationConfig F)
      → NoRepeats app.profiles
      → has app.profiles "default" ≡ true
      → AllValues (λ p. IsProtected p.approval) app.profiles
      → IsLoaded (with_active app)
  unfolding with_active
  with_active-IsLoaded app distinct there closed =
      elim (Bool-cases (has app.profiles app.active_profile)) [
        | inl e ↦ rw e record {
          well_formed = record { present = e; distinct = distinct };
          has_default = there;
          closed = closed;
        }
        | inr e ↦ rw e record {
          well_formed = record { present = there; distinct = distinct };
          has_default = there;
          closed = closed;
        }
      ]

  repaired-IsLoaded :
      (document : Document F)
      → Distinct document.profiles
      → IsLoaded (with_active (with_default (model_validate (migrate document))))
  unfolding model_validate
  repaired-IsLoaded document h =
      let migrated = migrate document in
      let app = model_validate migrated in
      with_active-IsLoaded (with_default app)
        (with_default-NoRepeats app
          (validated-NoRepeats migrated.profiles (migrate-Distinct document h)))
        (has-with_default app)
        (with_default-closed app (validated_all-closed (get_or migrated.profiles [])))

  -- What an option holds, where it holds anything.
  abbrev pub Loaded : Option (ApplicationConfig F) → Type 0
  Loaded none = Unit
  Loaded (some app) = IsLoaded app

  -- Whatever the file holds, where `tomllib` gives no table twice.
  pub load_application_config-Loaded :
      (loads : String → Option (Document F)) (file : Option String)
      → ((text : String) (document : Document F)
          → loads text ≡ some document
          → Distinct document.profiles)
      → Loaded (load_application_config loads file)
  unfolding load_application_config parse_application_config
  load_application_config-Loaded loads none h = record {
    well_formed = record { present = refl; distinct = (refl, tt) };
    has_default = refl;
    closed = (record { major_on = refl; critical_on = refl }, tt);
  }
  load_application_config-Loaded loads (some text) h = elim (Option-cases (loads text)) [
    | inl e ↦ rw (e, Loaded) tt
    | inr (document, e) ↦ rw (e, Loaded) (repaired-IsLoaded document (h text document e))
  ]

  -- What an option of a configuration holds, where it holds anything.
  abbrev pub Safe : Option (SifterConfig F) → Type 0
  Safe none = Unit
  Safe (some config) = IsSafe config

  -- Where the environment's configuration keeps both gates and `tomllib` gives no table twice, each
  -- configuration that is loaded keeps both gates, whatever the file, the profile and the overrides say.
  pub load_runtime_config-Safe :
      (loads : String → Option (Document F)) (file : Option String) (env : SifterConfig F)
      (name : Option String) (o : Option (Overrides F)) (catalog : Option (List (ModelMetadata F)))
      → ((text : String) (document : Document F)
          → loads text ≡ some document
          → Distinct document.profiles)
      → IsSafe env
      → Safe (load_runtime_config loads file env name o catalog)
  unfolding load_runtime_config
  load_runtime_config-Safe loads file env name o catalog h safe =
      let loaded = load_application_config-Loaded loads file h in
      elim (Option-cases (load_application_config loads file)) [
        | inl e ↦ rw (e, Safe) tt
        | inr (app, e) ↦
            rw (e, Safe)
              (resolve_config-IsSafe env app name o catalog (is_some file) safe
                (rw (e, Loaded) at loaded).closed)
      ]
