-- ===== src/Config/Profiles/Kept.antt =====
-- The operations of sifter/src/aa_sifter/config/profiles.py keep a configuration well formed.
use aa.Prelude.{
  List, [], ◌∷◌, String, Bool, true, false, not, ◌&&◌, Option, some, ◌⊎◌, inl, inr, length, ◌==◌,
  Option-cases, Bool-cases, ◌≡◌, ◌≢◌, refl, arith, eq_iff, eq_refl,
}
use aa.Prelude.Text.{◌≟◌, is_blank, elem}
use aa.Prelude.Dict.{
  lookup, remove, has, or_text, NoRepeats, has-insert, has-remove, insert-NoRepeats,
  remove-NoRepeats, length-remove,
}
use aa.Config.Schema.{ApplicationConfig, ComputeProfile}
use aa.Config.Profiles.{
  ProfileError, found, activate_profile, create_profile, deleted, delete_profile, first_name,
}
use aa.Config.Profiles.Change.{
  put_profile, with_tier, set_tier, updated, update_profile, TierLimits, ProfileUpdate,
}

-- The active profile is one of the profiles, and no name stands twice.
pub record IsWellFormed {F : Type 0} (app : ApplicationConfig F) : Type 0 where
  pub present : has app.profiles app.active_profile ≡ true
  pub distinct : NoRepeats app.profiles

module _ {F : Type 0} where
  -- An operation either fails, and then changes nothing, or leaves a configuration with the property.
  abbrev pub Kept : ProfileError ⊎ ApplicationConfig F → Type 0
  Kept (inl e) = Unit
  Kept (inr app) = IsWellFormed app

  has-lookup :
      (d : List (String × ComputeProfile F)) (name : String) (p : ComputeProfile F)
      → lookup d name ≡ some p
      → has d name ≡ true
  unfolding has
  has-lookup d name p e = ground (arith, e)

  -- A profile that replaces another or is added.
  put_profile-IsWellFormed :
      (app : ApplicationConfig F) (name : String) (p : ComputeProfile F)
      → IsWellFormed app
      → IsWellFormed (put_profile app name p)
  unfolding put_profile
  put_profile-IsWellFormed app name p w = record {
    present = ground (arith, w.present, has-insert name app.active_profile p app.profiles);
    distinct = insert-NoRepeats name p app.profiles w.distinct;
  }

  pub activate_profile-Kept :
      (app : ApplicationConfig F) (name : String)
      → is_blank name ≡ false
      → IsWellFormed app
      → Kept (activate_profile app name)
  unfolding activate_profile found
  activate_profile-Kept app name n w = rw n (elim (Option-cases (lookup app.profiles name)) [
    | inl e ↦ rw (e, Kept) tt
    | inr (p, e) ↦ rw e record { present = has-lookup app.profiles name p e; distinct = w.distinct }
  ])

  pub create_profile-Kept :
      (app : ApplicationConfig F) (name : String) (source : Option String) (force : Bool)
      → IsWellFormed app
      → Kept (create_profile app name source force)
  unfolding create_profile found put_profile
  create_profile-Kept app name source force w =
      let selected = or_text (some (or_text source app.active_profile)) app.active_profile in
      elim (Bool-cases (has app.profiles name && not force)) [
        | inl e ↦ rw (e, Kept) tt
        | inr e ↦
            rw (e, Kept)
              (elim (Option-cases (lookup app.profiles selected)) [
                | inl e ↦ rw (e, Kept) tt
                | inr (p, e) ↦
                    rw (e, Kept) (put_profile-IsWellFormed app name (record p { name = name }) w)
              ])
      ]

  -- The first of some profiles is one of them.
  has-first_name :
      (d : List (String × ComputeProfile F)) (name : String)
      → length d ≢ 0
      → has d (first_name name d) ≡ true
  unfolding has first_name lookup
  has-first_name [] name h = absurd (h refl)
  has-first_name ((k, v) ∷ d) name h = ground (arith, eq_refl k)

  pub deleted-IsWellFormed :
      (app : ApplicationConfig F) (name : String)
      → has app.profiles name ≡ true
      → (length app.profiles == 1) ≡ false
      → IsWellFormed app
      → IsWellFormed (deleted app name)
  unfolding deleted
  deleted-IsWellFormed app name there many w = record {
    present = elim (Bool-cases (app.active_profile ≟ name)) [
      | inl same ↦ rw same (
          has-first_name (remove name app.profiles) app.active_profile
            (λ z. ground (arith, z, length-remove name app.profiles w.distinct there)))
      | inr other ↦ rw other (
          ground (
            arith,
            w.present,
            has-remove name app.active_profile app.profiles,
            eq_iff name app.active_profile,
            eq_iff app.active_profile name,
          ))
    ];
    distinct = remove-NoRepeats name app.profiles w.distinct;
  }

  pub delete_profile-Kept :
      (app : ApplicationConfig F) (name : String)
      → IsWellFormed app
      → Kept (delete_profile app name)
  unfolding delete_profile
  delete_profile-Kept app name w =
      let selected = or_text (some name) app.active_profile in
      elim (Bool-cases (has app.profiles selected)) [
        | inr e ↦ rw (e, Kept) tt
        | inl e ↦
            rw (e, Kept)
              (elim (Bool-cases (length app.profiles == 1)) [
                | inl last ↦ rw last tt
                | inr many ↦ rw many (elim (Bool-cases (has app.profiles name)) [
                  | inr e ↦ rw (e, Kept) tt
                  | inl there ↦ rw there (deleted-IsWellFormed app name there many w)
                ])
              ])
      ]

  pub set_tier-Kept :
      (app : ApplicationConfig F) (tier provider model : String) (name : Option String)
      (limits : TierLimits)
      → IsWellFormed app
      → Kept (set_tier app tier provider model name limits)
  unfolding set_tier found
  set_tier-Kept app tier provider model name limits w =
      elim (Option-cases (lookup app.profiles (or_text name app.active_profile))) [
        | inl e ↦ rw (e, Kept) tt
        | inr (p, e) ↦
            rw (e, Kept)
              (elim (Bool-cases (elem tier ("local" ∷ "expert" ∷ []))) [
                | inl t ↦ rw t (
                    put_profile-IsWellFormed app (or_text name app.active_profile)
                      (with_tier tier provider model limits p) w)
                | inr f ↦ rw f tt
              ])
      ]

  pub update_profile-Kept :
      (app : ApplicationConfig F) (name : Option String) (u : ProfileUpdate)
      → IsWellFormed app
      → Kept (update_profile app name u)
  unfolding update_profile found
  update_profile-Kept app name u w =
      elim (Option-cases (lookup app.profiles (or_text name app.active_profile))) [
        | inl e ↦ rw (e, Kept) tt
        | inr (p, e) ↦
            rw (e, Kept)
              (put_profile-IsWellFormed app (or_text name app.active_profile) (updated u p) w)
      ]
