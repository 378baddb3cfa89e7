-- ===== src/Config/Profiles/Session.antt =====
-- Sequences of the operations of sifter/src/aa_sifter/config/profiles.py on a configuration.
use aa.Prelude.{
  List, [], ◌∷◌, String, Bool, false, Option, some, ◌⊎◌, inl, inr, if◌then◌else◌, Option-cases,
  Bool-cases, ◌≡◌, sym, not, ◌&&◌, arith, All,
}
use mathlib.Core.Path.{subst}
use aa.Prelude.Text.{◌≟◌, is_blank}
use aa.Prelude.Dict.{lookup, has, or_text, lookup-insert, lookup-remove}
use aa.Config.Schema.{ApplicationConfig, ComputeProfile}
use aa.Config.Profiles.{
  ProfileError, missing_profile, existing_profile, found, get_profile, activate_profile,
  create_profile, delete_profile, deleted,
}
use aa.Config.Profiles.Change.{put_profile, set_tier, update_profile, TierLimits, ProfileUpdate}
use aa.Config.Profiles.Kept.{
  IsWellFormed, Kept, activate_profile-Kept, create_profile-Kept, delete_profile-Kept,
  set_tier-Kept, update_profile-Kept,
}

pub data Operation : Type 0 where
  activating : (name : String) → Operation
  creating : (name : String) → (source : Option String) → (force : Bool) → Operation
  deleting : (name : String) → Operation
  setting :
      (tier : String)
      → (provider : String) → (model : String) → (profile_name : Option String) → TierLimits
      → Operation
  updating : (profile_name : Option String) → ProfileUpdate → Operation

module _ {F : Type 0} where
  -- An operation on a configuration: one that fails raises before it changes anything.
  abbrev after : ProfileError ⊎ ApplicationConfig F → ApplicationConfig F → ApplicationConfig F
  after (inl e) app = app
  after (inr changed) app = changed

  unfoldable pub outcome : Operation → ApplicationConfig F → ProfileError ⊎ ApplicationConfig F
  unfolding activate_profile create_profile delete_profile set_tier update_profile
  outcome (activating name) app = activate_profile app name
  outcome (creating name source force) app = create_profile app name source force
  outcome (deleting name) app = delete_profile app name
  outcome (setting tier provider model name limits) app =
      set_tier app tier provider model name limits
  outcome (updating name u) app = update_profile app name u

  unfoldable pub perform : List Operation → ApplicationConfig F → ApplicationConfig F
  unfolding outcome
  perform [] app = app
  perform (op ∷ ops) app = perform ops (after (outcome op app) app)

-- The profile that is activated has a name.
abbrev pub IsNamed : Operation → Type 0
IsNamed (activating name) = is_blank name ≡ false
IsNamed _ = Unit

module _ {F : Type 0} where
  outcome-Kept :
      (op : Operation) (app : ApplicationConfig F)
      → IsNamed op
      → IsWellFormed app
      → Kept (outcome op app)
  unfolding outcome
  outcome-Kept (activating name) app n w = activate_profile-Kept app name n w
  outcome-Kept (creating name source force) app n w = create_profile-Kept app name source force w
  outcome-Kept (deleting name) app n w = delete_profile-Kept app name w
  outcome-Kept (setting tier provider model name limits) app n w =
      set_tier-Kept app tier provider model name limits w
  outcome-Kept (updating name u) app n w = update_profile-Kept app name u w

  after-IsWellFormed :
      (result : ProfileError ⊎ ApplicationConfig F) (app : ApplicationConfig F)
      → IsWellFormed app
      → Kept result
      → IsWellFormed (after result app)
  after-IsWellFormed (inl e) app w k = w
  after-IsWellFormed (inr changed) app w k = k

  -- Where the active profile is one of the profiles and no name stands twice, this is so after any sequence
  -- of operations, failing ones included, in which no profile of an empty name is activated.
  pub perform-IsWellFormed :
      (ops : List Operation) (app : ApplicationConfig F)
      → All IsNamed ops
      → IsWellFormed app
      → IsWellFormed (perform ops app)
  unfolding perform
  perform-IsWellFormed [] app n w = w
  perform-IsWellFormed (op ∷ ops) app n w =
      perform-IsWellFormed ops (after (outcome op app) app) n.1
        (after-IsWellFormed (outcome op app) app w (outcome-Kept op app n.0 w))

  get_profile-put_profile :
      (app : ApplicationConfig F) (name other : String) (p : ComputeProfile F)
      → is_blank other ≡ false
      → get_profile (put_profile app name p) (some other)
        ≡ (if name ≟ other then inr p else get_profile app (some other))
  unfolding get_profile found put_profile
  get_profile-put_profile app name other p n =
      rw (n, lookup-insert name other p app.profiles) (ground arith)

  get_profile-deleted :
      (app : ApplicationConfig F) (name other : String)
      → is_blank other ≡ false
      → get_profile (deleted app name) (some other)
        ≡ (if name ≟ other then inl (missing_profile other) else get_profile app (some other))
  unfolding get_profile found deleted
  get_profile-deleted app name other n =
      rw (n, lookup-remove name other app.profiles) (ground arith)

  create_profile-changed :
      (app changed : ApplicationConfig F) (name : String) (source : Option String) (force : Bool)
      (base : ComputeProfile F)
      → get_profile app (some (or_text source app.active_profile)) ≡ inr base
      → create_profile app name source force ≡ inr changed
      → put_profile app name (record base { name = name }) ≡ changed
  unfolding create_profile get_profile found put_profile
  create_profile-changed app changed name source force base h e =
      let selected = or_text (some (or_text source app.active_profile)) app.active_profile in
      elim (Option-cases (lookup app.profiles selected)) [
        | inl absent ↦
            (let clash : inl (missing_profile selected) ≡ inr base = rw absent at h in
              absurd (cc clash))
        | inr (p, there) ↦
            let same : inr p ≡ inr base = rw there at h in
            elim (Bool-cases (has app.profiles name && not force)) [
              | inl t ↦
                  (let clash : inl (existing_profile name) ≡ inr changed = rw t at e in
                    absurd (cc clash))
              | inr f ↦
                  (let made : inr (put_profile app name (record p { name = name })) ≡ inr changed =
                      rw (f, there) at e in
                    let read : p ≡ base = cc same in
                    let left : put_profile app name (record p { name = name }) ≡ changed =
                      cc made in
                    subst (λ q. put_profile app name (record q { name = name }) ≡ changed) read
                      left)
            ]
      ]

  delete_profile-changed :
      (app changed : ApplicationConfig F) (name : String)
      → delete_profile app name ≡ inr changed
      → deleted app name ≡ changed
  unfolding delete_profile
  delete_profile-changed app changed name e = ground (arith, e)

  -- After a profile is created from a source, its name gives a copy of the source under this name, and
  -- every other name gives what it gave before, where the name that is looked up is not empty.
  pub get_profile-create_profile :
      (app changed : ApplicationConfig F) (name other : String) (source : Option String)
      (force : Bool) (base : ComputeProfile F)
      → is_blank other ≡ false
      → get_profile app (some (or_text source app.active_profile)) ≡ inr base
      → create_profile app name source force ≡ inr changed
      → get_profile changed (some other)
        ≡ (if name ≟ other then inr (record base { name = name }) else get_profile app (some other))
  unfolding get_profile create_profile found
  get_profile-create_profile app changed name other source force base n h e =
      rw (sym (create_profile-changed app changed name source force base h e))
        (get_profile-put_profile app name other (record base { name = name }) n)

  -- After a profile is deleted, its name gives none, and every other name gives what it gave before, where
  -- the name that is looked up is not empty.
  pub get_profile-delete_profile :
      (app changed : ApplicationConfig F) (name other : String)
      → is_blank other ≡ false
      → delete_profile app name ≡ inr changed
      → get_profile changed (some other)
        ≡ (if name ≟ other then inl (missing_profile other) else get_profile app (some other))
  unfolding get_profile delete_profile found
  get_profile-delete_profile app changed name other n e =
      rw (sym (delete_profile-changed app changed name e)) (get_profile-deleted app name other n)
