-- ===== src/Prelude/Dict.antt =====
-- Python's `dict` with texts as keys: its items in the order of insertion.
use Prim.Native.String.{String}
use mathlib.Core.Path.{◌≡◌, refl, subst}
use mathlib.Core.Bool.{Bool, true, false}
use mathlib.Core.Option.{Option, none, some}
use mathlib.Core.List.{List, [], ◌∷◌}
use mathlib.Core.Logic.{inl, inr}
use native.Mathlib.Omega.{arith}
use text.Mathlib.TextEquality.{eq_iff}
use aa.Prelude.Tests.{if◌then◌else◌, is_some, Bool-cases}
use aa.Prelude.Lists.{length}
use Prim.Native.Nat.{suc}
use aa.Prelude.Text.{◌≟◌, is_blank}

-- `name or default`
abbrev pub or_text : Option String → String → String
or_text none default = default
or_text (some s) default = if is_blank s then default else s

-- `bool(text)` of an optional text
abbrev pub truthy : Option String → Bool
truthy none = false
truthy (some s) = if is_blank s then false else true

module _ {ℓ} {V : Type ℓ} where
  -- `d.get(key)`
  unfoldable pub lookup : List (String × V) → String → Option V
  lookup [] key = none
  lookup ((k, v) ∷ d) key = let rest = lookup d key in if k ≟ key then some v else rest

  -- `d[key] = value`
  unfoldable pub insert : String → V → List (String × V) → List (String × V)
  insert key value [] = (key, value) ∷ []
  insert key value ((k, v) ∷ d) =
      let rest = insert key value d in if k ≟ key then (k, value) ∷ d else (k, v) ∷ rest

  -- `del d[key]`
  unfoldable pub remove : String → List (String × V) → List (String × V)
  remove key [] = []
  remove key ((k, v) ∷ d) = let rest = remove key d in if k ≟ key then rest else (k, v) ∷ rest

  -- `key in d`
  unfoldable pub has : List (String × V) → String → Bool
  unfolding lookup
  has d key = is_some (lookup d key)

  pub lookup-insert :
      (key other : String) (value : V) (d : List (String × V))
      → lookup (insert key value d) other ≡ (if key ≟ other then some value else lookup d other)
  unfolding lookup insert
  lookup-insert key other value [] = refl
  lookup-insert key other value ((k, v) ∷ d) =
      ground
        (arith, lookup-insert key other value d, eq_iff k key, eq_iff key other, eq_iff k other)

  pub lookup-remove :
      (key other : String) (d : List (String × V))
      → lookup (remove key d) other ≡ (if key ≟ other then none else lookup d other)
  unfolding lookup remove
  lookup-remove key other [] = ground arith
  lookup-remove key other ((k, v) ∷ d) =
      ground (arith, lookup-remove key other d, eq_iff k key, eq_iff key other, eq_iff k other)

  pub has-insert :
      (key other : String) (value : V) (d : List (String × V))
      → has (insert key value d) other ≡ (if key ≟ other then true else has d other)
  unfolding has
  has-insert key other value d = ground (arith, lookup-insert key other value d)

  pub has-remove :
      (key other : String) (d : List (String × V))
      → has (remove key d) other ≡ (if key ≟ other then false else has d other)
  unfolding has
  has-remove key other d = ground (arith, lookup-remove key other d)

  -- Each key stands once.
  abbrev pub NoRepeats : List (String × V) → Type 0
  NoRepeats [] = Unit
  NoRepeats ((k, v) ∷ d) = (has d k ≡ false) × NoRepeats d

  pub insert-NoRepeats :
      (key : String) (value : V) (d : List (String × V))
      → NoRepeats d
      → NoRepeats (insert key value d)
  unfolding insert has lookup
  insert-NoRepeats key value [] h = (refl, tt)
  insert-NoRepeats key value ((k, v) ∷ d) h = elim (Bool-cases (k ≟ key)) [
    | inl same ↦ rw same (h.0, h.1)
    | inr other ↦ rw other (
      ground (arith, has-insert key k value d, eq_iff key k, eq_iff k key),
      insert-NoRepeats key value d h.1,
    )
  ]

  pub remove-NoRepeats :
      (key : String) (d : List (String × V)) → NoRepeats d → NoRepeats (remove key d)
  unfolding remove
  remove-NoRepeats key [] h = tt
  remove-NoRepeats key ((k, v) ∷ d) h = elim (Bool-cases (k ≟ key)) [
    | inl same ↦ rw same (remove-NoRepeats key d h.1)
    | inr other ↦
        rw other (
          ground (arith, has-remove key k d, eq_iff key k, eq_iff k key),
          remove-NoRepeats key d h.1,
        )
  ]

  -- What is not there is not removed.
  pub length-remove_absent :
      (key : String) (d : List (String × V)) → has d key ≡ false → length (remove key d) ≡ length d
  unfolding remove has lookup
  length-remove_absent key [] e = refl
  length-remove_absent key ((k, v) ∷ d) e = elim (Bool-cases (k ≟ key)) [
    | inl same ↦ ground (arith, e)
    | inr other ↦ rw other (omega (arith, length-remove_absent key d (rw other at e)))
  ]

  pub length-remove :
      (key : String) (d : List (String × V))
      → NoRepeats d
      → has d key ≡ true
      → suc (length (remove key d)) ≡ length d
  unfolding remove has lookup
  length-remove key [] h e = ground arith
  length-remove key ((k, v) ∷ d) h e = elim (Bool-cases (k ≟ key)) [
    | inl same ↦ rw same (
        omega (
          arith,
          length-remove_absent key d
              (subst (λ name. has d name ≡ false) ((eq_iff k key).0 same) h.0),
        ))
    | inr other ↦ rw other (omega (arith, length-remove key d h.1 (rw other at e)))
  ]

  -- What holds of each value holds of the value of a key.
  abbrev pub AllValues {κ} : (V → Type κ) → List (String × V) → Type κ
  AllValues P [] = Unit
  AllValues P ((k, v) ∷ d) = P v × AllValues P d

  pub AllValues-lookup {κ} :
      (P : V → Type κ) (d : List (String × V)) (key : String) (v : V)
      → AllValues P d
      → lookup d key ≡ some v
      → P v
  unfolding lookup
  AllValues-lookup P [] key v h e = absurd (cc e)
  AllValues-lookup P ((k, w) ∷ d) key v h e = elim (Bool-cases (k ≟ key)) [
    | inl same ↦ (let found : some w ≡ some v = rw same at e in subst P (cc found) h.0)
    | inr other ↦ AllValues-lookup P d key v h.1 (rw other at e)
  ]

  pub AllValues-insert {κ} :
      (P : V → Type κ) (key : String) (v : V) (d : List (String × V))
      → P v
      → AllValues P d
      → AllValues P (insert key v d)
  unfolding insert
  AllValues-insert P key v [] p h = (p, tt)
  AllValues-insert P key v ((k, w) ∷ d) p h = elim (Bool-cases (k ≟ key)) [
    | inl same ↦ rw same (p, h.1)
    | inr other ↦ rw other (h.0, AllValues-insert P key v d p h.1)
  ]
