-- ===== src/Contracts/V1/Passed.antt =====
-- The checks that an object of contracts/python/aa_contracts/v1.py has passed once it is valid.
use aa.Prelude.{
  List, [], ◌∷◌, String, true, false, Option, none, some, ◌≡◌, refl, sym, arith, eq_iff, Bool-cases,
  inl, inr,
}
use mathlib.Core.Path.{subst}
use aa.Prelude.Text.{◌≟◌, elem}
use aa.Prelude.Float.{Float}
use aa.Contracts.Json.{
  Json, Fields, null, bool, num, str, arr, obj, Check, passed, value_error, other_error, get_field,
  ◌and_then◌, has_passed, is_null,
}
use aa.Contracts.Fields.{check_identifier, check_version, check_required}
use aa.Prelude.Dict.{lookup}
use aa.Contracts.V1.{
  validate, check_kind, check_known, check_extra, check_all_required, check_enums, enums,
  required_fields,
}

pub and_then-passed :
    (a b : Check) → has_passed (a and_then b) ≡ true → (has_passed a ≡ true) × (has_passed b ≡ true)
and_then-passed passed b e = (refl, e)
and_then-passed (value_error name message) b e = ground arith
and_then-passed other_error b e = ground arith

module _ {F : Type 0} ⦃fl : Float F⦄ where
  -- What a known kind passes: the required fields and the checks of the kind.
  pub known-passed :
      (kind : String) (fields : Fields F) (names : List String)
      → has_passed (check_known kind fields (some names)) ≡ true
      → (has_passed (check_all_required fields names) ≡ true)
        × (has_passed (check_extra kind fields) ≡ true)
  unfolding check_known
  known-passed kind fields names e =
      let (_, after_version) =
        and_then-passed (check_version "contractVersion" (get_field fields "contractVersion")) _
          e in
      let (_, after_id) =
        and_then-passed (check_identifier "id" (get_field fields "id")) _ after_version in
      let (required, after_required) =
        and_then-passed (check_all_required fields names) _ after_id in
      let (_, extra) = and_then-passed (check_enums fields (lookup enums kind)) _ after_required in
      (required, extra)

  present :
      (name : String) (value : Json F)
      → has_passed (check_required name value) ≡ true
      → is_null value ≡ false
  unfolding check_required is_null
  present name null e = ground arith
  present name (bool b) e = refl
  present name (num x) e = refl
  present name (str s) e = refl
  present name (arr values) e = refl
  present name (obj fields) e = refl

  required-present :
      (fields : Fields F) (names : List String) (key : String)
      → has_passed (check_all_required fields names) ≡ true
      → elem key names ≡ true
      → is_null (get_field fields key) ≡ false
  unfolding check_all_required
  required-present fields [] key e within = ground arith
  required-present fields (name ∷ names) key e within =
      let (first, others) = and_then-passed (check_required name (get_field fields name)) _ e in
      elim (Bool-cases (key ≟ name)) [
        | inl same ↦
            subst (λ name. is_null (get_field fields name) ≡ false) (sym ((eq_iff key name).0 same))
              (present name (get_field fields name) first)
        | inr other ↦ required-present fields names key others (rw other at within)
      ]

  kind-required :
      (kind : String) (fields : Fields F) (found : Option (List String))
      → lookup required_fields kind ≡ found
      → has_passed (check_known kind fields found) ≡ true
      → (names : List String) × ((lookup required_fields kind ≡ some names)
          × ((key : String) → elem key names ≡ true → is_null (get_field fields key) ≡ false))
  unfolding check_known
  kind-required kind fields none is_found e = ground arith
  kind-required kind fields (some names) is_found e = (
    names,
    (
      is_found,
      λ key within. required-present fields names key (known-passed kind fields names e).0 within,
    ),
  )

  kind-known :
      (kind : Json F) (fields : Fields F)
      → has_passed (check_kind kind fields) ≡ true
      → (name : String) × (names : List String) × ((kind ≡ str name)
          × ((lookup required_fields name ≡ some names)
              × ((key : String) → elem key names ≡ true → is_null (get_field fields key) ≡ false)))
  unfolding check_kind
  kind-known (str name) fields e =
      let (names, known) = kind-required name fields (lookup required_fields name) refl e in
      (name, names, (refl, known))
  kind-known null fields e = ground arith
  kind-known (bool b) fields e = ground arith
  kind-known (num x) fields e = ground arith
  kind-known (arr values) fields e = ground arith
  kind-known (obj others) fields e = ground arith

  -- An object that is valid names one of the kinds in its field "kind", and has the fields that this kind
  -- requires, none of them null.
  pub validate-required_fields :
      (fields : Fields F)
      → has_passed (validate (obj fields)) ≡ true
      → (kind : String) × (names : List String) × ((get_field fields "kind" ≡ str kind)
          × ((lookup required_fields kind ≡ some names)
              × ((key : String) → elem key names ≡ true → is_null (get_field fields key) ≡ false)))
  unfolding validate
  validate-required_fields fields e = kind-known (get_field fields "kind") fields e
