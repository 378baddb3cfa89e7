-- ===== src/Contracts/Fields.antt =====
-- The checks of one field in contracts/python/aa_contracts/v1.py.
use aa.Prelude.{
  ℕ, suc, ◌-◌, List, String, Bool, true, false, not, ◌&&◌, ◌||◌, Option, none, some, ltb, leb, ◌==◌,
  if◌then◌else◌,
}
use Prim.Native.Char.{Char, code}
use aa.Prelude.Text.{◌⧺◌, elem, is_blank, len, show_ℕ}
use aa.Prelude.Float.{Float}
use aa.Contracts.Json.{
  Json, Jsons, null, str, arr, obj, nil, cons, Check, passed, value_error, other_error, is_truthy,
  count_values, count_fields, ◌and_then◌,
}

unfoldable pub in_range : ℕ → ℕ → Char → Bool
in_range a b c = leb a (code c) && leb (code c) b

-- `[A-Za-z0-9]` and `[A-Za-z0-9_.:@+-]`
unfoldable pub is_word_start : Char → Bool
unfolding in_range
is_word_start c = in_range 65 90 c || (in_range 97 122 c || in_range 48 57 c)

unfoldable pub is_word_part : Char → Bool
unfolding is_word_start
is_word_part c =
    is_word_start c
    || (code c == 95
        || (code c == 46 || (code c == 58 || (code c == 64 || (code c == 43 || code c == 45)))))

-- A text of such characters up to its end or to a line feed that ends it, which `$` allows.
unfoldable pub all_until_end : (Char → Bool) → String → Bool
all_until_end test String.[] = true
all_until_end test (String.◌∷◌ c s) =
    let rest = all_until_end test s in (test c && rest) || (code c == 10 && is_blank s)

-- `_IDENTIFIER_RE`
unfoldable pub matches_identifier : String → Bool
unfolding is_word_start is_word_part all_until_end
matches_identifier String.[] = false
matches_identifier (String.◌∷◌ c s) = is_word_start c && all_until_end is_word_part s

-- `_VERSION_RE`: digits, a point, digits
unfoldable pub after_point : String → Bool
unfolding in_range all_until_end
after_point String.[] = false
after_point (String.◌∷◌ c s) = in_range 48 57 c && all_until_end (in_range 48 57) s

unfoldable pub digits_point : String → Bool
unfolding in_range after_point
digits_point String.[] = false
digits_point (String.◌∷◌ c s) =
    let rest = digits_point s in (code c == 46 && after_point s) || (in_range 48 57 c && rest)

unfoldable pub matches_version : String → Bool
unfolding in_range digits_point
matches_version String.[] = false
matches_version (String.◌∷◌ c s) = in_range 48 57 c && digits_point s

-- `_HASH_RE`: 64 hexadecimal digits
unfoldable pub matches_hash : ℕ → String → Bool
unfolding in_range
matches_hash n String.[] = n == 0
matches_hash n (String.◌∷◌ c s) =
    let rest = matches_hash (n - 1) s in
    if n == 0 then code c == 10 && is_blank s else (in_range 97 102 c || in_range 48 57 c) && rest

module _ {F : Type 0} ⦃fl : Float F⦄ where
  -- `_identifier`
  unfoldable pub check_identifier : String → Json F → Check
  unfolding matches_identifier is_truthy count_values count_fields
  check_identifier name (str s) =
      if is_blank s
      then value_error name "identifier is required"
      else if ltb 256 (len s) || not (matches_identifier s)
      then value_error name "invalid identifier"
      else passed
  check_identifier name (arr values) =
      if count_values values == 0
      then value_error name "identifier is required"
      else if ltb 256 (count_values values)
      then value_error name "invalid identifier"
      else other_error
  check_identifier name (obj fields) =
      if count_fields fields == 0
      then value_error name "identifier is required"
      else if ltb 256 (count_fields fields)
      then value_error name "invalid identifier"
      else other_error
  check_identifier name value =
      if is_truthy value then other_error else value_error name "identifier is required"

  -- `_version`
  unfoldable pub check_version : String → Json F → Check
  unfolding matches_version
  check_version name (str s) =
      if matches_version s then passed else value_error name "invalid contract version"
  check_version name _ = value_error name "invalid contract version"

  -- `_enum`: a list or an object is not hashable.
  unfoldable pub check_enum : String → Json F → List String → Check
  check_enum name (str s) allowed =
      if elem s allowed then passed else value_error name "invalid value"
  check_enum name (arr values) allowed = other_error
  check_enum name (obj fields) allowed = other_error
  check_enum name _ allowed = value_error name "invalid value"

  -- `_required`
  unfoldable pub check_required : String → Json F → Check
  check_required name null = value_error name "is required"
  check_required name (str s) = if is_blank s then value_error name "is required" else passed
  check_required name _ = passed

  -- `_optional_hash`
  unfoldable pub check_hash : String → Json F → Check
  unfolding matches_hash
  check_hash name null = passed
  check_hash name (str s) =
      if matches_hash 64 s then passed else value_error name "invalid sha256 hash"
  check_hash name _ = other_error

  -- A loop of checks over the elements of a field, each with its index in the name.
  unfoldable pub check_each : (String → Json F → Check) → (key : String) → ℕ → Jsons F → Check
  check_each check key i nil = passed
  check_each check key i (cons value rest) =
      check (key ⧺ ("[" ⧺ (show_ℕ i ⧺ "]"))) value and_then check_each check key (suc i) rest

  unfoldable pub check_elements :
      (String → Json F → Check) → (key : String) → Option (Jsons F) → Check
  unfolding check_each
  check_elements check key none = other_error
  check_elements check key (some values) = check_each check key 0 values
