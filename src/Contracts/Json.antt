-- ===== src/Contracts/Json.antt =====
-- The values of JSON, as contracts/python/aa_contracts/v1.py reads them, and how Python sees them.
use aa.Prelude.{ℕ, suc, String, Bool, true, false, not, Option, none, some, if◌then◌else◌}
use aa.Prelude.Text.{◌≟◌, is_blank}
use aa.Prelude.Float.{Float}

mutual
  pub data Json (F : Type 0) : Type 0 where
    null : Json F
    bool : (value : Bool) → Json F
    num : (value : F) → Json F
    str : (value : String) → Json F
    arr : (values : Jsons F) → Json F
    obj : (fields : Fields F) → Json F

  pub data Jsons (F : Type 0) : Type 0 where
    nil : Jsons F
    cons : (value : Json F) → (rest : Jsons F) → Jsons F

  pub data Fields (F : Type 0) : Type 0 where
    end : Fields F
    field : (key : String) → (value : Json F) → (rest : Fields F) → Fields F

-- How a check ends: it passes, or raises the ValueError of a field, or another error of Python's where a value is
-- of a kind that the code does not expect. The message is less the value that it quotes.
pub data Check : Type 0 where
  passed : Check
  value_error : (name : String) → (message : String) → Check
  other_error : Check

infixr 40 ◌and_then◌
-- The second check, where the first has passed.
abbrev pub ◌and_then◌ : Check → Check → Check
passed and_then check = check
(value_error name message) and_then check = value_error name message
other_error and_then check = other_error

abbrev pub has_passed : Check → Bool
has_passed passed = true
has_passed _ = false

module _ {F : Type 0} where
  -- `fields.get(key)`
  unfoldable pub get_field : Fields F → String → Json F
  get_field end key = null
  get_field (field k value rest) key =
      let others = get_field rest key in if k ≟ key then value else others

  -- `value.get(key)`, and what is done with it
  unfoldable pub with_field : Json F → String → (Json F → Check) → Check
  unfolding get_field
  with_field (obj fields) key check = check (get_field fields key)
  with_field _ key check = other_error

  unfoldable pub count_values : Jsons F → ℕ
  count_values nil = 0
  count_values (cons value rest) = suc (count_values rest)

  unfoldable pub count_fields : Fields F → ℕ
  count_fields end = 0
  count_fields (field key value rest) = suc (count_fields rest)

  -- The keys of an object and the characters of a text, as what a loop over them sees.
  unfoldable pub keys_of : Fields F → Jsons F
  keys_of end = nil
  keys_of (field key value rest) = cons (str key) (keys_of rest)

  unfoldable pub characters : String → Jsons F
  characters String.[] = nil
  characters (String.◌∷◌ c s) = cons (str (String.◌∷◌ c String.[])) (characters s)

  unfoldable pub is_null : Json F → Bool
  is_null null = true
  is_null _ = false

module _ {F : Type 0} ⦃fl : Float F⦄ where
  -- `bool(value)`
  unfoldable pub is_truthy : Json F → Bool
  is_truthy null = false
  is_truthy (bool b) = b
  is_truthy (num x) =
      if fl.le x (fl.of_ℕ 0) then (if fl.lt x (fl.of_ℕ 0) then true else false) else true
  is_truthy (str s) = not (is_blank s)
  is_truthy (arr nil) = false
  is_truthy (arr (cons value rest)) = true
  is_truthy (obj end) = false
  is_truthy (obj (field key value rest)) = true

  -- What a loop over `value or []` goes through; none is the TypeError.
  unfoldable pub elements : Json F → Option (Jsons F)
  unfolding keys_of characters is_truthy
  elements null = some nil
  elements (bool b) = if b then none else some nil
  elements (num x) = if is_truthy (num x) then none else some nil
  elements (str s) = some (characters s)
  elements (arr values) = some values
  elements (obj fields) = some (keys_of fields)
