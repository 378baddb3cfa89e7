-- ===== src/Config/Toml.antt =====
-- sifter/src/aa_sifter/config/toml.py: the printer of the configuration file, and the keys that
-- `_assert_no_secrets` of config/store.py refuses. `repr` of a float is an argument.
use aa.Prelude.{
  ℕ, zero, suc, List, [], ◌∷◌, ◌++◌, String, Bool, true, false, not, ◌&&◌, ◌||◌, Option, none, some,
  map, is_empty, ◌==◌, leb, if◌then◌else◌, ◌≡◌, refl,
}
use Prim.Native.Char.{Char, code}
use Prim.Native.String.{char_at}
use aa.Prelude.Text.{◌⧺◌, join, show_ℕ, lower, elem, rstrip}
pub mod Reading

-- The values of a payload. A list of values and the items of a table are data types of their own.
mutual
  pub data Value (F : Type 0) : Type 0 where
    truth : (value : Bool) → Value F
    str : (value : String) → Value F
    int : (value : ℕ) → Value F
    float : (value : F) → Value F
    array : (values : Values F) → Value F
    table : (items : Items F) → Value F

  pub data Values (F : Type 0) : Type 0 where
    nil : Values F
    cons : (value : Value F) → (rest : Values F) → Values F

  pub data Items (F : Type 0) : Type 0 where
    end : Items F
    item : (key : String) → (value : Value F) → (rest : Items F) → Items F

abbrev pub backslash : Char
backslash = char_at "\\" 0

abbrev pub quote : Char
quote = char_at "\"" 0

-- `value.replace("\\", "\\\\").replace('"', '\\"')`: a backslash before each backslash and quote.
unfoldable pub escaped : String → String
escaped String.[] = ""
escaped (String.◌∷◌ c s) =
    let rest = escaped s in
    if (code c == 92) || (code c == 34)
    then String.◌∷◌ backslash (String.◌∷◌ c rest)
    else String.◌∷◌ c rest

-- The texts of strings and truth values in `_scalar`.
unfoldable pub quoted : String → String
unfolding escaped
quoted s = String.◌∷◌ quote (escaped s ⧺ String.◌∷◌ quote String.[])

unfoldable pub truth_text : Bool → String
truth_text b = if b then "true" else "false"

module _ {F : Type 0} where
  -- `isinstance(value, dict)`
  unfoldable pub is_table : Value F → Bool
  is_table (table items) = true
  is_table _ = false

  unfoldable pub all_tables : Values F → Bool
  unfolding is_table
  all_tables nil = true
  all_tables (cons value rest) = is_table value && all_tables rest

  -- A list that is not empty and has tables only.
  unfoldable pub is_table_array : Value F → Bool
  unfolding all_tables
  is_table_array (array nil) = false
  is_table_array (array (cons value rest)) = all_tables (cons value rest)
  is_table_array _ = false

-- `_scalar` and `_inline_table`
mutual
  pub scalar : {F : Type 0} → (F → String) → Value F → String
  scalar repr (truth b) = truth_text b
  scalar repr (str s) = quoted s
  scalar repr (int n) = show_ℕ n
  scalar repr (float x) = repr x
  scalar repr (array values) = "[" ⧺ (join ", " (scalars repr values) ⧺ "]")
  scalar repr (table items) = "{ " ⧺ (join ", " (inline_table repr items) ⧺ " }")

  pub scalars : {F : Type 0} → (F → String) → Values F → List String
  scalars repr nil = []
  scalars repr (cons value rest) = scalar repr value ∷ scalars repr rest

  pub inline_table : {F : Type 0} → (F → String) → Items F → List String
  inline_table repr end = []
  inline_table repr (item key value rest) =
      (key ⧺ (" = " ⧺ scalar repr value)) ∷ inline_table repr rest

-- The lines of `_dump_table` for the entries that are neither tables nor arrays of tables.
unfoldable pub scalar_lines : {F : Type 0} → (F → String) → Items F → List String
unfolding is_table is_table_array
scalar_lines repr end = []
scalar_lines repr (item key value rest) =
    let others = scalar_lines repr rest in
    if is_table value || is_table_array value
    then others
    else (key ⧺ (" = " ⧺ scalar repr value)) ∷ others

-- `_dump_table` for the tables and for the arrays of tables, each below its heading.
mutual
  pub table_lines : {F : Type 0} → (F → String) → List String → Items F → List String
  table_lines repr path end = []
  table_lines repr path (item key (table items) rest) =
      let full = path ++ (key ∷ []) in
      (""
        ∷ ("[" ⧺ (join "." full ⧺ "]"))
        ∷ (scalar_lines repr items ++ (table_lines repr full items ++ array_lines repr full items)))
      ++ table_lines repr path rest
  table_lines repr path (item key _ rest) = table_lines repr path rest

  pub array_lines : {F : Type 0} → (F → String) → List String → Items F → List String
  array_lines repr path end = []
  array_lines repr path (item key (array values) rest) =
      let others = array_lines repr path rest in
      let tables = array_tables repr (path ++ (key ∷ [])) values in
      if is_table_array (array values) then tables ++ others else others
  array_lines repr path (item key _ rest) = array_lines repr path rest

  pub array_tables : {F : Type 0} → (F → String) → List String → Values F → List String
  array_tables repr path nil = []
  array_tables repr path (cons (table items) rest) =
      (""
        ∷ ("[[" ⧺ (join "." path ⧺ "]]"))
        ∷ (scalar_lines repr items ++ (table_lines repr path items ++ array_lines repr path items)))
      ++ array_tables repr path rest
  array_tables repr path (cons _ rest) = array_tables repr path rest

-- `_dump_table`: the scalars, then the tables, then the arrays of tables.
unfoldable pub dump_table : {F : Type 0} → (F → String) → List String → Items F → List String
unfolding scalar_lines
dump_table repr path items =
    scalar_lines repr items ++ (table_lines repr path items ++ array_lines repr path items)

-- `dumps`
unfoldable pub dumps : {F : Type 0} → (F → String) → Items F → String
unfolding join rstrip dump_table
dumps repr items = rstrip (join "\n" (dump_table repr [] items)) ⧺ "\n"

-- `_SECRET_KEYS`
abbrev secret_keys : List String
secret_keys = "api_key" ∷ "apikey" ∷ "token" ∷ "password" ∷ "secret" ∷ "credentials" ∷ []

-- `_assert_no_secrets`: the path of the first key that it refuses.
mutual
  pub secret_value : {F : Type 0} → String → Value F → Option String
  secret_value path (table items) = secret_item path items
  secret_value path (array values) = secret_among path values
  secret_value path _ = none

  pub secret_item : {F : Type 0} → String → Items F → Option String
  secret_item path end = none
  secret_item path (item key value rest) =
      let below = secret_value (path ⧺ (key ⧺ ".")) value in
      let others = secret_item path rest in
      if elem (lower key) secret_keys
      then some (path ⧺ key)
      else elim below [ none ↦ others | some found ↦ some found ]

  pub secret_among : {F : Type 0} → String → Values F → Option String
  secret_among path nil = none
  secret_among path (cons value rest) =
      let below = secret_value path value in
      let others = secret_among path rest in elim below [ none ↦ others | some found ↦ some found ]
