-- ===== src/Config/Toml/Reading.antt =====
-- The strings that sifter/src/aa_sifter/config/toml.py writes, read back as TOML's basic strings.
use aa.Prelude.{
  String, Bool, true, false, ◌&&◌, ◌||◌, Option, none, some, inl, inr, ◌==◌, leb, not,
  if◌then◌else◌, ◌≡◌, refl, arith, Bool-cases,
}
use Prim.Native.Char.{Char, code}
use aa.Prelude.Text.{◌⧺◌}
use text.Mathlib.TextLemmas.{nil-append, cons-append, append_assoc}
use aa.Config.Toml.{quote, backslash, escaped, quoted}

-- A character that a basic string has as itself: none of the controls but the tabulator.
unfoldable pub unescaped : Char → Bool
unescaped c = (code c == 9) || (leb 32 (code c) && not (code c == 127))

-- A text of such characters.
unfoldable pub plain : String → Bool
unfolding unescaped
plain String.[] = true
plain (String.◌∷◌ c s) = unescaped c && plain s

prefixed : Char → Option (String × String) → Option (String × String)
prefixed c none = none
prefixed c (some (s, rest)) = some (String.◌∷◌ c s, rest)

-- What a basic string means, read from behind its opening quote: the text and what stands behind the
-- closing quote. `pending` is that a backslash stands before; of the escapes there are those for the
-- backslash and the quote.
unfoldable pub read_basic : (pending : Bool) → String → Option (String × String)
unfolding unescaped prefixed
read_basic pending String.[] = none
read_basic true (String.◌∷◌ c s) =
    let rest = prefixed c (read_basic false s) in
    if (code c == 92) || (code c == 34) then rest else none
read_basic false (String.◌∷◌ c s) =
    let escape = read_basic true s in
    let rest = prefixed c (read_basic false s) in
    if code c == 34
    then some ("", s)
    else if code c == 92
    then escape
    else if unescaped c
    then rest
    else none

-- The same from before the opening quote.
unfoldable pub read_string : String → Option (String × String)
unfolding read_basic
read_string String.[] = none
read_string (String.◌∷◌ c s) = if code c == 34 then read_basic false s else none

read_basic-escaped :
    (s rest : String)
    → read_basic false (escaped s ⧺ String.◌∷◌ quote rest)
      ≡ (if plain s then some (s, rest) else none)
unfolding escaped read_basic plain
read_basic-escaped String.[] rest = rw (nil-append (String.◌∷◌ quote rest)) refl
read_basic-escaped (String.◌∷◌ c s) rest = elim (Bool-cases ((code c == 92) || (code c == 34))) [
  | inl special ↦
      rw
        (
          special,
          cons-append backslash (String.◌∷◌ c (escaped s)) (String.◌∷◌ quote rest),
          cons-append c (escaped s) (String.◌∷◌ quote rest),
          read_basic-escaped s rest,
        )
        (elim (Bool-cases (plain s)) [ inl t ↦ rw t (ground arith) | inr f ↦ rw f (ground arith) ])
  | inr other ↦
      rw (other, cons-append c (escaped s) (String.◌∷◌ quote rest))
        (elim (Bool-cases (plain s)) [
          | inl t ↦ (let h = read_basic-escaped s rest in rw (t, (rw t at h)) (ground arith))
          | inr f ↦ (let h = read_basic-escaped s rest in rw (f, (rw f at h)) (ground arith))
        ])
]

-- A quoted text, whatever follows it, is read back as itself where all its characters may stand in a basic
-- string, and is refused where one is a control character other than the tabulator.
pub read_string-quoted :
    (s rest : String) → read_string (quoted s ⧺ rest) ≡ (if plain s then some (s, rest) else none)
unfolding read_string quoted
read_string-quoted s rest =
    rw
      (
        cons-append quote (escaped s ⧺ String.◌∷◌ quote String.[]) rest,
        append_assoc (escaped s) (String.◌∷◌ quote String.[]) rest,
        cons-append quote String.[] rest,
        nil-append rest,
      )
      (read_basic-escaped s rest)
