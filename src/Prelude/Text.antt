-- ===== src/Prelude/Text.antt =====
-- Python's `str`: the native texts, with the operations that the program uses. Letters are folded
-- as ASCII, and white space is that of ASCII.
use Prim.Native.Nat.{ℕ, zero, suc, ◌-◌, ◌/◌, ◌%◌}
use Prim.Native.Char.{Char, code}
use Prim.Native.String.{String, char_at}
use Prim.Native.String as Native
use text.Mathlib.Text.{◌==◌ as str_eq, find?}
use mathlib.Core.Path.{◌≡◌, refl, sym, subst}
use mathlib.Core.Logic.{inl, inr}
use text.Mathlib.TextEquality.{eq_iff}
use aa.Prelude.Lists.{All}
use mathlib.Core.Bool.{false≢true, Bool, true, false, ◌||◌, ◌&&◌}
use mathlib.Core.Option.{none, some}
use mathlib.Core.List.{List, [], ◌∷◌}
use aa.Prelude.Tests.{leb, ◌==◌, ltb, if◌then◌else◌, Bool-cases}

infixr 65 ◌⧺◌
-- `s + t`
abbrev pub ◌⧺◌ : String → String → String
s ⧺ t = Native.◌++◌ s t

infix 50 ◌≟◌
abbrev pub ◌≟◌ : String → String → Bool
s ≟ t = str_eq s t

-- `x in xs` for a collection of texts
abbrev pub elem : String → List String → Bool
elem s [] = false
elem s (t ∷ ts) = (s ≟ t) || elem s ts

-- What holds of each text of a list holds of each text that is found in it.
pub All-elem {κ} :
    (P : String → Type κ) (ts : List String) → All P ts → (s : String) → elem s ts ≡ true → P s
All-elem P [] h s e = absurd (false≢true e)
All-elem P (t ∷ ts) h s e = elim (Bool-cases (s ≟ t)) [
  | inl same ↦ subst P (sym ((eq_iff s t).0 same)) h.0
  | inr other ↦ All-elem P ts h.1 s (rw other at e)
]

-- `needle in text`
unfoldable pub contains : String → String → Bool
contains text needle = elim (find? text needle) [ none ↦ false | some _ ↦ true ]

-- `not text`
abbrev pub is_blank : String → Bool
is_blank s = s ≟ ""

unfoldable pub is_space : Char → Bool
is_space c =
    (code c == 32) || (leb 9 (code c) && leb (code c) 13) || (leb 28 (code c) && leb (code c) 31)

unfoldable pub lower_char : Char → Char
lower_char c =
    if leb 65 (code c) && leb (code c) 90
    then char_at "abcdefghijklmnopqrstuvwxyz" (code c - 65)
    else c

upper_char : Char → Char
upper_char c =
    if leb 97 (code c) && leb (code c) 122
    then char_at "ABCDEFGHIJKLMNOPQRSTUVWXYZ" (code c - 97)
    else c

unfoldable pub lower : String → String
unfolding lower_char
lower String.[] = ""
lower (String.◌∷◌ c s) = String.◌∷◌ (lower_char c) (lower s)

unfoldable pub upper : String → String
unfolding upper_char
upper String.[] = ""
upper (String.◌∷◌ c s) = String.◌∷◌ (upper_char c) (upper s)

lstrip : String → String
unfolding is_space
lstrip String.[] = ""
lstrip (String.◌∷◌ c s) = let rest = lstrip s in if is_space c then rest else String.◌∷◌ c s

blank : String → Bool
unfolding is_space
blank String.[] = true
blank (String.◌∷◌ c s) = is_space c && blank s

-- `text.rstrip()`
unfoldable pub rstrip : String → String
unfolding blank
rstrip String.[] = ""
rstrip (String.◌∷◌ c s) =
    let rest = rstrip s in if is_space c && blank s then "" else String.◌∷◌ c rest

-- `text.strip()`
unfoldable pub strip : String → String
unfolding lstrip rstrip
strip s = rstrip (lstrip s)

-- `text.endswith(suffix)`
unfoldable pub ends_with : String → String → Bool
ends_with String.[] suffix = "" ≟ suffix
ends_with (String.◌∷◌ c s) suffix = (String.◌∷◌ c s ≟ suffix) || ends_with s suffix

-- `text[:n]`
unfoldable pub take_text : ℕ → String → String
take_text zero s = ""
take_text (suc n) String.[] = ""
take_text (suc n) (String.◌∷◌ c s) = String.◌∷◌ c (take_text n s)

-- `text[n:]`
unfoldable pub drop_text : ℕ → String → String
drop_text zero s = s
drop_text (suc n) String.[] = ""
drop_text (suc n) (String.◌∷◌ c s) = drop_text n s

-- `len(text)`
abbrev pub len : String → ℕ
len s = Native.count s

-- `separator.join(parts)`
unfoldable pub join : String → List String → String
join separator [] = ""
join separator (s ∷ []) = s
join separator (s ∷ t ∷ ts) = s ⧺ (separator ⧺ join separator (t ∷ ts))

lower_test : lower "Use ONLY k8s" ≡ "use only k8s"
unfolding lower
lower_test = refl

strip_test : strip "  a b \n" ≡ "a b"
unfolding strip
strip_test = refl

digit_text : ℕ → String
digit_text d = String.◌∷◌ (char_at "0123456789" d) String.[]

show_from : ℕ → ℕ → String → String
unfolding digit_text
show_from zero n digits = digits
show_from (suc fuel) n digits =
    let shown = digit_text (n % 10) ⧺ digits in
    let more = show_from fuel (n / 10) shown in if ltb n 10 then shown else more

-- `str(n)`: a number has at most as many digits as one more than its value.
unfoldable pub show_ℕ : ℕ → String
unfolding show_from
show_ℕ n = show_from (suc n) n ""

show_test : show_ℕ 40967 ≡ "40967"
unfolding show_ℕ
show_test = refl

-- `text.replace("\n", " ")`
unfoldable pub unline : String → String
unline String.[] = ""
unline (String.◌∷◌ c s) = if code c == 10 then " " ⧺ unline s else String.◌∷◌ c (unline s)
