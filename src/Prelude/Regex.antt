-- ===== src/Prelude/Regex.antt =====
-- Python's `re` for the patterns that the program writes. A pattern is a matcher: from a position,
-- which is the character before it and the text behind it, it tries its ways to match in Python's
-- order, and hands each end to what continues. Folding of letters is that of ASCII.
use Prim.Native.Nat.{ℕ, zero, suc}
use Prim.Native.Char.{Char, code}
use Prim.Native.String.{String, count}
use mathlib.Core.Path.{◌≡◌, refl}
use mathlib.Core.Bool.{Bool, true, false, not, ◌||◌, ◌&&◌, xor}
use mathlib.Core.Option.{Option, none, some}
use mathlib.Core.List.{List, [], ◌∷◌}
use aa.Prelude.Tests.{leb, ◌==◌, if◌then◌else◌, is_some}
use aa.Prelude.Text.{◌⧺◌, is_space, lower_char}

abbrev pub Position : Type 0
Position = Option Char × String

abbrev pub Regex : Type 0
Regex = Position → (Position → Option Position) → Option Position

-- The first answer, or else the second.
abbrev pub first : Option Position → Option Position → Option Position
first (some p) q = some p
first none q = q

step : (Char → Bool) → Option Char → String → (Position → Option Position) → Option Position
step test before String.[] k = none
step test before (String.◌∷◌ c s) k = let rest = k (some c, s) in if test c then rest else none

-- One character.
unfoldable pub char_where : (Char → Bool) → Regex
unfolding step
char_where test (before, s) k = step test before s k

unfoldable pub seq : List Regex → Regex
seq [] p k = k p
seq (r ∷ rs) p k = r p (λ q. seq rs q k)

unfoldable pub alt : List Regex → Regex
alt [] p k = none
alt (r ∷ rs) p k = let others = alt rs p k in elim (r p k) [ some q ↦ some q | none ↦ others ]

unfoldable pub opt : Regex → Regex
opt r p k = first (r p k) (k p)

star_loop : ℕ → Regex → Regex
star_loop zero r p k = k p
star_loop (suc n) r p k = elim (r p (λ q. star_loop n r q k)) [ some q ↦ some q | none ↦ k p ]

-- `r*`: a round that matches nothing leads nowhere new, so there are at most as many rounds as
-- characters left.
unfoldable pub star : Regex → Regex
unfolding star_loop
star r p k = star_loop (count p.1) r p k

lazy_loop : ℕ → Regex → Regex
lazy_loop zero r p k = k p
lazy_loop (suc n) r p k = elim (k p) [ some q ↦ some q | none ↦ r p (λ q. lazy_loop n r q k) ]

-- `r*?`
unfoldable pub star_lazy : Regex → Regex
unfolding lazy_loop
star_lazy r p k = lazy_loop (count p.1) r p k

exactly : ℕ → Regex → Regex
exactly zero r p k = k p
exactly (suc n) r p k = r p (λ q. exactly n r q k)

-- `r{n}`
unfoldable pub at_least : ℕ → Regex → Regex
unfolding exactly star
at_least n r p k = exactly n r p (λ q. star r q k)

-- `r{n}`
unfoldable pub times : ℕ → Regex → Regex
unfolding exactly
times n r = exactly n r

in_range : ℕ → ℕ → Char → Bool
in_range a b c = leb a (code c) && leb (code c) b

unfoldable pub is_digit : Char → Bool
unfolding in_range
is_digit c = in_range 48 57 c

-- `[a-zA-Z0-9_]`
unfoldable pub is_word : Char → Bool
unfolding in_range
is_word c = in_range 97 122 c || in_range 65 90 c || in_range 48 57 c || code c == 95

-- `.`, which matches no end of line
unfoldable pub dot : Regex
unfolding char_where
dot = char_where (λ c. not (code c == 10))

unfoldable pub space : Regex
unfolding char_where is_space
space = char_where is_space

unfoldable pub digit : Regex
unfolding char_where is_digit
digit = char_where is_digit

-- A literal text, and one whose letters stand for both cases.
unfoldable pub text : String → Regex
unfolding char_where
text String.[] p k = k p
text (String.◌∷◌ c s) p k = char_where (λ d. code d == code c) p (λ q. text s q k)

unfoldable pub text_ci : String → Regex
unfolding char_where lower_char
text_ci String.[] p k = k p
text_ci (String.◌∷◌ c s) p k =
    char_where (λ d. code (lower_char d) == code (lower_char c)) p (λ q. text_ci s q k)

one_of_chars : String → Char → Bool
one_of_chars String.[] d = false
one_of_chars (String.◌∷◌ c s) d = code d == code c || one_of_chars s d

-- `[…]` for single characters, and `[^…]`
unfoldable pub one_of : String → Regex
unfolding char_where one_of_chars
one_of s = char_where (one_of_chars s)

word_at : Option Char → Bool
unfolding is_word
word_at none = false
word_at (some c) = is_word c

next_char : String → Option Char
next_char String.[] = none
next_char (String.◌∷◌ c s) = some c

-- `\b`
unfoldable pub boundary : Regex
unfolding word_at next_char xor
boundary (before, s) k =
    let rest = k (before, s) in if xor (word_at before) (word_at (next_char s)) then rest else none

-- `(?!r)`
unfoldable pub not_ahead : Regex → Regex
not_ahead r p k = let rest = k p in elim (r p some) [ some _ ↦ none | none ↦ rest ]

find_from : Regex → Option Char → String → Option Position
find_from r before String.[] = r (before, String.[]) some
find_from r before (String.◌∷◌ c s) =
    let later = find_from r (some c) s in
    elim (r (before, String.◌∷◌ c s) some) [ some q ↦ some q | none ↦ later ]

-- `re.search(pattern, text) is not None`
unfoldable pub search : Regex → String → Bool
unfolding find_from char_where seq alt opt star star_lazy at_least times is_digit is_word dot space
    digit text text_ci one_of boundary not_ahead
search r s = is_some (find_from r none s)

search_test :
    search
      (seq (boundary ∷ text_ci "drop" ∷ at_least 1 space ∷ text_ci "table" ∷ []))
      "please DROP  table x"
    ≡ true
unfolding search
search_test = refl

-- The start and the end of a line, `^` and `$` under `re.MULTILINE`.
unfoldable pub line_start : Regex
line_start (none, s) k = k (none, s)
line_start (some c, s) k = let rest = k (some c, s) in if code c == 10 then rest else none

unfoldable pub line_end : Regex
line_end (before, String.[]) k = k (before, String.[])
line_end (before, String.◌∷◌ c s) k =
    let rest = k (before, String.◌∷◌ c s) in if code c == 10 then rest else none

-- What a substitution does with the match, or its lack, at a position.
sub_loop : ℕ → Regex → String → Option Char → String → String
sub_loop zero r replacement before s = s
sub_loop (suc n) r replacement before String.[] = ""
sub_loop (suc n) r replacement before (String.◌∷◌ c s) = elim (r (before, String.◌∷◌ c s) some) [
  | some (before', s') ↦ replacement ⧺ sub_loop n r replacement before' s'
  | none ↦ String.◌∷◌ c (sub_loop n r replacement (some c) s)
]

-- `pattern.sub(replacement, text)`, for a pattern that does not match the empty text: each round takes a
-- character of the text, so its length is enough rounds.
unfoldable pub substitute : Regex → String → String → String
unfolding sub_loop
substitute r replacement s = sub_loop (count s) r replacement none s
