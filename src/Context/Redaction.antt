-- ===== src/Context/Redaction.antt =====
-- `SecretRedactor` of sifter/src/aa_sifter/context/handoff.py.
use aa.Prelude.{
  ℕ, List, [], ◌∷◌, ◌++◌, String, Bool, true, not, ◌&&◌, ◌||◌, map, leb, ◌==◌, if◌then◌else◌, ◌≡◌,
  refl,
}
use Prim.Native.Char.{Char, code}
use aa.Prelude.Text.{◌⧺◌, is_blank, is_space}
use aa.Prelude.Regex.{
  Regex, search, substitute, seq, alt, opt, star, star_lazy, at_least, times, char_where, dot,
  space, text, text_ci, one_of, boundary, line_start, line_end, is_word, is_digit,
}
use aa.Models.Provider.{Message}

between : ℕ → ℕ → Char → Bool
between a b c = leb a (code c) && leb (code c) b

upper_case : Char → Bool
unfolding between
upper_case c = between 65 90 c

-- `[A-Za-z0-9]`
alphanumeric : Char → Bool
unfolding between upper_case is_digit
alphanumeric c = upper_case c || (between 97 122 c || is_digit c)

-- A character of any kind: `.` under `re.DOTALL`.
anything : Regex
unfolding char_where
anything = char_where (λ c. true)

key_boundary : String → Regex
key_boundary side = seq (
    text ("-----" ⧺ (side ⧺ " "))
    ∷ star (char_where (λ c. upper_case c || code c == 32))
    ∷ text "PRIVATE KEY-----"
    ∷ [])

-- `_SECRET_PATTERNS`, with their names.
unfoldable pub secret_patterns : List (String × Regex)
unfolding key_boundary anything alphanumeric upper_case between
secret_patterns =
    ("private_key", seq (key_boundary "BEGIN" ∷ star_lazy anything ∷ key_boundary "END" ∷ []))
    ∷ (
      "aws_access_key",
      seq (
          boundary
          ∷ text "AKIA"
          ∷ times 16 (char_where (λ c. is_digit c || upper_case c))
          ∷ boundary
          ∷ []),
    )
    ∷ (
      "github_token",
      seq (
          boundary
          ∷ text "gh"
          ∷ one_of "pousr"
          ∷ text "_"
          ∷ at_least 20 (char_where alphanumeric)
          ∷ boundary
          ∷ []),
    )
    ∷ (
      "slack_token",
      seq (
          boundary
          ∷ text "xox"
          ∷ one_of "baprs"
          ∷ text "-"
          ∷ at_least 10 (char_where (λ c. alphanumeric c || code c == b'-'))
          ∷ boundary
          ∷ []),
    )
    ∷ (
      "openai_key",
      seq (boundary ∷ text "sk-" ∷ at_least 16 (char_where alphanumeric) ∷ boundary ∷ []),
    )
    ∷ (
      "bearer_token",
      seq (
          boundary
          ∷ text_ci "bearer"
          ∷ at_least 1 space
          ∷ at_least 12 (char_where (λ c. is_word c || (code c == b'.' || code c == b'-')))
          ∷ []),
    )
    ∷ (
      "env_assignment",
      seq (
          line_start
          ∷ star space
          ∷ star (char_where is_word)
          ∷ alt (
              text_ci "KEY"
              ∷ text_ci "TOKEN"
              ∷ text_ci "SECRET"
              ∷ text_ci "PASSWORD"
              ∷ text_ci "PASSWD"
              ∷ text_ci "PWD"
              ∷ text_ci "CREDENTIAL"
              ∷ [])
          ∷ star (char_where is_word)
          ∷ star space
          ∷ text "="
          ∷ star space
          ∷ at_least 1 dot
          ∷ line_end
          ∷ []),
    )
    ∷ (
      "password_field",
      seq (
          boundary
          ∷ text_ci "password"
          ∷ star space
          ∷ one_of ":="
          ∷ star space
          ∷ at_least 4 (char_where (λ c. not (is_space c || (code c == b'"' || code c == 39))))
          ∷ []),
    )
    ∷ (
      "connection_string",
      seq (
          boundary
          ∷ alt (
              seq (text_ci "postgres" ∷ opt (text_ci "ql") ∷ [])
              ∷ text_ci "mysql"
              ∷ text_ci "mongodb"
              ∷ text_ci "redis"
              ∷ [])
          ∷ opt (seq (text "+" ∷ at_least 1 (char_where is_word) ∷ []))
          ∷ text "://"
          ∷ at_least 1 (char_where (λ c. not (is_space c)))
          ∷ []),
    )
    ∷ []

pub record RedactionResult : Type 0 where
  pub text : String
  pub findings : List String

redact_by : List (String × Regex) → RedactionResult → RedactionResult
redact_by [] r = r
redact_by ((name, pattern) ∷ rest) r = redact_by rest (
    if search pattern r.text
    then record {
      text = substitute pattern ("[REDACTED:" ⧺ (name ⧺ "]")) r.text;
      findings = r.findings ++ name ∷ [];
    }
    else r)

-- `redact(text)`, of a redactor that is enabled or not
unfoldable pub redact : Bool → String → RedactionResult
unfolding redact_by secret_patterns search substitute
redact enabled s =
    if not enabled || is_blank s
    then record { text = s; findings = [] }
    else redact_by secret_patterns (record { text = s; findings = [] })

-- The messages of `redact_model_messages`; their findings go to the log only.
unfoldable pub redact_model_messages : Bool → List Message → List Message
redact_model_messages enabled messages =
    map (λ (m : Message). record m { content = (redact enabled m.content).text }) messages

redact_test :
    redact true "use sk-abcdefghijklmnop1 please"
    ≡ record { text = "use [REDACTED:openai_key] please"; findings = "openai_key" ∷ [] }
unfolding redact line_start
redact_test = refl
