-- ===== src/Context/Compression.antt =====
-- sifter/src/aa_sifter/context/compression.py: messages made to fit into a model's context.
pub mod Fit
use aa.Prelude.{
  ℕ, zero, suc, ◌+◌, ◌-◌, ◌*◌, ◌/◌, max, List, [], ◌∷◌, ◌++◌, String, Bool, true, false, not, ◌&&◌,
  ◌||◌, Option, none, some, map, filter, take, drop, length, is_empty, sum_by, leb, ltb, ◌==◌,
  if◌then◌else◌,
}
use aa.Prelude.Float.{Float}
use aa.Prelude.Text.{◌⧺◌, len, take_text, drop_text, strip, join, unline}
use aa.Models.Provider.{Message, Role, system_message, role_value, is_system}

-- `estimate_tokens(text)`
unfoldable pub estimate_tokens : String → ℕ
estimate_tokens text = max 1 (len text / 4)

-- `sum(estimate_tokens(m.content) for m in messages)`
abbrev pub total_tokens : List Message → ℕ
total_tokens messages = sum_by (λ (m : Message). estimate_tokens m.content) messages

-- `xs[-n:]` for a positive `n`, and `xs[:-n]`
abbrev recent_of : ℕ → List Message → List Message
recent_of n xs = if n == 0 then xs else drop (length xs - n) xs

abbrev older_of : ℕ → List Message → List Message
older_of n xs = if ltb n (length xs) && not (n == 0) then take (length xs - n) xs else []

summary_line : Message → String
unfolding role_value strip unline take_text
summary_line m = role_value m.role ⧺ (": " ⧺ take_text 160 (unline (strip m.content)))

-- `compress_messages`
unfoldable pub compress_messages : List Message → (max_tokens keep_recent : ℕ) → List Message
unfolding summary_line join
compress_messages messages max_tokens keep_recent =
    let systems = filter (λ (m : Message). is_system m.role) messages in
    let rest = filter (λ (m : Message). not (is_system m.role)) messages in
    let recent = recent_of keep_recent rest in
    let older = older_of keep_recent rest in
    if is_empty messages
    then []
    else if leb (total_tokens messages) max_tokens
    then messages
    else if is_empty older
    then systems ++ recent
    else systems
      ++ (system_message ("Compressed earlier context:\n" ⧺ join "\n" (map summary_line older))
          ∷ recent)

-- `text[-n:]`, which is the whole text for 0
abbrev last_chars : ℕ → String → String
last_chars n text = if n == 0 then text else drop_text (len text - n) text

-- The place of the first entry with the most tokens, and these tokens:
-- `max(range(len(result)), key=lambda i: estimate_tokens(result[i].content))`.
unfoldable pub largest : List Message → ℕ × ℕ
largest [] = (0, 0)
largest (m ∷ ms) =
    let (i, most) = largest ms in
    let tokens = estimate_tokens m.content in if leb most tokens then (0, tokens) else (suc i, most)

unfoldable pub content_at : ℕ → List Message → String
content_at i [] = ""
content_at zero (m ∷ ms) = m.content
content_at (suc i) (m ∷ ms) = content_at i ms

unfoldable pub put_content : ℕ → String → List Message → List Message
put_content i text [] = []
put_content zero text (m ∷ ms) = record m { content = text } ∷ ms
put_content (suc i) text (m ∷ ms) = m ∷ put_content i text ms

module _ {F : Type 0} (fl : Float F) where
  -- `truncate(text, max_tokens)`
  unfoldable pub truncate : String → ℕ → String
  unfolding take_text drop_text
  truncate text max_tokens =
      let max_chars = max_tokens * 4 in
      let head = fl.truncate (fl.mul (fl.of_ℕ max_chars) (fl.decimal 7 1)) in
      let tail = max_chars - head in
      if leb (estimate_tokens text) max_tokens
      then text
      else take_text head text ⧺ ("\n...[truncated]...\n" ⧺ last_chars tail text)

  -- One round of the `while` loop of `fit_messages`, or `none` where it breaks.
  unfoldable pub shrink : List Message → Option (List Message)
  unfolding truncate largest content_at put_content
  shrink messages =
      let (index, current) = largest messages in
      let reduced = truncate (content_at index messages) (max 1 (current / 2)) in
      if leb current 1
      then none
      else if leb current (estimate_tokens reduced)
      then none
      else some (put_content index reduced messages)

  -- The loop, on fuel.
  unfoldable pub fit_loop : ℕ → List Message → ℕ → List Message
  unfolding shrink
  fit_loop zero messages max_tokens = messages
  fit_loop (suc fuel) messages max_tokens =
      if is_empty messages || leb (total_tokens messages) max_tokens
      then messages
      else elim (shrink messages) [
        | none ↦ messages
        | some smaller ↦ fit_loop fuel smaller max_tokens
      ]

  -- `fit_messages(messages, max_tokens, keep_recent)`
  unfoldable pub fit_messages : List Message → (max_tokens keep_recent : ℕ) → List Message
  unfolding compress_messages fit_loop
  fit_messages messages max_tokens keep_recent =
      let compacted = compress_messages messages max_tokens keep_recent in
      if leb (total_tokens compacted) max_tokens
      then compacted
      else fit_loop (total_tokens compacted) compacted max_tokens
