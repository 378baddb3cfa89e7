-- ===== src/Decisions/Approval/Input.antt =====
-- `parse_decision_input` of sifter/src/aa_sifter/decisions/approval.py: what a human typed, as a
-- decision.
use Prim.Native.Char.{code}
use text.Mathlib.Text.{starts_with}
use aa.Prelude.{
  List, [], ◌∷◌, ◌++◌, String, Bool, true, false, not, ◌&&◌, ◌||◌, map, ◌≡◌, refl, ◌==◌,
  if◌then◌else◌,
}
use aa.Prelude.Text.{◌≟◌, is_blank, lower, upper, strip, contains, elem, All-elem}
use aa.Decisions.Approval.Types.{
  approve, reject, modify, choose_option, more_local_analysis, allow_expert_analysis,
  continue_current, stop, ApprovalOption, HumanDecision, decide_on, authorized,
}

-- `text.split(":", 1)[1]`, for a text with a colon in it
after_colon : String → String
after_colon String.[] = ""
after_colon (String.◌∷◌ c s) = if code c == b':' then s else after_colon s

-- A first part with one more character in front.
onto_first : String → List String → List String
onto_first c [] = c ∷ []
onto_first String.[] (p ∷ ps) = p ∷ ps
onto_first (String.◌∷◌ c s) (p ∷ ps) = String.◌∷◌ c p ∷ ps

-- `text.split(";")`
split_semicolons : String → List String
unfolding onto_first
split_semicolons String.[] = "" ∷ []
split_semicolons (String.◌∷◌ c s) =
    let parts = split_semicolons s in
    if code c == b';' then "" ∷ parts else onto_first (String.◌∷◌ c String.[]) parts

stripped_parts : List String → List String
unfolding strip
stripped_parts [] = []
stripped_parts (p ∷ ps) =
    let rest = stripped_parts ps in if is_blank (strip p) then rest else strip p ∷ rest

-- The label of the first option whose key is `key`; there is one wherever this is called.
label_of : String → List ApprovalOption → String
unfolding upper
label_of key [] = ""
label_of key (o ∷ os) = if upper o.key ≟ key then o.label else label_of key os

-- What choosing an option means, read off its label.
by_label : String → String → HumanDecision
unfolding contains
by_label key label =
    if contains label "stop"
    then decide_on stop
    else if contains label "keep" || contains label "current"
    then decide_on continue_current
    else if contains label "analysis"
        || contains label "analyze"
        || contains label "deepseek"
        || contains label "expert"
    then record (decide_on allow_expert_analysis) { selected_options = key ∷ [] }
    else if contains label "different" || contains label "instruction"
    then record (decide_on modify) { selected_options = key ∷ [] }
    else record (decide_on choose_option) { selected_options = key ∷ [] }

-- The part of `parse_decision_input` behind the fixed words.
by_option : String → List ApprovalOption → HumanDecision
unfolding by_label label_of lower upper stripped_parts split_semicolons after_colon
by_option text options =
    let lowered = lower text in
    let key = upper text in
    if elem key (map (λ o. upper o.key) options)
    then by_label key (lower (label_of key options))
    else if starts_with lowered "constraint:" || starts_with lowered "constraints:"
    then record {
      action = approve;
      selected_options = [];
      constraints = stripped_parts (split_semicolons (after_colon text));
      note = text;
    }
    else record (decide_on modify) { note = text }

abbrev pub approve_words : List String
approve_words = "approve" ∷ "approved" ∷ "yes" ∷ "y" ∷ "ok" ∷ "a" ∷ []

abbrev pub reject_words : List String
reject_words = "reject" ∷ "no" ∷ "n" ∷ []

abbrev pub stop_words : List String
stop_words = "stop" ∷ "d" ∷ "cancel" ∷ "abort" ∷ []

abbrev pub modify_words : List String
modify_words = "modify" ∷ "c" ∷ "change" ∷ "different" ∷ []

abbrev pub more_words : List String
more_words = "more" ∷ "more local" ∷ "analyze locally" ∷ "local analysis" ∷ []

abbrev pub expert_words : List String
expert_words = "allow deepseek" ∷ "allow expert" ∷ "allow expert analysis" ∷ "deepseek" ∷ []

abbrev pub continue_words : List String
continue_words = "continue" ∷ "keep" ∷ "keep current" ∷ "current" ∷ []

-- The fixed words, on the lowered text.
by_word : Bool → String → String → HumanDecision → HumanDecision
by_word has_a text lowered otherwise =
    if elem lowered approve_words && not has_a
    then decide_on approve
    else if elem lowered reject_words
    then decide_on reject
    else if elem lowered stop_words
    then decide_on stop
    else if elem lowered modify_words
    then record (decide_on modify) { note = text }
    else if elem lowered more_words
    then decide_on more_local_analysis
    else if elem lowered expert_words
    then decide_on allow_expert_analysis
    else if elem lowered continue_words
    then decide_on continue_current
    else otherwise

unfoldable pub parse_decision_input : String → List ApprovalOption → HumanDecision
unfolding by_word by_option lower upper strip
parse_decision_input raw options =
    let text = strip raw in
    by_word (elem "A" (map (λ o. upper o.key) options)) text (lower text) (by_option text options)

-- The words by which a human declines, or asks for something other than going ahead.
abbrev pub declining_words : List String
declining_words = reject_words ++ (stop_words ++ (modify_words ++ more_words))

by_word-declines :
    (has_a : Bool) (text : String) (otherwise : HumanDecision) (lowered : String)
    → elem lowered declining_words ≡ true
    → authorized (by_word has_a text lowered otherwise) ≡ false
unfolding by_word
by_word-declines has_a text otherwise =
    All-elem (λ w. authorized (by_word has_a text w otherwise) ≡ false) declining_words
      (
        refl,
        (
          refl,
          (
            refl,
            (
              refl,
              (
                refl,
                (refl, (refl, (refl, (refl, (refl, (refl, (refl, (refl, (refl, (refl, tt)))))))))),
              ),
            ),
          ),
        ),
      )

-- A typed answer that is, up to case and surrounding white space, one of the declining words never
-- authorizes anything, whatever options the request offered under that word.
pub parse_decision_input-declines :
    (raw : String) (options : List ApprovalOption)
    → elem (lower (strip raw)) declining_words ≡ true
    → authorized (parse_decision_input raw options) ≡ false
unfolding parse_decision_input
parse_decision_input-declines raw options h = by_word-declines _ _ _ (lower (strip raw)) h
