-- ===== src/Context/Packet.antt =====
-- sifter/src/aa_sifter/context/packet.py
use aa.Prelude.{List, [], ◌∷◌, ◌++◌, String, map, if◌then◌else◌}
use aa.Prelude.Text.{◌⧺◌, is_blank, join}
use aa.Decisions.Level.{DecisionLevel}

pub record EscalationPacket : Type 0 where
  pub original_task : String
  pub current_plan : String
  pub completed_work : String
  pub relevant_files : List String
  pub failed_attempts : List String
  pub test_results : String
  pub open_questions : List String
  pub reason_for_escalation : String
  pub human_constraints : List String
  pub approved_decisions : List String
  pub decision_level : DecisionLevel

text_section : String → String → List String
text_section heading body = if is_blank body then [] else (heading ⧺ ("\n" ⧺ body)) ∷ []

-- `heading + "\n".join(f"- {x}" for x in items)`, if there are any.
abbrev pub bulleted : String → List String → List String
bulleted heading [] = []
bulleted heading (x ∷ xs) = (heading ⧺ ("\n" ⧺ join "\n" (map (λ item. "- " ⧺ item) (x ∷ xs)))) ∷ []

-- `to_prompt`
unfoldable pub to_prompt : EscalationPacket → String
unfolding text_section join
to_prompt p = join "\n\n" (
    ("Original task:\n" ⧺ p.original_task)
    ∷ (text_section "Current plan:" p.current_plan
        ++ (text_section "Completed work:" p.completed_work
            ++ (bulleted "Relevant files:" p.relevant_files
                ++ (bulleted "Failed attempts:" p.failed_attempts
                    ++ (text_section "Test results:" p.test_results
                        ++ (bulleted "Open questions:" p.open_questions
                            ++ (text_section "Reason for escalation:" p.reason_for_escalation
                                ++ (bulleted
                                      "HUMAN CONSTRAINTS (authoritative, must not be reinterpreted as optional):"
                                      p.human_constraints
                                    ++ bulleted "APPROVED DECISIONS (authoritative):"
                                        p.approved_decisions)))))))))
