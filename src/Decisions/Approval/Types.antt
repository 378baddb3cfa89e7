-- ===== src/Decisions/Approval/Types.antt =====
-- The data of sifter/src/aa_sifter/decisions/approval.py, and the text of a request.
use aa.Prelude.{List, [], ◌∷◌, ◌++◌, String, Bool, true, false, map, if◌then◌else◌}
use aa.Prelude.Text.{◌⧺◌, is_blank, upper, join, elem}
use aa.Decisions.Level.{DecisionLevel, level_value}

pub data ApprovalAction : Type 0 where
  approve reject modify choose_option more_local_analysis : ApprovalAction
  allow_expert_analysis continue_current stop : ApprovalAction

-- `action.value`
unfoldable pub action_value : ApprovalAction → String
action_value approve = "approve"
action_value reject = "reject"
action_value modify = "modify"
action_value choose_option = "choose_option"
action_value more_local_analysis = "ask_for_more_local_analysis"
action_value allow_expert_analysis = "allow_expert_analysis"
action_value continue_current = "continue_with_current_architecture"
action_value stop = "stop_task"

-- Membership in `_AUTHORIZING`.
abbrev pub authorizing : ApprovalAction → Bool
authorizing approve = true
authorizing choose_option = true
authorizing allow_expert_analysis = true
authorizing continue_current = true
authorizing _ = false

pub record ApprovalOption : Type 0 where
  pub key : String
  pub label : String
  pub description : String

pub record ApprovalRequest : Type 0 where
  pub category : DecisionLevel
  pub issue : String
  pub why_it_matters : String
  pub current_approach : String
  pub options : List ApprovalOption
  pub recommended_action : String
  pub cloud_reasoning_invoked : Bool
  pub stage : String
  pub context : List (String × List String)

pub record HumanDecision : Type 0 where
  pub action : ApprovalAction
  pub selected_options : List String
  pub constraints : List String
  pub note : String

-- A decision with an action and nothing else.
abbrev pub decide_on : ApprovalAction → HumanDecision
decide_on action = record { action = action; selected_options = []; constraints = []; note = "" }

-- `authorized`
abbrev pub authorized : HumanDecision → Bool
authorized decision = authorizing decision.action

-- `allows_expert_analysis`
unfoldable pub allows_expert_analysis : HumanDecision → Bool
allows_expert_analysis decision = elim decision.action [ allow_expert_analysis ↦ true | _ ↦ false ]

-- The optional part of a request: a heading and the text below it.
section_lines : String → String → List String
section_lines heading body = if is_blank body then [] else "" ∷ heading ∷ body ∷ []

option_lines : List ApprovalOption → List String
option_lines [] = []
option_lines (o ∷ os) =
    (o.key ⧺ (". " ⧺ o.label))
    ∷ ((if is_blank o.description then [] else ("   " ⧺ o.description) ∷ []) ++ option_lines os)

directions : List ApprovalOption → List String
unfolding option_lines
directions [] = []
directions (o ∷ os) = "" ∷ "Possible directions:" ∷ option_lines (o ∷ os)

-- `render_request`
unfoldable pub render_request : ApprovalRequest → String
unfolding section_lines directions upper join level_value
render_request request =
    let existing : List String = map (λ o. upper o.key) request.options in
    join "\n" (
      (upper (level_value request.category) ⧺ " DECISION REQUIRED")
      ∷ ""
      ∷ "Issue:"
      ∷ request.issue
      ∷ (section_lines "Why this matters:" request.why_it_matters
          ++ (section_lines "Current approach:" request.current_approach
              ++ (directions request.options
                  ++ (section_lines "Recommended next step:" request.recommended_action
                      ++ (""
                          ∷ (if request.cloud_reasoning_invoked
                              then "Cloud reasoning HAS been invoked for analysis."
                              else "Cloud reasoning has NOT been invoked yet.")
                          ∷ ""
                          ∷ "Choose:"
                          ∷ (map (λ o. "[" ⧺ (o.key ⧺ ("] " ⧺ o.label))) request.options
                              ++ ((if elem "C" existing
                                    then []
                                    else "[C] Give different instructions" ∷ [])
                                  ++ (if elem "D" existing
                                      then []
                                      else "[D] Stop this work" ∷ [])))))))))
