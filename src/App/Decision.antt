-- ===== src/App/Decision.antt =====
-- `_handle_major_decision` of sifter/src/aa_sifter/app.py, with the requests that it makes.
use aa.Prelude.{
  ◌+◌, List, [], ◌∷◌, ◌++◌, String, Bool, true, false, Option, none, some, map, if◌then◌else◌,
}
use aa.Prelude.Float.{Float}
use aa.Prelude.Text.{◌⧺◌, is_blank, take_text}
use aa.Models.Provider.{expert, system_message, user_message}
use aa.Context.Packet.{EscalationPacket, to_prompt}
use aa.Context.Redaction.{redact}
use aa.Decisions.Level.{DecisionLevel, routine, major, critical}
use aa.Decisions.Signals.{signal_names}
use aa.Decisions.Classifier.{DecisionClassification}
use aa.Decisions.Approval.Types.{
  ApprovalAction, approve, reject, modify, choose_option, more_local_analysis,
  allow_expert_analysis, continue_current, stop, ApprovalOption, ApprovalRequest, HumanDecision,
}
use aa.App.State.{ComputeSifter}
use aa.App.Exec.{Exec, pure, ◌>>=◌, ◌>>◌}
use aa.App.Calls.{call_tier, require_approval, tally, file_approval}

abbrev option : String → String → String → ApprovalOption
option key label description = record { key = key; label = label; description = description }

-- `_MAJOR_OPTIONS`
abbrev pub major_options : List ApprovalOption
major_options =
    option "A" "Keep the current approach"
      "Proceed with the existing design and work around the limitation."
    ∷ option "B" "Allow DeepSeek to analyze these options"
        "Cloud reasoning compares options and recommends, but does NOT implement."
    ∷ option "C" "Give different instructions"
        "Provide explicit constraints or a different direction."
    ∷ option "D" "Stop this work" ""
    ∷ []

-- A text that is there and not empty.
abbrev pub given : Option String → Option String
given none = none
given (some s) = if is_blank s then none else some s

why_of : DecisionLevel → String
why_of critical =
    "This is a critical, potentially destructive or irreversible action. "
    ⧺ "Compute Sifter will default to the safest non-destructive behavior until you decide."
why_of _ =
    "This decision materially affects architecture, security, data, scope, "
    ⧺ "external dependencies or cost. DeepSeek must not make it implicitly."

-- `_build_approval_request`
unfoldable pub build_approval_request :
    String → Option String → DecisionClassification → ApprovalRequest
unfolding why_of take_text
build_approval_request prompt context c = record {
  category = c.level;
  issue = prompt;
  why_it_matters = why_of c.level;
  current_approach = elim (given context) [ none ↦ "Not specified." | some s ↦ take_text 1500 s ];
  options = major_options;
  recommended_action =
      "Ask DeepSeek to compare the options and recommend; no implementation "
      ⧺ "will occur until you separately approve it.";
  cloud_reasoning_invoked = false;
  stage = "analysis";
  context = ("signals", signal_names c.signals) ∷ ("reasons", c.reasons) ∷ [];
}

analysis_packet : String → List String → EscalationPacket
analysis_packet prompt constraints = record {
  original_task = prompt;
  current_plan = "Human has permitted expert analysis of major options.";
  completed_work = "";
  relevant_files = [];
  failed_attempts = [];
  test_results = "";
  open_questions = "Which option best fits the stated constraints?" ∷ [];
  reason_for_escalation = "Major decision requires expert comparison of approved options.";
  human_constraints = constraints;
  approved_decisions = [];
  decision_level = routine;
}

additional_context : Option String → String
unfolding take_text
additional_context context = elim (given context) [
  | none ↦ ""
  | some s ↦ "\n\nAdditional context:\n" ⧺ take_text 4000 s
]

-- The request for the implementation of what the expert recommends.
implementation_request : String → ApprovalRequest
unfolding take_text
implementation_request analysis = record {
  category = major;
  issue = "DeepSeek has analyzed the options and produced a recommendation.";
  why_it_matters =
      "Implementing this recommendation changes project direction. Permission "
      ⧺ "to analyze is not permission to implement.";
  current_approach = "No implementation changes have been made yet.";
  options =
      option "A" "Approve implementing the recommendation" ""
      ∷ option "B" "Give different instructions" ""
      ∷ option "C" "Stop this work" ""
      ∷ [];
  recommended_action = take_text 2000 analysis;
  cloud_reasoning_invoked = true;
  stage = "implementation";
  context = ("recommendation", take_text 4000 analysis ∷ []) ∷ [];
}

-- What the human allowed: the constraints, the approved decisions, whether the cloud may analyse, and
-- whether the work stays local.
pub record Mandate : Type 0 where
  pub constraints : List String
  pub approved_decisions : List String
  pub allow_cloud_analysis : Bool
  pub force_local : Bool

-- Behind the second question: the recommendation is carried out, or nothing is.
mandate_of : List String → String → HumanDecision → Option Mandate
unfolding take_text
mandate_of constraints analysis second =
    let granted = some (record {
      constraints = constraints ++ second.constraints;
      approved_decisions =
          ("DeepSeek-recommended direction approved: " ⧺ take_text 500 analysis) ∷ [];
      allow_cloud_analysis = true;
      force_local = false;
    }) in
    elim second.action [ approve ↦ granted | choose_option ↦ granted | _ ↦ none ]

abbrev local_mandate : List String → List String → Option Mandate
local_mandate constraints approved = some (record {
  constraints = constraints;
  approved_decisions = approved;
  allow_cloud_analysis = false;
  force_local = true;
})

unfoldable pub selected : HumanDecision → Option Mandate
selected decision = some (record {
  constraints = decision.constraints ++ map (λ o. "Selected option " ⧺ o) decision.selected_options;
  approved_decisions = [];
  allow_cloud_analysis = true;
  force_local = false;
})

module _ {F : Type 0} ⦃fl : Float F⦄ where
  -- `_expert_analysis`
  unfoldable pub expert_analysis :
      ComputeSifter F → String → Option String → List String → Exec F String
  unfolding analysis_packet additional_context redact to_prompt
  expert_analysis app prompt context constraints =
      let packet = analysis_packet prompt constraints in
      let redaction = redact app.config.redact_secrets (to_prompt packet) in
      call_tier app expert (
        system_message (
          "You are a senior engineer. Compare the options, state tradeoffs, and "
          ⧺ ("recommend ONE direction. Do NOT implement code. Respect the human "
              ⧺ "constraints as authoritative and non-negotiable. End with a clear recommendation."))
        ∷ user_message (redaction.text ⧺ additional_context context)
        ∷ [])

  -- The expert compares the alternatives, and the human is asked again.
  unfoldable pub analyse_and_ask :
      ComputeSifter F → String → Option String → List String → Exec F (Option Mandate)
  unfolding expert_analysis implementation_request mandate_of
  analyse_and_ask app prompt context constraints = do
    analysis ← expert_analysis app prompt context constraints
    tally λ u. record u { human_approved_cloud_analyses = u.human_approved_cloud_analyses + 1 }
    second ← require_approval app (implementation_request analysis)
    file_approval "implementation" second
    tally λ u. record u { human_approval_requests = u.human_approval_requests + 1 }
    pure (mandate_of constraints analysis second)

  unfoldable pub act_on :
      ComputeSifter F
      → String
      → Option String
      → HumanDecision
      → ApprovalAction
      → Exec F (Option Mandate)
  unfolding selected analyse_and_ask
  act_on app prompt context decision stop = pure none
  act_on app prompt context decision reject = pure none
  act_on app prompt context decision modify = pure none
  act_on app prompt context decision more_local_analysis =
      pure (local_mandate decision.constraints [])
  act_on app prompt context decision continue_current =
      pure (local_mandate decision.constraints ("keep current architecture" ∷ []))
  act_on app prompt context decision approve = pure (selected decision)
  act_on app prompt context decision choose_option = pure (selected decision)
  act_on app prompt context decision allow_expert_analysis =
      analyse_and_ask app prompt context decision.constraints

  -- `_handle_major_decision`
  unfoldable pub handle_major_decision :
      ComputeSifter F → String → Option String → DecisionClassification → Exec F (Option Mandate)
  unfolding act_on build_approval_request require_approval
  handle_major_decision app prompt context classification = do
    decision ← require_approval app (build_approval_request prompt context classification)
    file_approval "analysis" decision
    tally λ u. record u {
      human_approval_requests = u.human_approval_requests + 1;
      major_decisions = u.major_decisions + 1;
    }
    act_on app prompt context decision decision.action
