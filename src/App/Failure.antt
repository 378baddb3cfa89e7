-- ===== src/App/Failure.antt =====
-- `_escalate_after_failure` of sifter/src/aa_sifter/app.py.
use aa.Prelude.{
  ℕ, zero, suc, ◌+◌, List, [], ◌∷◌, String, Bool, true, false, not, ◌&&◌, if◌then◌else◌,
}
use aa.Prelude.Float.{Float}
use aa.Prelude.Text.{◌⧺◌, show_ℕ}
use aa.Models.Provider.{expert, Message, system_message, user_message}
use aa.Context.Packet.{EscalationPacket, to_prompt}
use aa.Context.Redaction.{redact}
use aa.Decisions.Level.{major}
use aa.Decisions.Classifier.{DecisionClassification, is_major}
use aa.Decisions.Approval.Types.{ApprovalRequest, authorized, allows_expert_analysis}
use aa.Routing.Escalation.{
  EscalationRequest, cloud_plan, cloud_debug, evaluate, is_architecture_like,
}
use aa.App.State.{ComputeSifter, VerificationResult}
use aa.App.Exec.{Exec, pure, catch_budget, ◌>>=◌, ◌>>◌}
use aa.App.Calls.{call_tier, require_approval, tally, file_approval}
use aa.App.Decision.{major_options}

-- The question that an escalation with an architectural change asks.
abbrev pub escalation_question : ApprovalRequest
escalation_question = record {
  category = major;
  issue =
      "The local model failed repeatedly and the failure appears to imply "
      ⧺ "an architectural change.";
  why_it_matters = "This exceeds routine debugging and may change project direction.";
  current_approach = "";
  options = major_options;
  recommended_action =
      "Ask DeepSeek to diagnose, but do not implement architectural changes "
      ⧺ "without a separate approval.";
  cloud_reasoning_invoked = false;
  stage = "escalation";
  context = [];
}

-- `EscalationRequest(…)` for a failed verification
unfoldable pub escalation_request :
    String → VerificationResult → ℕ → DecisionClassification → EscalationRequest
unfolding is_architecture_like is_major
escalation_request prompt verification failed_attempts classification =
    let architecture_like = is_architecture_like prompt in
    record {
      reason = "local verification failed: " ⧺ verification.summary;
      failed_attempts = failed_attempts;
      needed_context = [];
      recommended_action = if architecture_like then cloud_plan else cloud_debug;
      potential_major_decision = architecture_like && is_major classification;
    }

-- `[f"attempt {i + 1} failed" for i in range(n)]`, from a start.
failures : (left start : ℕ) → List String
unfolding show_ℕ
failures zero start = []
failures (suc left) start =
    ("attempt " ⧺ (show_ℕ (start + 1) ⧺ " failed")) ∷ failures left (start + 1)

-- What the escalation has to say, beside its packet: the text of the answer and whether it resolved
-- the failure.
pub record Escalated : Type 0 where
  pub answer : String
  pub resolved : Bool

pub record Failed : Type 0 where
  pub prompt : String
  pub answer : String
  pub verification : VerificationResult
  pub failed_attempts : ℕ
  pub classification : DecisionClassification
  pub human_constraints : List String
  pub approved_decisions : List String

escalation_packet : Failed → EscalationPacket
unfolding failures
escalation_packet failed = record {
  original_task = failed.prompt;
  current_plan = "Local execution attempted and failed verification.";
  completed_work = failed.answer;
  relevant_files = [];
  failed_attempts = failures failed.failed_attempts 0;
  test_results = failed.verification.summary;
  open_questions = [];
  reason_for_escalation = "local verification failed: " ⧺ failed.verification.summary;
  human_constraints = failed.human_constraints;
  approved_decisions = failed.approved_decisions;
  decision_level = failed.classification.level;
}

escalation_messages : Bool → Failed → List Message
unfolding redact to_prompt escalation_packet
escalation_messages redact_secrets failed =
    let redaction = redact redact_secrets (to_prompt (escalation_packet failed)) in
    system_message (
      "You are a senior engineer diagnosing a failed attempt. Identify the concrete "
      ⧺ "root cause and provide corrected complete work. Respect authoritative constraints.")
    ∷ user_message redaction.text
    ∷ []

module _ {F : Type 0} ⦃fl : Float F⦄ where
  -- Behind the question: the expert's diagnosis, where it is allowed.
  unfoldable pub diagnose : ComputeSifter F → Failed → (allowed : Bool) → Exec F Escalated
  unfolding escalation_messages
  diagnose app failed allowed =
      if not allowed
      then pure (record {
        answer = failed.answer ⧺ "\n\n[Local-only policy: cloud escalation not permitted.]";
        resolved = false;
      })
      else catch_budget
          (do
            diagnosis ← call_tier app expert (escalation_messages app.config.redact_secrets failed)
            pure (record {
              answer = failed.answer ⧺ ("\n\n---\nExpert escalation:\n" ⧺ diagnosis);
              resolved = true;
            }))
          (λ e. pure (record {
            answer =
                failed.answer ⧺ ("\n\n[Escalation skipped: " ⧺ (app.world.show_budget e ⧺ "]"));
            resolved = false;
          }))

  -- The question about an architectural change, and what follows each answer.
  unfoldable pub ask_and_diagnose : ComputeSifter F → Failed → Exec F Escalated
  unfolding diagnose require_approval allows_expert_analysis
  ask_and_diagnose app failed = do
    decision ← require_approval app escalation_question
    file_approval "escalation" decision
    tally λ u. record u { human_approval_requests = u.human_approval_requests + 1 }
    if not (authorized decision)
        then pure (record {
          answer =
              failed.answer ⧺ "\n\n[Blocked: architectural escalation requires human approval.]";
          resolved = false;
        })
        else diagnose app failed (allows_expert_analysis decision)

  -- `_escalate_after_failure`
  unfoldable pub escalate_after_failure :
      ComputeSifter F → Failed → (allowed autonomy_grant : Bool) → Exec F Escalated
  unfolding escalation_request evaluate ask_and_diagnose
  escalate_after_failure app failed allowed autonomy_grant = do
    tally λ u. record u { escalations = u.escalations + 1 }
    let outcome =
          evaluate
            (escalation_request failed.prompt failed.verification failed.failed_attempts
              failed.classification)
            true in
        if outcome.requires_human_approval && not autonomy_grant
        then ask_and_diagnose app failed
        else diagnose app failed allowed
