-- ===== src/Routing/Escalation.antt =====
-- sifter/src/aa_sifter/routing/escalation.py
use aa.Prelude.{
  ℕ, List, [], ◌∷◌, String, Bool, true, false, ◌&&◌, ◌||◌, Option, none, some, any, ltb,
  if◌then◌else◌,
}
use aa.Prelude.Text.{lower, contains}
use aa.Models.Config.{SifterConfig}

pub data EscalationAction : Type 0 where
  no_action cloud_debug cloud_review cloud_plan cloud_synthesis user_decision abort :
      EscalationAction

pub record EscalationRequest : Type 0 where
  pub reason : String
  pub failed_attempts : ℕ
  pub needed_context : List String
  pub recommended_action : EscalationAction
  pub potential_major_decision : Bool

pub record EscalationOutcome : Type 0 where
  pub escalate : Bool
  pub action : EscalationAction
  pub requires_human_approval : Bool
  pub reason : String

-- `evaluate(request, force_user_if_major)`
unfoldable pub evaluate : EscalationRequest → Bool → EscalationOutcome
evaluate request force_user_if_major =
    if request.potential_major_decision && force_user_if_major
    then record {
      escalate = true;
      action = user_decision;
      requires_human_approval = true;
      reason = request.reason;
    }
    else record {
      escalate = true;
      action = request.recommended_action;
      requires_human_approval = false;
      reason = request.reason;
    }

-- `verification_passed is False`
abbrev is_failed : Option Bool → Bool
is_failed (some false) = true
is_failed (some true) = false
is_failed none = false

-- `should_escalate`
unfoldable pub should_escalate : {F : Type 0} → SifterConfig F → ℕ → Option Bool → Bool → Bool
should_escalate config failed_attempts verification_passed new_plan_without_progress =
    ltb config.local_max_retries failed_attempts
    || (is_failed verification_passed || new_plan_without_progress)

-- `is_architecture_like`
unfoldable pub is_architecture_like : String → Bool
unfolding lower contains
is_architecture_like text =
    any (λ marker. contains (lower text) marker)
      ("architecture" ∷ "replace the" ∷ "persistence layer" ∷ "database" ∷ "rearchitect"
        ∷ "redesign" ∷ "migration" ∷ "security model" ∷ "framework" ∷ [])
