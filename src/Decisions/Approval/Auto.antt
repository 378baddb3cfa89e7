-- ===== src/Decisions/Approval/Auto.antt =====
-- `AutoApprovalProvider` of sifter/src/aa_sifter/decisions/approval.py, which answers with no human.
use aa.Prelude.{List, ◌∷◌, ◌++◌, [], Option, none, some, get_or}
use aa.Decisions.Level.{DecisionLevel, major, critical}
use aa.Decisions.Approval.Types.{approve, stop, ApprovalRequest, HumanDecision, decide_on}

pub record AutoApprovalProvider : Type 0 where
  pub significant_answer : Option HumanDecision
  pub major_answer : Option HumanDecision
  pub critical_answer : Option HumanDecision
  pub requests : List ApprovalRequest

-- `major or default`
abbrev either : Option HumanDecision → Option HumanDecision → Option HumanDecision
either (some d) other = some d
either none other = other

-- `AutoApprovalProvider(default=…, major=…, critical=…, significant=…)`
unfoldable pub auto_provider :
    (default major_answer critical_answer significant_answer : Option HumanDecision)
    → AutoApprovalProvider
auto_provider default major_answer critical_answer significant_answer = record {
  significant_answer = significant_answer;
  major_answer = either major_answer default;
  critical_answer = critical_answer;
  requests = [];
}

answer : AutoApprovalProvider → DecisionLevel → HumanDecision
answer p critical =
    get_or p.critical_answer
      (record (decide_on stop) { note = "critical decision not auto-approved" })
answer p major =
    get_or p.major_answer (record (decide_on stop) { note = "major decision not auto-approved" })
answer p _ =
    get_or p.significant_answer
      (record (decide_on approve) { note = "non-interactive routine approval" })

-- `request`, which also keeps the request.
unfoldable pub auto_request :
    AutoApprovalProvider → ApprovalRequest → AutoApprovalProvider × HumanDecision
unfolding answer
auto_request p request =
    (record p { requests = p.requests ++ request ∷ [] }, answer p request.category)
