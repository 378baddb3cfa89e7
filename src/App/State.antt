-- ===== src/App/State.antt =====
-- The state of one run of sifter/src/aa_sifter/app.py, and the world around it: the models, the human
-- and the verifier, whose answers are functions of what happened so far.
use aa.Prelude.{ℕ, List, String, Bool, ◌⊎◌}
use aa.Models.Config.{SifterConfig}
use aa.Models.Provider.{Tier, Message, GenerationResult}
use aa.Decisions.Approval.Types.{ApprovalRequest, HumanDecision}
use aa.Decisions.Rules.{StandingRule}
use aa.Routing.Budget.{BudgetTracker, BudgetExceeded}
use aa.Metrics.{UsageMetrics}

-- One call of `provider.generate`.
pub record Call (F : Type 0) : Type 0 where
  pub tier : Tier
  pub provider : String
  pub model : String
  pub messages : List Message
  pub temperature : F
  pub max_tokens : ℕ

-- What a run does outside of itself.
pub data Event (F : Type 0) : Type 0 where
  called : Call F → Event F
  asked : ApprovalRequest → HumanDecision → Event F
  verified : String → Event F

-- `VerificationResult`, with its `summary`
pub record VerificationResult : Type 0 where
  pub passed : Bool
  pub summary : String

-- The answers of the world, given the events so far, the newest first. A failed generation is the
-- text of a `ProviderError`; `show_budget` is `str` of a `BudgetExceeded`.
pub record World (F : Type 0) : Type 0 where
  pub generate : List (Event F) → Call F → String ⊎ GenerationResult F
  pub decide : List (Event F) → ApprovalRequest → HumanDecision
  pub verify : List (Event F) → String → VerificationResult
  pub elapsed_ms : List (Event F) → F
  pub show_budget : BudgetExceeded F → String

-- `ComputeSifter`: its configuration, the names of its providers, its standing rules.
pub record ComputeSifter (F : Type 0) : Type 0 where
  pub config : SifterConfig F
  pub providers : List String
  pub rules : List StandingRule
  pub world : World F

-- An entry of `approvals`
pub record Approval : Type 0 where
  pub stage : String
  pub decision : HumanDecision

-- The objects that one run hands from method to method.
pub record Run (F : Type 0) : Type 0 where
  pub budget : BudgetTracker F
  pub usage : UsageMetrics F
  pub tracker : UsageMetrics F
  pub approvals : List Approval
  pub log : List (Event F)
