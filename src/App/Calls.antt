-- ===== src/App/Calls.antt =====
-- The steps of sifter/src/aa_sifter/app.py that reach the world: `_call_tier` with its helpers, the
-- question to the human, the verifier.
pub mod Sent
use aa.Prelude.{
  ℕ, ◌-◌, max, List, [], ◌∷◌, ◌++◌, String, Bool, true, false, not, ◌||◌, ◌&&◌, Option, none, some,
  get_or, ◌==◌, if◌then◌else◌, ◌⊎◌, inl, inr,
}
use aa.Prelude.Float.{Float}
use aa.Prelude.Text.{◌⧺◌, ends_with}
use aa.Models.Config.{
  ModelConfig, SifterConfig, local_model_config, cloud_model_config, estimate_cost,
}
use aa.Models.Defaults.{default_local_max_output, default_expert_max_output}
use aa.Models.Provider.{Tier, local, expert, is_local, Message, GenerationResult, provider_for}
use aa.Context.Compression.{fit_messages, total_tokens}
use aa.Context.Redaction.{redact_model_messages}
use aa.Decisions.Approval.Types.{ApprovalRequest, HumanDecision}
use aa.Routing.Budget.{BudgetTracker, BudgetExceeded, check, record_call}
use aa.Metrics.{UsageMetrics, record_generation}
use aa.App.State.{
  Call, Event, called, asked, verified, VerificationResult, ComputeSifter, Approval, Run,
}
use aa.App.Exec.{
  Outcome, done, over_budget, provider_failed, Exec, pure, raise_provider, change, ◌>>=◌, ◌>>◌,
}

module _ {F : Type 0} where
  -- A change of `usage`, and a new entry of `approvals`.
  abbrev pub tally : (UsageMetrics F → UsageMetrics F) → Exec F (Unit {0})
  tally f = change λ s. record s { usage = f s.usage }

  abbrev pub file_approval : String → HumanDecision → Exec F (Unit {0})
  file_approval stage decision = change λ s. record s {
    approvals = s.approvals ++ record { stage = stage; decision = decision } ∷ [];
  }

  -- `gate.require_approval(request)`
  unfoldable pub require_approval : ComputeSifter F → ApprovalRequest → Exec F HumanDecision
  require_approval app request s =
      let decision = app.world.decide s.log request in
      (done decision, record s { log = asked request decision ∷ s.log })

  -- `self.verifier.verify(answer=answer)`
  unfoldable pub verify : ComputeSifter F → String → Exec F VerificationResult
  verify app answer s =
      (done (app.world.verify s.log answer), record s { log = verified answer ∷ s.log })

  -- `_is_cloud_bound`
  unfoldable pub is_cloud_bound : Tier → ModelConfig F → Bool
  is_cloud_bound tier model = not (is_local tier) || ends_with model.name ":cloud"

-- `setting or default`
or_default : Option ℕ → ℕ → ℕ
or_default none default = default
or_default (some n) default = if n == 0 then default else n

module _ {F : Type 0} ⦃fl : Float F⦄ where
  unfoldable pub model_of : SifterConfig F → Tier → ModelConfig F
  model_of config local = local_model_config config
  model_of config expert = cloud_model_config config

  unfoldable pub max_output_of : SifterConfig F → Tier → ℕ
  unfolding or_default
  max_output_of config local = or_default config.local_max_output_tokens default_local_max_output
  max_output_of config expert = or_default config.expert_max_output_tokens default_expert_max_output

  temperature_of : SifterConfig F → Tier → F
  temperature_of config local = get_or config.local_temperature (fl.decimal 2 1)
  temperature_of config expert = get_or config.expert_temperature (fl.decimal 2 1)

  -- `_fit_to_context`
  unfoldable pub fit_to_context : List Message → ModelConfig F → ℕ → List Message
  fit_to_context messages model max_output =
      if model.context_limit == 0
      then messages
      else fit_messages fl messages (max 1024 (model.context_limit - max_output)) 6

  -- The messages that go out: fitted, and redacted where they leave the machine.
  unfoldable pub outbound_messages : SifterConfig F → Tier → List Message → List Message
  unfolding model_of max_output_of is_cloud_bound fit_to_context
  outbound_messages config tier messages =
      let model = model_of config tier in
      let prepared = fit_to_context messages model (max_output_of config tier) in
      if is_cloud_bound tier model
      then redact_model_messages config.redact_secrets prepared
      else prepared

  unfoldable pub checked : Option (BudgetExceeded F) → Outcome F (Unit {0})
  checked none = done tt
  checked (some e) = over_budget e

  -- `budget.check(…)`, for the expert tier only
  unfoldable pub check_budget : ComputeSifter F → Tier → List Message → Exec F (Unit {0})
  unfolding checked model_of
  check_budget app local prepared s = (done tt, s)
  check_budget app expert prepared s =
      let tokens = total_tokens prepared in
      let (raised, budget) =
        check s.budget tokens (estimate_cost (model_of app.config expert) tokens 0) in
      (checked raised, record s { budget = budget })

  unfoldable pub record_budget :
      Tier → GenerationResult F → ModelConfig F → BudgetTracker F → BudgetTracker F
  record_budget local result model budget = budget
  record_budget expert result model budget = record_call budget result model

  -- `tracker.record(result)`, of a tracker that was configured with both models
  track : SifterConfig F → GenerationResult F → UsageMetrics F → UsageMetrics F
  unfolding model_of
  track config result tracker =
      record_generation result (some (model_of config result.tier)) tracker

  unfoldable pub generated : ComputeSifter F → Tier → String ⊎ GenerationResult F → Exec F String
  unfolding record_budget track model_of
  generated app tier (inl error) s = (provider_failed error, s)
  generated app tier (inr result) s =
      let model = model_of app.config tier in
      (
        done result.text,
        record s {
          usage = record_generation result (some model) s.usage;
          tracker = track app.config result s.tracker;
          budget = record_budget tier result model s.budget;
        },
      )

  -- `provider.generate(…)` and the records of it
  unfoldable pub send : ComputeSifter F → Call F → Exec F String
  unfolding generated
  send app call s =
      generated app call.tier (app.world.generate s.log call)
        (record s { log = called call ∷ s.log })

  unfoldable pub call_of : SifterConfig F → Tier → String → List Message → Call F
  unfolding model_of temperature_of max_output_of outbound_messages
  call_of config tier provider messages = record {
    tier = tier;
    provider = provider;
    model = (model_of config tier).name;
    messages = outbound_messages config tier messages;
    temperature = temperature_of config tier;
    max_tokens = max_output_of config tier;
  }

  unfoldable pub call_provider :
      ComputeSifter F → Tier → List Message → Option String → Exec F String
  unfolding model_of is_cloud_bound check_budget send call_of
  call_provider app tier messages none =
      raise_provider
        ("No provider registered for model '" ⧺ ((model_of app.config tier).name ⧺ "'"))
  call_provider app tier messages (some provider) =
      if is_cloud_bound tier (model_of app.config tier) && not app.config.cloud_allowed
      then raise_provider "cloud is disabled by the active profile (cloud_allowed = false)"
      else do
        check_budget app tier (outbound_messages app.config tier messages)
        send app (call_of app.config tier provider messages)

  -- `_call_tier`: the text of the answer.
  unfoldable pub call_tier : ComputeSifter F → Tier → List Message → Exec F String
  unfolding call_provider model_of
  call_tier app tier messages =
      let model = model_of app.config tier in
      call_provider app tier messages (provider_for app.providers model.name model.provider)
