-- ===== src/App/Calls/Sent.antt =====
-- What one call of a model leaves behind in the events and in the budget.
use aa.Prelude.{
  List, ◌∷◌, String, false, not, ◌&&◌, Option, none, some, ◌⊎◌, inl, inr, ◌≡◌, refl, Bool-cases,
}
use aa.Prelude.Float.{Float}
use aa.Models.Config.{estimate_cost}
use aa.Models.Provider.{Tier, local, expert, Message, GenerationResult, provider_for}
use aa.Context.Compression.{total_tokens}
use aa.Routing.Budget.{BudgetTracker, BudgetExceeded, check}
use aa.App.State.{called, ComputeSifter, Run}
use aa.App.Exec.{continue, ◌>>=◌}
use aa.App.Calls.{
  model_of, is_cloud_bound, outbound_messages, check_budget, send, generated, call_of,
  call_provider, call_tier, checked,
}

module _ {F : Type 0} ⦃fl : Float F⦄ where
  -- The events are as before, or there is one more: a call of this tier with these messages as they go
  -- out, which may leave the machine only where the configuration allows it.
  pub data Sent (app : ComputeSifter F) (tier : Tier) (messages : List Message) (s s' : Run F)
      : Type 0 where
    unsent : s'.log ≡ s.log → Sent app tier messages s s'
    sent :
        (provider : String)
        → s'.log ≡ called (call_of app.config tier provider messages) ∷ s.log
        → (is_cloud_bound tier (model_of app.config tier) && not app.config.cloud_allowed) ≡ false
        → Sent app tier messages s s'

  generated-log :
      (app : ComputeSifter F) (tier : Tier) (r : String ⊎ GenerationResult F) (s : Run F)
      → (generated app tier r s).1.log ≡ s.log
  unfolding generated
  generated-log app tier (inl e) s = refl
  generated-log app tier (inr r) s = refl

  passed-Sent :
      (app : ComputeSifter F) (messages : List Message) (s : Run F) (provider : String)
      (raised : Option (BudgetExceeded F)) (budget : BudgetTracker F)
      → (is_cloud_bound expert (model_of app.config expert) && not app.config.cloud_allowed) ≡ false
      → Sent app expert messages s
          (continue
            (checked raised)
            (λ _. send app (call_of app.config expert provider messages))
            (record s { budget = budget })).1
  unfolding continue checked send call_of
  passed-Sent app messages s provider none budget h =
      sent provider
        (generated-log app expert
          (app.world.generate s.log (call_of app.config expert provider messages))
          (record s {
            budget = budget;
            log = called (call_of app.config expert provider messages) ∷ s.log;
          }))
        h
  passed-Sent app messages s provider (some e) budget h = unsent refl

  checked-Sent :
      (app : ComputeSifter F) (tier : Tier) (messages : List Message) (s : Run F)
      (provider : String)
      → (is_cloud_bound tier (model_of app.config tier) && not app.config.cloud_allowed) ≡ false
      → Sent app tier messages s
          ((check_budget app tier (outbound_messages app.config tier messages) >>= λ _.
              send app (call_of app.config tier provider messages))
            s).1
  unfolding check_budget send call_of ◌>>=◌
  checked-Sent app local messages s provider h =
      sent provider
        (generated-log app local
          (app.world.generate s.log (call_of app.config local provider messages))
          (record s { log = called (call_of app.config local provider messages) ∷ s.log }))
        h
  checked-Sent app expert messages s provider h =
      let tokens = total_tokens (outbound_messages app.config expert messages) in
      let r = check s.budget tokens (estimate_cost (model_of app.config expert) tokens 0) in
      passed-Sent app messages s provider r.0 r.1 h

  provided-Sent :
      (app : ComputeSifter F) (tier : Tier) (messages : List Message) (provider : Option String)
      (s : Run F)
      → Sent app tier messages s (call_provider app tier messages provider s).1
  unfolding call_provider
  provided-Sent app tier messages none s = unsent refl
  provided-Sent app tier messages (some provider) s =
      elim (Bool-cases
        (is_cloud_bound tier (model_of app.config tier) && not app.config.cloud_allowed)) [
          | inl refused ↦ rw refused (unsent refl)
          | inr allowed ↦ rw allowed (checked-Sent app tier messages s provider allowed)
        ]

  pub call_tier-Sent :
      (app : ComputeSifter F) (tier : Tier) (messages : List Message) (s : Run F)
      → Sent app tier messages s (call_tier app tier messages s).1
  unfolding call_tier
  call_tier-Sent app tier messages s =
      let model = model_of app.config tier in
      provided-Sent app tier messages (provider_for app.providers model.name model.provider) s
