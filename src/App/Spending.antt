-- ===== src/App/Spending.antt =====
-- The budget of the expert's calls over a run.
use aa.Prelude.{
  ℕ, ◌+◌, ◌≤◌, List, ◌∷◌, String, not, ◌&&◌, ◌≡◌, refl, arith, Option, none, some, Bool-cases, inl,
  inr, ◌⊎◌,
}
use aa.Prelude.Float.{Float}
use aa.Models.Config.{estimate_cost}
use aa.Models.Provider.{Tier, local, expert, Message, GenerationResult, provider_for}
use aa.Context.Compression.{total_tokens}
use aa.Routing.Budget.{BudgetTracker, BudgetExceeded, check, record_call, new_tracker}
use aa.Routing.Budget.Limits.{check_lem}
use aa.App.State.{called, ComputeSifter, Run}
use aa.App.Exec.{continue, ◌>>=◌}
use aa.App.Exec.Keeps.{Invariant, Holds, Keeps}
use aa.App.Calls.{
  model_of, is_cloud_bound, outbound_messages, check_budget, checked, send, generated,
  record_budget, call_of, call_provider, call_tier, require_approval, verify,
}
use aa.App.Guard.{IsPassive, run-Keeps}
use aa.App.Run.{Task, start, run}

-- The calls are within the given limit, which is the tracker's.
abbrev pub Within : {F : Type 0} → ℕ → Invariant F
Within limit b l = (b.budget.max_calls ≡ limit) × (b.budget.calls ≤ limit)

module _ {F : Type 0} ⦃fl : Float F⦄ (app : ComputeSifter F) (limit : ℕ) where
  recorded-Within :
      (r : String ⊎ GenerationResult F) (s : Run F)
      → s.budget.budget.max_calls ≡ limit
      → s.budget.budget.calls + 1 ≤ limit
      → Holds (Within limit) (generated app expert r s).1
  unfolding generated record_budget record_call
  recorded-Within (inl e) s h k = (h, omega (arith, k))
  recorded-Within (inr r) s h k = (h, k)

  passed-Within :
      (raised : Option (BudgetExceeded F)) (provider : String) (messages : List Message) (s : Run F)
      → s.budget.budget.max_calls ≡ limit
      → s.budget.budget.calls ≤ limit
      → (raised ≡ none → s.budget.budget.calls + 1 ≤ limit)
      → Holds
          (Within limit)
          (continue
            (checked raised)
            (λ _. send app (call_of app.config expert provider messages))
            s).1
  unfolding continue checked send call_of
  passed-Within none provider messages s h k l =
      let call = call_of app.config expert provider messages in
      recorded-Within (app.world.generate s.log call) (record s { log = called call ∷ s.log }) h
        (l refl)
  passed-Within (some _) provider messages s h k l = (h, k)

  check-Within :
      (t : BudgetTracker F) (tokens : ℕ) (cost : F)
      → (t.budget.max_calls ≡ limit) × (t.budget.calls ≤ limit)
      → ((check t tokens cost).1.budget.max_calls ≡ limit)
        × ((check t tokens cost).1.budget.calls ≤ limit)
        × ((check t tokens cost).0 ≡ none → (check t tokens cost).1.budget.calls + 1 ≤ limit)
  check-Within t tokens cost h = elim (check_lem t tokens cost) [
    | inl (passed, fits) ↦ rw passed (h.0, h.1, λ _. rw h.0 at fits.0)
    | inr (e, raised, breaks) ↦ rw raised (h.0, h.1, λ k. absurd (cc k))
  ]

  local-Within :
      (r : String ⊎ GenerationResult F) (s : Run F)
      → Holds (Within limit) s
      → Holds (Within limit) (generated app local r s).1
  unfolding generated record_budget
  local-Within (inl e) s h = h
  local-Within (inr r) s h = h

  -- A call of either tier, behind the guards that come before the budget's.
  sent-Within :
      (tier : Tier) (provider : String) (messages : List Message) (s : Run F)
      → Holds (Within limit) s
      → Holds
          (Within limit)
          ((check_budget app tier (outbound_messages app.config tier messages) >>= λ _.
              send app (call_of app.config tier provider messages))
            s).1
  unfolding check_budget send call_of continue ◌>>=◌
  sent-Within local provider messages s h =
      let call = call_of app.config local provider messages in
      local-Within (app.world.generate s.log call) (record s { log = called call ∷ s.log }) h
  sent-Within expert provider messages s h =
      let tokens = total_tokens (outbound_messages app.config expert messages) in
      let cost = estimate_cost (model_of app.config expert) tokens 0 in
      let r = check s.budget tokens cost in
      let c = check-Within s.budget tokens cost h in
      passed-Within r.0 provider messages (record s { budget = r.1 }) c.0 c.1 c.2

  provided-Within :
      (tier : Tier) (messages : List Message) (provider : Option String) (s : Run F)
      → Holds (Within limit) s
      → Holds (Within limit) (call_provider app tier messages provider s).1
  unfolding call_provider
  provided-Within tier messages none s h = h
  provided-Within tier messages (some provider) s h =
      elim (Bool-cases
        (is_cloud_bound tier (model_of app.config tier) && not app.config.cloud_allowed)) [
          | inl refused ↦ rw refused h
          | inr allowed ↦ rw allowed (sent-Within tier provider messages s h)
        ]

  call_tier-Within :
      (tier : Tier) (messages : List Message) → Keeps (Within limit) (call_tier app tier messages)
  unfolding call_tier
  call_tier-Within tier messages = record {
    at = λ s h.
        let model = model_of app.config tier in
        provided-Within tier messages (provider_for app.providers model.name model.provider) s h;
  }

  Within-IsPassive : IsPassive app (Within limit)
  unfolding require_approval verify
  Within-IsPassive = record {
    on_ask = λ request. record { at = λ s h. h };
    on_verify = λ answer. record { at = λ s h. h };
    on_local = call_tier-Within local;
  }

-- No run, whatever the models and the human answer, counts more calls of the expert than the
-- configuration's limit on them, however the run ends; and the limit stays the configuration's.
pub run-Within :
    {F : Type 0} ⦃fl : Float F⦄ (app : ComputeSifter F) (task : Task F)
    → ((run app task).1.budget.budget.max_calls ≡ app.config.max_cloud_calls_per_task)
      × ((run app task).1.budget.budget.calls ≤ app.config.max_cloud_calls_per_task)
unfolding start new_tracker
run-Within app task =
    let limit = app.config.max_cloud_calls_per_task in
    run-Keeps app (Within-IsPassive app limit) (call_tier-Within app limit expert) task
      (refl, omega arith)
