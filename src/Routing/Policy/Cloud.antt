-- ===== src/Routing/Policy/Cloud.antt =====
-- Which routes may use the cloud.
use aa.Prelude.{
  ℕ, ltb, String, Bool, true, false, not, ◌&&◌, ◌||◌, Option, none, some, ◌≡◌, inl, inr, refl,
  arith, Bool-cases,
}
use aa.Prelude.Float.{Float}
use aa.Models.Config.{SifterConfig}
use aa.Models.Provider.{local, expert}
use aa.Routing.Preflight.{PreflightAssessment}
use aa.Routing.Policy.{
  RouteKind, local_route, hybrid_route, cloud_route, RoutingPolicy, local_only, cloud_only,
  local_first, expert_first, adaptive, budget_constrained, RouteDecision, uses_cloud, coerce,
  or_configured, choose, with_fallback, falls_back, adaptive_decision, decide, is_local_viable,
}

-- What a route of a kind does with the tiers.
abbrev pub CoherentAs : RouteKind → RouteDecision → Type 0
CoherentAs local_route d = uses_cloud d ≡ false
CoherentAs cloud_route d = d.executor_tier ≡ expert
CoherentAs hybrid_route d = (d.planner_tier ≡ some expert) × (d.executor_tier ≡ local)

abbrev pub IsCoherent : RouteDecision → Type 0
IsCoherent d = CoherentAs d.kind d

with_fallback-IsCoherent :
    (p : RoutingPolicy) (budget : Bool) (d : RouteDecision)
    → IsCoherent d
    → IsCoherent (with_fallback p budget d)
unfolding with_fallback
with_fallback-IsCoherent p true d h = h
with_fallback-IsCoherent p false d h = elim (Bool-cases (uses_cloud d && falls_back p)) [
  | inl back ↦ rw back (ground arith)
  | inr keep ↦ rw keep h
]

module _ {F : Type 0} ⦃fl : Float F⦄ where
  adaptive_decision-IsCoherent :
      (a : PreflightAssessment F) (viable : Bool) (failed : ℕ)
      → IsCoherent (adaptive_decision a viable failed)
  unfolding adaptive_decision
  adaptive_decision-IsCoherent a viable failed = ground arith

  choose-IsCoherent :
      (p : RoutingPolicy) (a : PreflightAssessment F) (viable : Bool) (failed : ℕ) (budget : Bool)
      → IsCoherent (choose p a viable failed budget)
  unfolding choose
  choose-IsCoherent adaptive a viable failed budget = adaptive_decision-IsCoherent a viable failed
  choose-IsCoherent _ a viable failed budget = ground arith

  -- A route's kind and its tiers agree: a local route uses no cloud tier, a cloud route executes on the
  -- expert, and a hybrid route plans on the expert and executes locally.
  pub decide-IsCoherent :
      (config : SifterConfig F) (a : PreflightAssessment F) (policy : Option String) (failed : ℕ)
      (budget : Bool)
      → IsCoherent (decide config a policy failed budget)
  unfolding decide
  decide-IsCoherent config a policy failed budget =
      let p = coerce (or_configured policy config.routing_policy) in
      let viable = is_local_viable config a in
      with_fallback-IsCoherent p budget (choose p a viable failed budget)
        (choose-IsCoherent p a viable failed budget)

-- When a policy uses the cloud: on what is left of the budget, whether the task is within local reach,
-- the failures so far, and whether the assessment asks for the cloud.
abbrev pub wants_cloud : RoutingPolicy → (viable requires_cloud : Bool) → (failed : ℕ) → Bool
wants_cloud local_only viable requires_cloud failed = false
wants_cloud cloud_only viable requires_cloud failed = true
wants_cloud expert_first viable requires_cloud failed = true
wants_cloud budget_constrained viable requires_cloud failed = not viable
wants_cloud local_first viable requires_cloud failed = not viable || ltb 0 failed
wants_cloud adaptive viable requires_cloud failed = not viable || (requires_cloud || ltb 0 failed)

-- The two policies that go to the cloud on any budget.
abbrev pub ignores_budget : RoutingPolicy → Bool
ignores_budget cloud_only = true
ignores_budget expert_first = true
ignores_budget _ = false

module _ {F : Type 0} ⦃fl : Float F⦄ where
  uses_cloud-adaptive :
      (a : PreflightAssessment F) (viable : Bool) (failed : ℕ)
      → uses_cloud (adaptive_decision a viable failed)
        ≡ wants_cloud adaptive viable a.requires_cloud failed
  unfolding adaptive_decision
  uses_cloud-adaptive a viable failed = ground arith

  uses_cloud-chosen :
      (p : RoutingPolicy) (a : PreflightAssessment F) (viable : Bool) (failed : ℕ) (budget : Bool)
      → uses_cloud (with_fallback p budget (choose p a viable failed budget))
        ≡ (wants_cloud p viable a.requires_cloud failed && (budget || ignores_budget p))
  unfolding choose with_fallback
  uses_cloud-chosen adaptive a viable failed budget =
      ground (arith, uses_cloud-adaptive a viable failed)
  uses_cloud-chosen _ a viable failed budget = ground arith

  -- Exactly when the route uses the cloud: the policy wants it for this task, and either the budget has
  -- calls left or the policy is one of the two that ignore the budget.
  pub uses_cloud-decide :
      (config : SifterConfig F) (a : PreflightAssessment F) (policy : Option String) (failed : ℕ)
      (budget : Bool)
      → uses_cloud (decide config a policy failed budget) ≡ (
          wants_cloud
            (coerce (or_configured policy config.routing_policy))
            (is_local_viable config a)
            a.requires_cloud
            failed
          && (budget || ignores_budget (coerce (or_configured policy config.routing_policy))))
  unfolding decide
  uses_cloud-decide config a policy failed budget =
      uses_cloud-chosen (coerce (or_configured policy config.routing_policy)) a
        (is_local_viable config a) failed budget

  -- Under the policy "local_only" every route is local.
  pub decide-local_only :
      (config : SifterConfig F) (a : PreflightAssessment F) (failed : ℕ) (budget : Bool)
      → (decide config a (some "local_only") failed budget).kind ≡ local_route
  unfolding decide choose with_fallback coerce
  decide-local_only config a failed true = refl
  decide-local_only config a failed false = refl

  -- The configured policy counts where a task names none.
  pub decide-configured :
      (config : SifterConfig F) (a : PreflightAssessment F) (failed : ℕ) (budget : Bool)
      → config.routing_policy ≡ "local_only"
      → (decide config a none failed budget).kind ≡ local_route
  unfolding decide choose with_fallback coerce
  decide-configured config a failed true e = rw e refl
  decide-configured config a failed false e = rw e refl
