-- ===== src/Routing/Policy.antt =====
-- sifter/src/aa_sifter/routing/policy.py: the deterministic choice of a route.
pub mod Cloud
use aa.Prelude.{
  ℕ, List, [], ◌∷◌, String, Bool, true, false, not, ◌&&◌, ◌||◌, Option, none, some, ltb, leb, ◌==◌,
  if◌then◌else◌,
}
use aa.Prelude.Float.{Float}
use aa.Prelude.Text.{◌⧺◌, ◌≟◌, is_blank, show_ℕ}
use aa.Models.Config.{SifterConfig}
use aa.Models.Provider.{Tier, local, expert}
use aa.Decisions.Level.{major, level_at_least}
use aa.Routing.Preflight.{PreflightAssessment}

pub data RouteKind : Type 0 where
  local_route hybrid_route cloud_route : RouteKind

-- `kind.value`
unfoldable pub kind_value : RouteKind → String
kind_value local_route = "local"
kind_value hybrid_route = "hybrid"
kind_value cloud_route = "cloud"

pub data RoutingPolicy : Type 0 where
  local_only cloud_only local_first expert_first adaptive budget_constrained : RoutingPolicy

pub record RouteDecision : Type 0 where
  pub kind : RouteKind
  pub planner_tier : Option Tier
  pub executor_tier : Tier
  pub review_tier : Option Tier
  pub reasons : List String
  pub forced_cloud : Bool

abbrev pub is_expert : Option Tier → Bool
is_expert (some expert) = true
is_expert (some local) = false
is_expert none = false

-- `uses_cloud`
abbrev pub uses_cloud : RouteDecision → Bool
uses_cloud d =
    is_expert (some d.executor_tier) || (is_expert d.planner_tier || is_expert d.review_tier)

-- `RouteDecision(kind=LOCAL, executor_tier=LOCAL, reasons=[reason])`
abbrev local_decision : String → RouteDecision
local_decision reason = record {
  kind = local_route;
  planner_tier = none;
  executor_tier = local;
  review_tier = none;
  reasons = reason ∷ [];
  forced_cloud = false;
}

abbrev cloud_decision : Option Tier → String → RouteDecision
cloud_decision review reason = record {
  kind = cloud_route;
  planner_tier = some expert;
  executor_tier = expert;
  review_tier = review;
  reasons = reason ∷ [];
  forced_cloud = true;
}

abbrev hybrid_decision : String → RouteDecision
hybrid_decision reason = record {
  kind = hybrid_route;
  planner_tier = some expert;
  executor_tier = local;
  review_tier = some expert;
  reasons = reason ∷ [];
  forced_cloud = true;
}

-- `_coerce`: an unknown name is `adaptive`.
unfoldable pub coerce : String → RoutingPolicy
coerce value =
    if value ≟ "local_only"
    then local_only
    else if value ≟ "cloud_only"
    then cloud_only
    else if value ≟ "local_first"
    then local_first
    else if value ≟ "expert_first"
    then expert_first
    else if value ≟ "adaptive"
    then adaptive
    else if value ≟ "budget_constrained"
    then budget_constrained
    else adaptive

-- `policy or configured`
abbrev pub or_configured : Option String → String → String
or_configured none configured = configured
or_configured (some policy) configured = if is_blank policy then configured else policy

-- The policies whose cloud routes fall back to local ones when the budget is gone.
abbrev falls_back : RoutingPolicy → Bool
falls_back adaptive = true
falls_back local_first = true
falls_back budget_constrained = true
falls_back _ = false

with_fallback : RoutingPolicy → Bool → RouteDecision → RouteDecision
with_fallback selected budget_available d =
    if not budget_available && (uses_cloud d && falls_back selected)
    then local_decision "cloud budget unavailable; local fallback"
    else d

module _ {F : Type 0} ⦃fl : Float F⦄ where
  unfoldable pub is_local_viable : SifterConfig F → PreflightAssessment F → Bool
  is_local_viable config a =
      fl.le config.local_confidence_threshold a.local_success_probability
      && leb a.context_requirement config.local_context_limit

  -- `_adaptive`
  unfoldable pub adaptive_decision : PreflightAssessment F → Bool → ℕ → RouteDecision
  unfolding show_ℕ
  adaptive_decision a local_viable failed_attempts =
      if ltb 0 failed_attempts
      then (if a.architecture_impact && level_at_least a.decision_level major
          then cloud_decision (some expert) "local failed and change is decision-significant"
          else cloud_decision none
              (show_ℕ failed_attempts ⧺ " local failure(s); expert escalation"))
      else if local_viable && not a.requires_cloud
      then local_decision "adaptive: task within local capability"
      else if fl.le (fl.decimal 65 2) a.reasoning_difficulty || not local_viable
      then hybrid_decision "adaptive: cloud planning/review with local execution"
      else hybrid_decision "adaptive: decision requires expert planning, local execution"

  -- The choice by policy, before the budget's fallback.
  choose : RoutingPolicy → PreflightAssessment F → Bool → ℕ → Bool → RouteDecision
  unfolding adaptive_decision
  choose local_only a local_viable failed_attempts budget_available =
      local_decision "policy local_only"
  choose cloud_only a local_viable failed_attempts budget_available =
      cloud_decision (some expert) "policy cloud_only"
  choose expert_first a local_viable failed_attempts budget_available =
      cloud_decision none "policy expert_first"
  choose budget_constrained a local_viable failed_attempts budget_available =
      if not budget_available || local_viable
      then local_decision "policy budget_constrained; local preferred"
      else record (hybrid_decision "policy budget_constrained; cloud plan only") {
        review_tier = none;
        forced_cloud = false;
      }
  choose local_first a local_viable failed_attempts budget_available =
      if local_viable && failed_attempts == 0
      then local_decision "policy local_first; local viable"
      else cloud_decision none "policy local_first; escalating to expert"
  choose adaptive a local_viable failed_attempts budget_available =
      adaptive_decision a local_viable failed_attempts

  -- `decide`
  unfoldable pub decide :
      SifterConfig F
      → PreflightAssessment F
      → (policy : Option String) → (failed_attempts : ℕ) → (cloud_budget_available : Bool)
      → RouteDecision
  unfolding coerce is_local_viable choose with_fallback
  decide config a policy failed_attempts cloud_budget_available =
      let selected = coerce (or_configured policy config.routing_policy) in
      with_fallback selected cloud_budget_available
        (choose selected a (is_local_viable config a) failed_attempts cloud_budget_available)
