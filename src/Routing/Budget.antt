-- ===== src/Routing/Budget.antt =====
-- sifter/src/aa_sifter/routing/budget.py: the limits on the expert calls of one task.
pub mod Limits
use aa.Prelude.{
  ℕ, ◌+◌, ◌-◌, String, Bool, true, false, not, ◌&&◌, Option, none, some, ltb, leb, if◌then◌else◌,
}
use aa.Prelude.Text.{◌≟◌, ◌⧺◌}
use aa.Prelude.Float.{Float, max_float}
use aa.Models.Config.{ModelConfig, SifterConfig, estimate_cost}
use aa.Models.Provider.{GenerationResult}

-- The limits that can be exceeded, `exc.kind`.
pub data Limit : Type 0 where
  max_cloud_calls max_cloud_tokens max_cloud_cost : Limit

unfoldable pub limit_name : Limit → String
limit_name max_cloud_calls = "max_cloud_calls"
limit_name max_cloud_tokens = "max_cloud_tokens"
limit_name max_cloud_cost = "max_cloud_cost"

pub record Budget (F : Type 0) : Type 0 where
  pub max_calls : ℕ
  pub max_tokens : ℕ
  pub max_cost : F
  pub max_parallel : ℕ
  pub calls : ℕ
  pub tokens : ℕ
  pub cost : F

-- `can_call`
unfoldable pub can_call : {F : Type 0} → Budget F → Bool
can_call b = ltb b.calls b.max_calls

-- `BudgetExceeded`, with its `kind`, `limit` and `used`.
pub record BudgetExceeded (F : Type 0) : Type 0 where
  pub kind : Limit
  pub limit : F
  pub used : F

pub record BudgetTracker (F : Type 0) : Type 0 where
  pub budget : Budget F
  pub waiver_ceiling : Option F
  pub exhausted : Bool
  pub exhausted_reason : Option Limit

module _ {F : Type 0} ⦃fl : Float F⦄ where
  -- `would_exceed`
  unfoldable pub would_exceed :
      Budget F → (estimated_tokens : ℕ) → (estimated_cost : F) → Option Limit
  would_exceed b estimated_tokens estimated_cost =
      if ltb b.max_calls (b.calls + 1)
      then some max_cloud_calls
      else if ltb b.max_tokens (b.tokens + estimated_tokens)
      then some max_cloud_tokens
      else if fl.lt b.max_cost (fl.add b.cost estimated_cost)
      then some max_cloud_cost
      else none

  effective_cost : F → Option F → F
  effective_cost configured none = configured
  effective_cost configured (some waiver) = if fl.lt configured waiver then waiver else configured

  configured_cost : F → Option F → F
  configured_cost configured none = configured
  configured_cost configured (some max_cost) = max_cost

  -- `BudgetTracker(config, max_cost=…, cost_waiver=…)`
  unfoldable pub new_tracker : SifterConfig F → (max_cost cost_waiver : Option F) → BudgetTracker F
  unfolding effective_cost configured_cost
  new_tracker config max_cost cost_waiver = record {
    budget = record {
      max_calls = config.max_cloud_calls_per_task;
      max_tokens = config.max_cloud_tokens_per_task;
      max_cost =
          effective_cost (configured_cost config.max_cloud_cost_per_task max_cost) cost_waiver;
      max_parallel = config.max_parallel_cloud_calls;
      calls = 0;
      tokens = 0;
      cost = fl.of_ℕ 0;
    };
    waiver_ceiling = cost_waiver;
    exhausted = false;
    exhausted_reason = none;
  }

  limit_of : Budget F → Limit → F
  limit_of b max_cloud_calls = fl.of_ℕ b.max_calls
  limit_of b max_cloud_tokens = fl.of_ℕ b.max_tokens
  limit_of b max_cloud_cost = b.max_cost

  used_of : Budget F → Limit → F
  used_of b max_cloud_calls = fl.of_ℕ b.calls
  used_of b max_cloud_tokens = fl.of_ℕ b.tokens
  used_of b max_cloud_cost = b.cost

  denied : BudgetTracker F → Option Limit → Option (BudgetExceeded F) × BudgetTracker F
  unfolding limit_of used_of
  denied t none = (none, t)
  denied t (some kind) = (
    some (record { kind = kind; limit = limit_of t.budget kind; used = used_of t.budget kind }),
    record t { exhausted = true; exhausted_reason = some kind },
  )

  -- `check`: what it raises, if anything, and the tracker that it leaves.
  unfoldable pub check :
      BudgetTracker F
      → (estimated_tokens : ℕ) → (estimated_cost : F) → Option (BudgetExceeded F) × BudgetTracker F
  unfolding would_exceed denied
  check t estimated_tokens estimated_cost =
      denied t (would_exceed t.budget estimated_tokens estimated_cost)

  -- `record(result, config)`
  unfoldable pub record_call :
      BudgetTracker F → GenerationResult F → ModelConfig F → BudgetTracker F
  record_call t result config =
      let b = t.budget in
      record t {
        budget = record b {
          calls = b.calls + 1;
          tokens = b.tokens + (result.input_tokens + result.output_tokens);
          cost = fl.add b.cost (estimate_cost config result.input_tokens result.output_tokens);
        };
      }

  -- `cost_waiver(rules_cost_threshold)`
  unfoldable pub cost_waiver : BudgetTracker F → Option F → Bool
  cost_waiver t none = false
  cost_waiver t (some threshold) = fl.le t.budget.cost threshold

  -- `remaining_cost` and `remaining_calls`
  unfoldable pub remaining_cost : BudgetTracker F → F
  remaining_cost t = max_float (fl.of_ℕ 0) (fl.sub t.budget.max_cost t.budget.cost)

  unfoldable pub remaining_calls : BudgetTracker F → ℕ
  remaining_calls t = t.budget.max_calls - t.budget.calls

  waived : F → Option F → Bool
  waived projected none = false
  waived projected (some waiver) = fl.le projected waiver

  -- `needs_increase_approval`
  unfoldable pub needs_increase_approval : BudgetTracker F → F → Option F → Bool
  unfolding waived
  needs_increase_approval t projected waiver =
      let expected = max_float t.budget.cost (fl.decimal 1 2) in
      not (waived projected waiver)
      && (fl.lt (fl.mul expected (fl.of_ℕ 10)) projected && fl.lt t.budget.max_cost projected)
