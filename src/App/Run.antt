-- ===== src/App/Run.antt =====
-- `_run_impl`, `_finish` and `generate` of sifter/src/aa_sifter/app.py.
use aa.Prelude.{
  List, [], ◌∷◌, String, Bool, true, false, not, ◌&&◌, ◌||◌, Option, none, some, ltb, if◌then◌else◌,
}
use aa.Prelude.Float.{Float}
use aa.Prelude.Text.{◌⧺◌, ◌≟◌, elem}
use aa.Decisions.Level.{DecisionLevel}
use aa.Decisions.Classifier.{DecisionClassification, is_major}
use aa.Decisions.Gate.{classify_text}
use aa.Decisions.Rules.{has_grant}
use aa.Routing.Budget.{BudgetTracker, new_tracker, remaining_calls}
use aa.Routing.Preflight.{PreflightAssessment, assess}
use aa.Routing.Policy.{RouteDecision, RouteKind, decide, kind_value, or_configured}
use aa.Metrics.{UsageMetrics, no_usage}
use aa.App.State.{ComputeSifter, Approval, Run}
use aa.App.Exec.{Outcome, done, over_budget, provider_failed, Exec, pure, ◌>>=◌}
use aa.App.Decision.{Mandate, handle_major_decision}
use aa.App.Route.{Work, execute_route}
use aa.App.Failure.{Failed, escalate_after_failure}

-- The arguments of `run`; the waiver is what the standing rules' `cost_waiver_threshold` gives.
pub record Task (F : Type 0) : Type 0 where
  pub prompt : String
  pub context : Option String
  pub policy : Option String
  pub max_cloud_cost : Option F
  pub waiver : Option F

-- `SifterResult`, without its identifier and its free-form metadata.
pub record SifterResult (F : Type 0) : Type 0 where
  pub status : String
  pub answer : String
  pub route : String
  pub decision_level : DecisionLevel
  pub requires_human_approval : Bool
  pub blocked_reason : Option String
  pub assessment : PreflightAssessment F
  pub usage : UsageMetrics F
  pub approvals : List Approval

-- `ok`
unfoldable pub ok : {F : Type 0} → SifterResult F → Bool
ok r = elem r.status ("completed" ∷ "done" ∷ [])

-- The end of `_run_impl`: what the branches hand to `_finish`.
pub record Ending : Type 0 where
  pub status : String
  pub answer : String
  pub blocked_reason : Option String
  pub route : Option String

abbrev pub stopped : Ending
stopped = record {
  status = "stopped";
  answer = "No action taken. The decision requires human authorization.";
  blocked_reason = some "awaiting human decision";
  route = none;
}

-- What goes on without a human's mandate.
abbrev no_mandate : Mandate
no_mandate = record {
  constraints = [];
  approved_decisions = [];
  allow_cloud_analysis = false;
  force_local = false;
}

-- `self.rules.has_grant("cloud_auto_escalation") or …`
unfoldable pub autonomy_grant : {F : Type 0} → ComputeSifter F → Bool
autonomy_grant app =
    has_grant app.rules "cloud_auto_escalation" || has_grant app.rules "cloud_debug_failed_tests"

-- `effective_policy`
unfoldable pub effective_policy : Bool → Bool → Option String → Option String
effective_policy force_local cloud_allowed policy =
    if not cloud_allowed
    then some "local_only"
    else if force_local
    then some "local_only"
    else policy

abbrev ended : Bool → String → RouteKind → Ending
ended success answer route = record {
  status = if success then "completed" else "failed";
  answer = answer;
  blocked_reason = none;
  route = some (kind_value route);
}

module _ {F : Type 0} ⦃fl : Float F⦄ where
  -- The state that a run starts from.
  unfoldable pub start : ComputeSifter F → Task F → Run F
  unfolding new_tracker
  start app task = record {
    budget =
        new_tracker app.config task.max_cloud_cost
          (elim task.max_cloud_cost [ none ↦ task.waiver | some _ ↦ none ]);
    usage = no_usage;
    tracker = no_usage;
    approvals = [];
    log = [];
  }

  unfoldable pub classification_of : ComputeSifter F → Task F → DecisionClassification
  classification_of app task = classify_text app.config app.rules task.prompt none none

  unfoldable pub assessment_of : ComputeSifter F → Task F → PreflightAssessment F
  unfolding classification_of
  assessment_of app task =
      assess app.config task.prompt task.context 0 0 (classification_of app task)

  -- `cloud_permitted`
  unfoldable pub cloud_permitted : ComputeSifter F → Option String → Bool
  cloud_permitted app policy = not (or_configured policy app.config.routing_policy ≟ "local_only")

  unfoldable pub route_of : ComputeSifter F → Task F → Mandate → BudgetTracker F → RouteDecision
  unfolding assessment_of effective_policy remaining_calls
  route_of app task mandate budget =
      decide app.config (assessment_of app task)
        (effective_policy mandate.force_local app.config.cloud_allowed task.policy) 0
        (ltb 0 (remaining_calls budget) && not budget.exhausted)

  failed_of : ComputeSifter F → Task F → Mandate → Work → Failed
  unfolding classification_of
  failed_of app task mandate work = record {
    prompt = task.prompt;
    answer = work.answer;
    verification = work.verification;
    failed_attempts = work.failed_attempts;
    classification = classification_of app task;
    human_constraints = mandate.constraints;
    approved_decisions = mandate.approved_decisions;
  }

  -- `allowed=…` of the call of `_escalate_after_failure`
  unfoldable pub escalation_allowed : ComputeSifter F → Task F → Mandate → Bool
  unfolding cloud_permitted effective_policy autonomy_grant classification_of is_major
  escalation_allowed app task mandate =
      cloud_permitted app
        (effective_policy mandate.force_local app.config.cloud_allowed task.policy)
      && (mandate.allow_cloud_analysis
          || (not (is_major (classification_of app task)) || autonomy_grant app))

  -- What follows a verification.
  unfoldable pub settle : ComputeSifter F → Task F → Mandate → RouteKind → Work → Exec F Ending
  unfolding escalation_allowed failed_of autonomy_grant kind_value
  settle app task mandate route work =
      if work.verification.passed then pure (ended true work.answer route) else do
        escalated ←
            escalate_after_failure app (failed_of app task mandate work)
              (escalation_allowed app task mandate) (autonomy_grant app)
        pure (ended escalated.resolved escalated.answer route)

  -- The work along a route, from the choice of the route on.
  unfoldable pub work_along : ComputeSifter F → Task F → Mandate → RouteKind → Exec F Ending
  unfolding settle
  work_along app task mandate route = do
    work ←
        execute_route app task.prompt task.context route mandate.constraints
          mandate.approved_decisions
    settle app task mandate route work

  unfoldable pub carry_out : ComputeSifter F → Task F → Option Mandate → Exec F Ending
  unfolding work_along route_of
  carry_out app task none s = (done stopped, s)
  carry_out app task (some mandate) s =
      work_along app task mandate (route_of app task mandate s.budget).kind s

  unfoldable pub ask_first : ComputeSifter F → Task F → Exec F Ending
  unfolding carry_out classification_of
  ask_first app task = do
    mandate ← handle_major_decision app task.prompt task.context (classification_of app task)
    carry_out app task mandate

  -- The body of `_run_impl`
  unfoldable pub body : ComputeSifter F → Task F → Exec F Ending
  unfolding carry_out classification_of ask_first
  body app task =
      if (classification_of app task).requires_human_approval
      then ask_first app task
      else carry_out app task (some no_mandate)

  -- The handlers of `_run_impl`
  unfoldable pub handled : ComputeSifter F → Outcome F Ending → Ending
  handled app (done ending) = ending
  handled app (over_budget e) = record {
    status = "blocked";
    answer = "Cloud budget limit reached: " ⧺ app.world.show_budget e;
    blocked_reason = some (app.world.show_budget e);
    route = none;
  }
  handled app (provider_failed e) = record {
    status = "error";
    answer = "Model provider error: " ⧺ e;
    blocked_reason = some e;
    route = none;
  }

  -- `_finish`
  unfoldable pub finish : ComputeSifter F → Task F → Run F → Ending → SifterResult F
  unfolding classification_of assessment_of
  finish app task s ending =
      let assessment = assessment_of app task in
      let classification = classification_of app task in
      record {
        status = ending.status;
        answer = ending.answer;
        route = elim ending.route [ some r ↦ r | none ↦ assessment.recommended_route ];
        decision_level = classification.level;
        requires_human_approval = classification.requires_human_approval;
        blocked_reason = ending.blocked_reason;
        assessment = assessment;
        usage = record s.usage { wall_clock_ms = app.world.elapsed_ms s.log };
        approvals = s.approvals;
      }

  -- `run`: the result, and the state at the end.
  unfoldable pub run : ComputeSifter F → Task F → SifterResult F × Run F
  unfolding body handled finish start
  run app task =
      let (outcome, s) = body app task (start app task) in
      (finish app task s (handled app outcome), s)
