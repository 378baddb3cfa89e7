-- ===== src/App/Guard.antt =====
-- What every step of a run keeps, the run keeps: `App.Decision`, `App.Route`, `App.Failure` and `App.Run`
-- walked through once, for any invariant of the budget and the events.
use aa.Prelude.{ℕ, zero, suc, List, String, Bool, Option, none, some}
use aa.Prelude.Float.{Float}
use aa.Models.Provider.{local, expert, Message}
use aa.Decisions.Approval.Types.{
  ApprovalRequest, HumanDecision, ApprovalAction, approve, reject, modify, choose_option,
  more_local_analysis, allow_expert_analysis, continue_current, stop,
}
use aa.Routing.Policy.{RouteKind, local_route, hybrid_route, cloud_route}
use aa.App.State.{ComputeSifter, VerificationResult}
use aa.App.Exec.Keeps.{Invariant, Holds, Keeps, Keeps-change, Keeps-pure, Keeps-bind, keeps_rules}
use aa.App.Calls.{call_tier, require_approval, verify, tally, file_approval}
use aa.App.Decision.{Mandate, handle_major_decision, act_on, analyse_and_ask}
use aa.App.Failure.{Failed, diagnose, ask_and_diagnose, escalate_after_failure}
use aa.App.Run.{Task, start, run, body, ask_first, carry_out, work_along, settle, route_of}
use aa.Decisions.Classifier.{DecisionClassification}
use aa.App.Route.{
  repair_messages, Work, run_local, run_cloud, run_hybrid, attempts, attempt, execute_route, review,
  reviewed,
}
use aa.Metrics.{UsageMetrics}

-- An invariant that questions, verifications and local calls keep.
pub record IsPassive {F : Type 0} ⦃fl : Float F⦄ (app : ComputeSifter F) (I : Invariant F)
    : Type 0 where
  pub on_ask : (request : ApprovalRequest) → Keeps I (require_approval app request)
  pub on_verify : (answer : String) → Keeps I (verify app answer)
  pub on_local : (messages : List Message) → Keeps I (call_tier app local messages)

-- The expert's calls keep it too.
abbrev pub OnExpert : {F : Type 0} ⦃fl : Float F⦄ → ComputeSifter F → Invariant F → Type 0
OnExpert app I = (messages : List Message) → Keeps I (call_tier app expert messages)

module _ {F : Type 0} {I : Invariant F} where
  pub tally-Keeps : (f : UsageMetrics F → UsageMetrics F) → Keeps I (tally f)
  tally-Keeps f = Keeps-change (λ s. record s { usage = f s.usage }) (λ s h. h)

  pub file_approval-Keeps : (stage : String) (d : HumanDecision) → Keeps I (file_approval stage d)
  file_approval-Keeps stage d = record { at = λ s h. h }

module _ {F : Type 0} ⦃fl : Float F⦄ {I : Invariant F} (app : ComputeSifter F)
    (passive : IsPassive app I) where
  attempt-Keeps : (messages : List Message) (work : Work) → Keeps I (attempt app messages work)
  unfolding attempt
  attempt-Keeps messages work =
      search (keeps_rules, tally-Keeps, passive.on_verify, passive.on_local) depth 10

  attempts-Keeps :
      (messages : List Message) (left made : ℕ) (work : Work)
      → Keeps I (attempts app messages left made work)
  unfolding attempts
  attempts-Keeps messages zero made work = Keeps-pure work
  attempts-Keeps messages (suc left) made work =
      Keeps-bind (attempt app (repair_messages messages made work.answer) work) _
        (attempt-Keeps (repair_messages messages made work.answer) work)
        (λ next. search (keeps_rules, attempts-Keeps messages left (suc made) next) depth 10)

  pub run_local-Keeps : (messages : List Message) → Keeps I (run_local app messages)
  unfolding run_local
  run_local-Keeps messages = attempts-Keeps messages _ _ _

  module _ (on_expert : OnExpert app I) where
    run_cloud-Keeps : (messages : List Message) → Keeps I (run_cloud app messages)
    unfolding run_cloud
    run_cloud-Keeps messages = search (keeps_rules, passive.on_verify, on_expert) depth 10

    review-Keeps : (plan answer : String) → Keeps I (review app plan answer)
    unfolding review
    review-Keeps plan answer = search (keeps_rules, on_expert) depth 10

    reviewed-Keeps :
        (plan answer : String) (v : VerificationResult) → Keeps I (reviewed app plan answer v)
    unfolding reviewed
    reviewed-Keeps plan answer v = search (keeps_rules, review-Keeps) depth 10

    run_hybrid-Keeps :
        (prompt : String) (context : Option String) (constraints approved : List String)
        → Keeps I (run_hybrid app prompt context constraints approved)
    unfolding run_hybrid
    run_hybrid-Keeps prompt context constraints approved =
        search (keeps_rules, passive.on_verify, passive.on_local, on_expert, reviewed-Keeps) depth
          12

    pub execute_route-Keeps :
        (prompt : String) (context : Option String) (route : RouteKind)
        (constraints approved : List String)
        → Keeps I (execute_route app prompt context route constraints approved)
    unfolding execute_route
    execute_route-Keeps prompt context local_route constraints approved = run_local-Keeps _
    execute_route-Keeps prompt context hybrid_route constraints approved =
        run_hybrid-Keeps prompt context constraints approved
    execute_route-Keeps prompt context cloud_route constraints approved = run_cloud-Keeps _

    pub diagnose-Keeps : (failed : Failed) (allowed : Bool) → Keeps I (diagnose app failed allowed)
    unfolding diagnose
    diagnose-Keeps failed allowed = search (keeps_rules, on_expert) depth 10

    ask_and_diagnose-Keeps : (failed : Failed) → Keeps I (ask_and_diagnose app failed)
    unfolding ask_and_diagnose
    ask_and_diagnose-Keeps failed =
        search (keeps_rules, passive.on_ask, tally-Keeps, file_approval-Keeps, diagnose-Keeps) depth
          12

    escalate-Keeps :
        (failed : Failed) (allowed grant : Bool)
        → Keeps I (escalate_after_failure app failed allowed grant)
    unfolding escalate_after_failure
    escalate-Keeps failed allowed grant =
        search (keeps_rules, tally-Keeps, ask_and_diagnose-Keeps, diagnose-Keeps) depth 12

    pub settle-Keeps :
        (task : Task F) (mandate : Mandate) (route : RouteKind) (work : Work)
        → Keeps I (settle app task mandate route work)
    unfolding settle
    settle-Keeps task mandate route work = search (keeps_rules, escalate-Keeps) depth 10

    pub work_along-Keeps :
        (task : Task F) (mandate : Mandate) (route : RouteKind)
        → Keeps I (work_along app task mandate route)
    unfolding work_along
    work_along-Keeps task mandate route =
        search (keeps_rules, execute_route-Keeps, settle-Keeps) depth 10

    pub carry_out-Keeps :
        (task : Task F) (mandate : Option Mandate) → Keeps I (carry_out app task mandate)
    unfolding carry_out
    carry_out-Keeps task none = record { at = λ s h. h }
    carry_out-Keeps task (some mandate) = record {
      at = λ s h. (work_along-Keeps task mandate (route_of app task mandate s.budget).kind).at s h;
    }

    pub analyse_and_ask-Keeps :
        (prompt : String) (context : Option String) (constraints : List String)
        → Keeps I (analyse_and_ask app prompt context constraints)
    unfolding analyse_and_ask
    analyse_and_ask-Keeps prompt context constraints =
        search (keeps_rules, passive.on_ask, tally-Keeps, file_approval-Keeps) depth 14

    act_on-Keeps :
        (prompt : String) (context : Option String) (d : HumanDecision) (action : ApprovalAction)
        → Keeps I (act_on app prompt context d action)
    unfolding act_on
    act_on-Keeps prompt context d allow_expert_analysis = analyse_and_ask-Keeps prompt context _
    act_on-Keeps prompt context d approve = Keeps-pure _
    act_on-Keeps prompt context d reject = Keeps-pure _
    act_on-Keeps prompt context d modify = Keeps-pure _
    act_on-Keeps prompt context d choose_option = Keeps-pure _
    act_on-Keeps prompt context d more_local_analysis = Keeps-pure _
    act_on-Keeps prompt context d continue_current = Keeps-pure _
    act_on-Keeps prompt context d stop = Keeps-pure _

    handle_major_decision-Keeps :
        (prompt : String) (context : Option String) (c : DecisionClassification)
        → Keeps I (handle_major_decision app prompt context c)
    unfolding handle_major_decision
    handle_major_decision-Keeps prompt context c =
        search (keeps_rules, passive.on_ask, tally-Keeps, file_approval-Keeps, act_on-Keeps) depth
          14

    ask_first-Keeps : (task : Task F) → Keeps I (ask_first app task)
    unfolding ask_first
    ask_first-Keeps task =
        search (keeps_rules, handle_major_decision-Keeps, carry_out-Keeps) depth 10

    body-Keeps : (task : Task F) → Keeps I (body app task)
    unfolding body
    body-Keeps task = search (keeps_rules, ask_first-Keeps, carry_out-Keeps) depth 10

    -- A run keeps what its steps keep.
    pub run-Keeps : (task : Task F) → Holds I (start app task) → Holds I (run app task).1
    unfolding run
    run-Keeps task h = (body-Keeps task).at (start app task) h
