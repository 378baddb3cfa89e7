-- ===== src/App/Consent.antt =====
-- The human's authority over the expert's calls of a run.
use aa.Prelude.{
  ◌+◌, ◌++◌, List, [], ◌∷◌, String, Bool, true, false, not, ◌||◌, ◌≡◌, refl, any, arith, Option,
  some, Bool-cases, inl, inr, if◌then◌else◌,
}
use aa.Prelude.Float.{Float}
use aa.Models.Provider.{expert, is_local}
use aa.Decisions.Approval.Types.{
  ApprovalAction, approve, reject, modify, choose_option, more_local_analysis,
  allow_expert_analysis, continue_current, stop, HumanDecision, authorized, allows_expert_analysis,
}
use aa.Routing.Policy.{RouteKind, local_route}
use aa.App.State.{Call, Event, called, asked, verified, ComputeSifter, Run}
use aa.App.Exec.{Exec, continue, ◌>>=◌}
use aa.App.Exec.Keeps.{Holds, Keeps, Keeps-pure, Keeps-bind, keeps_rules}
use aa.App.Calls.{call_of, require_approval}
use aa.App.Guard.{
  IsPassive, OnExpert, tally-Keeps, run_local-Keeps, carry_out-Keeps, diagnose-Keeps,
  analyse_and_ask-Keeps,
}
use aa.App.Log.{EachCall, Logged, Logged-IsPassive, call_tier-Logged}
use aa.App.Decision.{
  Mandate, handle_major_decision, act_on, analyse_and_ask, selected, build_approval_request,
}
use aa.App.Route.{Work, execute_route}
use aa.Routing.Policy.Cloud.{decide-local_only}
use aa.App.Failure.{escalation_question, Failed, diagnose, ask_and_diagnose, escalate_after_failure}
use aa.App.Run.{
  Task, start, run, body, ask_first, carry_out, work_along, settle, route_of, classification_of,
  cloud_permitted, effective_policy, escalation_allowed,
}

-- The answers that let the expert work.
abbrev pub permitting : ApprovalAction → Bool
permitting approve = true
permitting choose_option = true
permitting allow_expert_analysis = true
permitting _ = false

abbrev pub permits : {F : Type 0} → Event F → Bool
permits (asked request decision) = permitting decision.action
permits (called c) = false
permits (verified a) = false

-- A call of the expert tier has a human's permission among the events before it.
abbrev pub Permitted : {F : Type 0} → Call F → List (Event F) → Type 0
Permitted c l = (is_local c.tier || any permits l) ≡ true

abbrev stays_local : HumanDecision → List String → Mandate
stays_local d approved = record {
  constraints = d.constraints;
  approved_decisions = approved;
  allow_cloud_analysis = false;
  force_local = true;
}

-- Nobody need have been asked, or somebody has permitted.
abbrev Anyhow : {F : Type 0} → List (Event F) → Type 0
Anyhow l = Unit

abbrev Granted : {F : Type 0} → List (Event F) → Type 0
Granted l = any permits l ≡ true

module _ {F : Type 0} ⦃fl : Float F⦄ (app : ComputeSifter F) where
  Granted-grow : (e : Event F) (l : List (Event F)) → Granted l → Granted (e ∷ l)
  Granted-grow e l h = ground (arith, h)

  -- Before a permission only local calls are as they should be; behind one, all are.
  before-IsPassive : IsPassive app (Logged Permitted Anyhow)
  unfolding call_of
  before-IsPassive =
      Logged-IsPassive app Permitted Anyhow (λ e l u. tt) (λ provider messages l h q. refl)

  after-IsPassive : IsPassive app (Logged Permitted Granted)
  unfolding call_of
  after-IsPassive =
      Logged-IsPassive app Permitted Granted Granted-grow (λ provider messages l h q. refl)

  after-OnExpert : OnExpert app (Logged Permitted Granted)
  unfolding call_of
  after-OnExpert =
      call_tier-Logged app Permitted Granted Granted-grow expert (λ provider messages l h q. q)

  idle-Keeps : (failed : Failed) → Keeps (Logged Permitted Anyhow) (diagnose app failed false)
  unfolding diagnose
  idle-Keeps failed = Keeps-pure _

  allows-permits :
      (d : HumanDecision) → allows_expert_analysis d ≡ true → permitting d.action ≡ true
  unfolding allows_expert_analysis
  allows-permits d h = ground arith

  -- A diagnosis that the last answer allows.
  allowed-diagnose :
      (failed : Failed) (d : HumanDecision) (s : Run F)
      → EachCall Permitted s.log
      → (permitting d.action ≡ true → Granted s.log)
      → Holds (Logged Permitted Anyhow) (diagnose app failed (allows_expert_analysis d) s).1
  allowed-diagnose failed d s h k = elim (Bool-cases (allows_expert_analysis d)) [
    | inl allows ↦ rw allows (
      ((diagnose-Keeps app after-IsPassive after-OnExpert failed true).at s
          (h, k (allows-permits d allows))).0,
      tt,
    )
    | inr denied ↦ rw denied ((idle-Keeps failed).at s (h, tt))
  ]

  asking-Keeps : (failed : Failed) → Keeps (Logged Permitted Anyhow) (ask_and_diagnose app failed)
  unfolding ask_and_diagnose require_approval ◌>>=◌ continue
  asking-Keeps failed = record {
    at = λ s h.
        let d = app.world.decide s.log escalation_question in
        elim (Bool-cases (not (authorized d))) [
          | inl refused ↦ rw refused (h.0, tt)
          | inr answered ↦ rw answered (
              allowed-diagnose failed d
                (record s {
                  usage = record s.usage {
                    human_approval_requests = s.usage.human_approval_requests + 1;
                  };
                  approvals = s.approvals ++ record { stage = "escalation"; decision = d } ∷ [];
                  log = asked escalation_question d ∷ s.log;
                })
                h.0 (λ k. rw k refl))
        ];
  }

  escalate-Keeps-local :
      (failed : Failed) (grant : Bool)
      → Keeps (Logged Permitted Anyhow) (escalate_after_failure app failed false grant)
  unfolding escalate_after_failure
  escalate-Keeps-local failed grant = search (keeps_rules, tally-Keeps, asking-Keeps) depth 12

  settle-local-Keeps :
      (task : Task F) (mandate : Mandate) (route : RouteKind) (work : Work)
      → escalation_allowed app task mandate ≡ false
      → Keeps (Logged Permitted Anyhow) (settle app task mandate route work)
  unfolding settle
  settle-local-Keeps task mandate route work h =
      rw h (search (keeps_rules, escalate-Keeps-local) depth 10)

  forced-policy :
      (cloud_allowed : Bool) (policy : Option String)
      → effective_policy true cloud_allowed policy ≡ some "local_only"
  unfolding effective_policy
  forced-policy true policy = refl
  forced-policy false policy = refl

  local-escalation :
      (task : Task F) (mandate : Mandate)
      → mandate.force_local ≡ true
      → escalation_allowed app task mandate ≡ false
  unfolding escalation_allowed cloud_permitted
  local-escalation task mandate h = rw (h, forced-policy app.config.cloud_allowed task.policy) refl

  local-route :
      (task : Task F) (mandate : Mandate) (s : Run F)
      → mandate.force_local ≡ true
      → (route_of app task mandate s.budget).kind ≡ local_route
  unfolding route_of
  local-route task mandate s h =
      rw (h, forced-policy app.config.cloud_allowed task.policy)
        (decide-local_only app.config _ 0 _)

  work-local-Keeps :
      (task : Task F) (mandate : Mandate)
      → mandate.force_local ≡ true
      → Keeps (Logged Permitted Anyhow) (work_along app task mandate local_route)
  unfolding work_along execute_route
  work-local-Keeps task mandate h =
      Keeps-bind _ _ (run_local-Keeps app before-IsPassive _)
        (λ work. settle-local-Keeps task mandate local_route work (local-escalation task mandate h))

  carry_out-local :
      (task : Task F) (mandate : Mandate)
      → mandate.force_local ≡ true
      → Keeps (Logged Permitted Anyhow) (carry_out app task (some mandate))
  unfolding carry_out
  carry_out-local task mandate h = record {
    at = λ s k. rw (local-route task mandate s h) ((work-local-Keeps task mandate h).at s k);
  }

  carry_out-Granted :
      (task : Task F) (mandate : Option Mandate) (s : Run F)
      → Holds (Logged Permitted Granted) s
      → Holds (Logged Permitted Anyhow) (carry_out app task mandate s).1
  carry_out-Granted task mandate s h =
      (((carry_out-Keeps app after-IsPassive after-OnExpert task mandate).at s h).0, tt)

  -- What follows the human's first answer.
  acted-Consented :
      (task : Task F) (d : HumanDecision) (action : ApprovalAction) (s : Run F)
      → EachCall Permitted s.log
      → (permitting action ≡ true → Granted s.log)
      → Holds
          (Logged Permitted Anyhow)
          ((act_on app task.prompt task.context d action >>= carry_out app task) s).1
  unfolding act_on carry_out ◌>>=◌ continue
  acted-Consented task d approve s h k = carry_out-Granted task (selected d) s (h, k refl)
  acted-Consented task d choose_option s h k = carry_out-Granted task (selected d) s (h, k refl)
  acted-Consented task d allow_expert_analysis s h k = (
    ((Keeps-bind (analyse_and_ask app task.prompt task.context d.constraints) (carry_out app task)
          (analyse_and_ask-Keeps app after-IsPassive after-OnExpert task.prompt task.context
            d.constraints)
          (λ mandate. carry_out-Keeps app after-IsPassive after-OnExpert task mandate)).at
        s (h, k refl)).0,
    tt,
  )
  acted-Consented task d more_local_analysis s h k =
      (carry_out-local task (stays_local d []) refl).at s (h, tt)
  acted-Consented task d continue_current s h k =
      (carry_out-local task (stays_local d ("keep current architecture" ∷ [])) refl).at s (h, tt)
  acted-Consented task d stop s h k = (h, tt)
  acted-Consented task d reject s h k = (h, tt)
  acted-Consented task d modify s h k = (h, tt)

  -- A run that begins with a question.
  asked_first :
      (task : Task F) → Holds (Logged Permitted Anyhow) (ask_first app task (start app task)).1
  unfolding ask_first handle_major_decision require_approval start ◌>>=◌ continue
  asked_first task =
      let request = build_approval_request task.prompt task.context (classification_of app task) in
      let d = app.world.decide [] request in
      let s = start app task in
      acted-Consented task d d.action
        (record s {
          usage = record s.usage {
            human_approval_requests = s.usage.human_approval_requests + 1;
            major_decisions = s.usage.major_decisions + 1;
          };
          approvals = s.approvals ++ record { stage = "analysis"; decision = d } ∷ [];
          log = asked request d ∷ [];
        })
        tt (λ k. rw k refl)

  taken :
      {A : Type 0} (b : Bool) (m n : Exec F A) (s : Run F)
      → b ≡ true
      → EachCall Permitted (m s).1.log
      → EachCall Permitted ((if b then m else n) s).1.log
  taken true m n s h k = k
  taken false m n s h k = absurd (cc h)

  -- Where a task is of a level that requires approval, each call of the expert in its run, whatever the
  -- models and the human answer, comes after an answer of the human that approves, chooses an option
  -- or allows the expert's analysis.
  pub run-Permitted :
      (task : Task F)
      → (classification_of app task).requires_human_approval ≡ true
      → EachCall Permitted (run app task).1.log
  unfolding run body
  run-Permitted task h =
      taken (classification_of app task).requires_human_approval (ask_first app task) _
        (start app task) h (asked_first task).0
