-- ===== src/App/Stopping.antt =====
-- A run that the human ends at the first question.
use aa.Prelude.{◌+◌, [], ◌∷◌, ◌++◌, Bool, true, false, ◌≡◌, refl, ◌∙◌, if◌then◌else◌}
use aa.Prelude.Float.{Float}
use aa.Decisions.Approval.Types.{
  ApprovalAction, approve, reject, modify, choose_option, more_local_analysis,
  allow_expert_analysis, continue_current, stop, ApprovalRequest, HumanDecision,
}
use aa.App.State.{asked, ComputeSifter, Run}
use aa.App.Exec.{Exec, done, continue, ◌>>=◌}
use aa.App.Calls.{require_approval}
use aa.App.Decision.{handle_major_decision, act_on, build_approval_request}
use aa.App.Run.{
  Task, Ending, stopped, start, run, body, ask_first, carry_out, classification_of, handled, finish,
}

-- The answers that end the work: stop, reject and modify.
abbrev pub declining : ApprovalAction → Bool
declining stop = true
declining reject = true
declining modify = true
declining _ = false

module _ {F : Type 0} ⦃fl : Float F⦄ (app : ComputeSifter F) (task : Task F) where
  abbrev pub first_question : ApprovalRequest
  first_question = build_approval_request task.prompt task.context (classification_of app task)

  abbrev pub first_answer : HumanDecision
  first_answer = app.world.decide [] first_question

  acted-stopped :
      (d : HumanDecision) (action : ApprovalAction) (s : Run F)
      → declining action ≡ true
      → (act_on app task.prompt task.context d action >>= carry_out app task) s ≡ (done stopped, s)
  unfolding act_on carry_out ◌>>=◌ continue
  acted-stopped d stop s h = refl
  acted-stopped d reject s h = refl
  acted-stopped d modify s h = refl
  acted-stopped d approve s h = absurd (cc h)
  acted-stopped d choose_option s h = absurd (cc h)
  acted-stopped d more_local_analysis s h = absurd (cc h)
  acted-stopped d allow_expert_analysis s h = absurd (cc h)
  acted-stopped d continue_current s h = absurd (cc h)

  -- The state behind the first question.
  abbrev asked_state : Run F
  asked_state =
      let s = start app task in
      record s {
        usage = record s.usage {
          human_approval_requests = s.usage.human_approval_requests + 1;
          major_decisions = s.usage.major_decisions + 1;
        };
        approvals = s.approvals ++ record { stage = "analysis"; decision = first_answer } ∷ [];
        log = asked first_question first_answer ∷ [];
      }

  ask_first-stopped :
      declining first_answer.action ≡ true
      → ask_first app task (start app task) ≡ (done stopped, asked_state)
  unfolding ask_first handle_major_decision require_approval start ◌>>=◌ continue
  ask_first-stopped h = acted-stopped first_answer first_answer.action asked_state h

  taken : (b : Bool) (m n : Exec F Ending) (s : Run F) → b ≡ true → (if b then m else n) s ≡ m s
  taken true m n s h = refl
  taken false m n s h = absurd (cc h)

  body-stopped :
      (classification_of app task).requires_human_approval ≡ true
      → declining first_answer.action ≡ true
      → body app task (start app task) ≡ (done stopped, asked_state)
  unfolding body
  body-stopped h k =
      taken (classification_of app task).requires_human_approval (ask_first app task) _
        (start app task) h
      ∙ ask_first-stopped k

  -- Where a task requires approval and the human answers the first question with stop, reject or modify,
  -- the run is "stopped", and this question is all that happened: no model was called and no verifier.
  pub run-declined :
      (classification_of app task).requires_human_approval ≡ true
      → declining first_answer.action ≡ true
      → ((run app task).0.status ≡ "stopped")
        × ((run app task).1.log ≡ asked first_question first_answer ∷ [])
  unfolding run handled finish
  run-declined h k = rw (body-stopped h k) (refl, refl)
