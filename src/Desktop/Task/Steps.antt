-- ===== src/Desktop/Task/Steps.antt =====
-- The steps of a task of sifter/src/aa_sifter/desktop/service.py, and the runs that they make up.
use aa.Prelude.{
  ℕ, suc, List, [], ◌∷◌, ◌++◌, String, Bool, true, false, not, ◌&&◌, ◌||◌, Option, none, some,
  if◌then◌else◌,
}
use aa.Decisions.Approval.Types.{ApprovalRequest, HumanDecision}
use aa.App.Run.{SifterResult}
use aa.Desktop.Record.{TaskRecord, EventData, status_is, emit, terminal}
use aa.Desktop.Task.{
  Phase, scheduled, working, asking, stopping, ended, Callback, given, cancellation, Task, begin,
  ask, resume, complete, cancelled, failed, delivered,
}

-- What may happen to a task: a part of its coroutine runs, or a client calls `cancel` or `resolve_approval`, or
-- what they have asked for reaches the loop. Each has the time at which it happens.
pub data Step (F : Type 0) : Type 0 where
  begins : Step F
  reports : (event : String) → (content : EventData) → Step F
  asks : (request : ApprovalRequest) → Step F
  resumes : Step F
  returns : (result : SifterResult F) → Step F
  raises : (message : String) → Step F
  answers : (decision : HumanDecision) → Step F
  delivers : Step F
  cancels : Step F
  interrupts : Step F

unfoldable pub is_working : Phase → Bool
is_working working = true
is_working _ = false

unfoldable pub is_scheduled : Phase → Bool
is_scheduled scheduled = true
is_scheduled _ = false

unfoldable pub is_ended : Phase → Bool
is_ended ended = true
is_ended _ = false

-- The question whose future a task has.
unfoldable pub question_of : Phase → Option ℕ
question_of (asking n future) = some n
question_of (stopping question) = question
question_of _ = none

-- The future has its decision.
unfoldable pub is_decided : Phase → Bool
is_decided (asking n (some decision)) = true
is_decided _ = false

module _ {F : Type 0} where
  -- `resolve_approval`, where there is a future: the callback for it.
  unfoldable pub answered : HumanDecision → Task F → Option (Task F)
  unfolding question_of
  answered decision t = elim (question_of t.phase) [
    | none ↦ none
    | some n ↦ some (record t { callbacks = t.callbacks ++ ((given n decision) ∷ []) })
  ]

  unfoldable pub deliver : List Callback → Task F → Option (Task F)
  unfolding delivered
  deliver [] t = none
  deliver (c ∷ cs) t = some (record t { phase = delivered c t.phase; callbacks = cs })

  -- `cancel`, where the record is not terminal: the future is cancelled once, and not after the end.
  unfoldable pub cancel_task : F → Task F → Option (Task F)
  unfolding terminal emit is_ended
  cancel_task now t =
      let running = not (is_ended t.phase) in
      if terminal t.record_
      then none
      else some (record t {
        record_ = emit now "status" (status_is "cancelling") t.record_;
        callbacks =
            if running && not t.cancelling then t.callbacks ++ (cancellation ∷ []) else t.callbacks;
        cancelling = t.cancelling || running;
      })

  -- The CancelledError at the `await` of `_execute`, or at that of a question, on whose way is the `finally` of
  -- `_await_approval`.
  unfoldable pub left : F → Option ℕ → TaskRecord F → TaskRecord F
  unfolding cancelled resume
  left now none r = cancelled now r
  left now (some question) r = cancelled now (resume now r)

  unfoldable pub interrupt : F → Task F → Option (Task F)
  unfolding left
  interrupt now t = elim t.phase [
    | stopping question ↦ some (record t { record_ = left now question t.record_; phase = ended })
    | _ ↦ none
  ]

  -- What a step makes of a task, or none where the step cannot happen.
  unfoldable pub step : F → Step F → Task F → Option (Task F)
  unfolding begin ask resume complete failed emit answered deliver cancel_task interrupt is_working
      is_scheduled is_decided
  step now begins t =
      if is_scheduled t.phase
      then some (record t { record_ = begin now t.record_; phase = working })
      else none
  step now (reports event content) t =
      if is_working t.phase
      then some (record t { record_ = emit now event content t.record_ })
      else none
  step now (asks request) t =
      if is_working t.phase
      then some (record t {
        record_ = ask now request t.record_;
        phase = asking t.questions none;
        questions = suc t.questions;
      })
      else none
  step now resumes t =
      if is_decided t.phase
      then some (record t { record_ = resume now t.record_; phase = working })
      else none
  step now (returns result) t =
      if is_working t.phase
      then some (record t { record_ = complete now result t.record_; phase = ended })
      else none
  step now (raises message) t =
      if is_working t.phase
      then some (record t { record_ = failed now message t.record_; phase = ended })
      else none
  step now (answers decision) t = answered decision t
  step now delivers t = deliver t.callbacks t
  step now cancels t = cancel_task now t
  step now interrupts t = interrupt now t

  -- What follows a step that happens.
  abbrev pub and_then : Option (Task F) → (Task F → Option (Task F)) → Option (Task F)
  and_then none f = none
  and_then (some u) f = f u

  -- A run of steps, each at its time.
  unfoldable pub steps : List (F × Step F) → Task F → Option (Task F)
  unfolding step
  steps [] t = some t
  steps ((now, s) ∷ rest) t = and_then (step now s t) (steps rest)
