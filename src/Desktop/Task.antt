-- ===== src/Desktop/Task.antt =====
-- The life of a task in sifter/src/aa_sifter/desktop/service.py: `_execute`, `_await_approval`, `cancel`,
-- `resolve_approval` and `_set_future`. The event loop runs the coroutine of a task from one `await` to the
-- next, and between two of these parts it runs the callbacks that others have asked for, in their order.
use aa.Prelude.{
  ◌==◌, ℕ, List, [], ◌∷◌, ◌++◌, String, Bool, true, false, not, ◌&&◌, Option, none, some,
  if◌then◌else◌,
}
use aa.Prelude.Text.{◌≟◌, elem}
use aa.Decisions.Approval.Types.{ApprovalRequest, ApprovalAction, HumanDecision}
use aa.Decisions.Level.{DecisionLevel}
use aa.App.Run.{SifterResult}
use aa.Desktop.Record.{
  TaskRecord, EventData, status_is, message_is, result_is, request_is, progress_is, emit, terminal,
}
pub mod Steps
pub mod Life
pub mod Lifecycle
pub mod Answering
pub mod Cancelling

-- Where the coroutine of a task stands: not begun, in `sifter.run`, in `_await_approval` with the number of
-- the question and the state of its future, with a CancelledError at its `await`, which is that of a question
-- or not, or at its end.
pub data Phase : Type 0 where
  scheduled : Phase
  working : Phase
  asking : (question : ℕ) → (future : Option HumanDecision) → Phase
  stopping : (question : Option ℕ) → Phase
  ended : Phase

-- What other threads have asked of the loop: a call of `_set_future` with its future's question, or the
-- cancellation of the task.
pub data Callback : Type 0 where
  given : (question : ℕ) → (decision : HumanDecision) → Callback
  cancellation : Callback

-- A task: its record, its coroutine, how many questions it has asked, the callbacks that are on their way to
-- the loop, oldest first, and whether its future was cancelled.
pub record Task (F : Type 0) : Type 0 where
  pub record_ : TaskRecord F
  pub phase : Phase
  pub questions : ℕ
  pub callbacks : List Callback
  pub cancelling : Bool

module _ {F : Type 0} where
  abbrev pub with_status : String → TaskRecord F → TaskRecord F
  with_status status r = record r { status = status }

  -- The beginning of `_execute`
  unfoldable pub begin : F → TaskRecord F → TaskRecord F
  unfolding emit
  begin now r =
      emit now "status" (status_is "running")
        (record r { status = "running"; started_at = some now })

  -- The beginning of `_await_approval`, up to its `await`
  unfoldable pub ask : F → ApprovalRequest → TaskRecord F → TaskRecord F
  unfolding emit
  ask now request r =
      emit now "approval_required" (request_is request)
        (record r { approval_request = some request; status = "waiting_approval" })

  -- The `finally` of `_await_approval`
  unfoldable pub resume : F → TaskRecord F → TaskRecord F
  unfolding emit terminal
  resume now r =
      let closed = record r { approval_request = none } in
      if not (terminal closed)
      then emit now "status" (status_is "running") (record closed { status = "running" })
      else closed

  -- The `finally` of `_execute`
  unfoldable pub finish : F → TaskRecord F → TaskRecord F
  unfolding emit
  finish now r =
      let finished = record r { finished_at = some now } in
      emit now "done" (status_is finished.status) finished

  -- The end of `_execute` with a result, and its two handlers
  unfoldable pub complete : F → SifterResult F → TaskRecord F → TaskRecord F
  unfolding emit finish
  complete now result r = finish now (
      emit now "result" (result_is result.status result.route) (record r {
        result = some result;
        route = some (result.route);
        decision_level = some (result.decision_level);
        usage = some (result.usage);
        status = result.status;
      }))

  unfoldable pub cancelled : F → TaskRecord F → TaskRecord F
  unfolding emit finish
  cancelled now r =
      finish now (emit now "status" (status_is "cancelled") (record r { status = "cancelled" }))

  unfoldable pub failed : F → String → TaskRecord F → TaskRecord F
  unfolding emit finish
  failed now message r =
      finish now (
        emit now "error" (message_is message)
          (record r { status = "failed"; error = some message }))

-- `_set_future`: a decision for a future that has one is dropped.
unfoldable pub set_future : Option HumanDecision → HumanDecision → Option HumanDecision
set_future none decision = some decision
set_future (some first) decision = some first

-- A callback that reaches the loop. A decision sets the future of its own question, which may be gone by then. A
-- cancellation reaches the `await` of the coroutine, and cancels the future there; a coroutine that it finds
-- before its beginning does not run at all.
unfoldable pub delivered : Callback → Phase → Phase
unfolding set_future
delivered (given n decision) (asking question future) =
    if n == question then asking question (set_future future decision) else asking question future
delivered (given n decision) scheduled = scheduled
delivered (given n decision) working = working
delivered (given n decision) (stopping question) = stopping question
delivered (given n decision) ended = ended
delivered cancellation scheduled = ended
delivered cancellation working = stopping none
delivered cancellation (asking question future) = stopping (some question)
delivered cancellation (stopping question) = stopping question
delivered cancellation ended = ended
