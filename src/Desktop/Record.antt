-- ===== src/Desktop/Record.antt =====
-- `TaskRecord` of sifter/src/aa_sifter/desktop/service.py: a task as its clients see it. The clock's time
-- is an argument of what reads it. The futures are the phase of the task's coroutine, in Desktop/Task.
use aa.Prelude.{ℕ, List, [], ◌∷◌, ◌++◌, String, Bool, Option, ◌==◌, if◌then◌else◌}
use aa.Prelude.Text.{elem}
use aa.Decisions.Approval.Types.{ApprovalRequest}
use aa.Decisions.Level.{DecisionLevel}
use aa.Metrics.{UsageMetrics}
use aa.App.Run.{SifterResult}

-- The `data` of an event.
pub data EventData : Type 0 where
  status_is : (status : String) → EventData
  message_is : (message : String) → EventData
  result_is : (status : String) → (route : String) → EventData
  request_is : (request : ApprovalRequest) → EventData
  progress_is : (fields : List (String × String)) → EventData

-- The `payload` of `emit`.
pub record Event (F : Type 0) : Type 0 where
  pub event : String
  pub task_id : String
  pub ts : F
  pub content : EventData

-- A subscriber has the number of its subscription and its queue, the newest event last.
pub record TaskRecord (F : Type 0) : Type 0 where
  pub id : String
  pub prompt : String
  pub context : Option String
  pub policy : Option String
  pub execution_mode : String
  pub status : String
  pub created_at : F
  pub started_at : Option F
  pub finished_at : Option F
  pub route : Option String
  pub decision_level : Option DecisionLevel
  pub result : Option (SifterResult F)
  pub error : Option String
  pub usage : Option (UsageMetrics F)
  pub events : List (Event F)
  pub approval_request : Option ApprovalRequest
  pub subscribers : List (ℕ × List (Event F))

-- `_TERMINAL_STATUSES`
abbrev pub terminal_statuses : List String
terminal_statuses = "completed" ∷ "failed" ∷ "cancelled" ∷ "stopped" ∷ "error" ∷ []

module _ {F : Type 0} where
  -- `terminal`
  unfoldable pub terminal : TaskRecord F → Bool
  terminal record_ = elem record_.status terminal_statuses

  -- `subscriber.put(payload)` for each subscriber
  unfoldable pub put_all : Event F → List (ℕ × List (Event F)) → List (ℕ × List (Event F))
  put_all e [] = []
  put_all e ((n, queue) ∷ rest) = (n, queue ++ (e ∷ [])) ∷ put_all e rest

  -- `emit`
  unfoldable pub emit : F → String → EventData → TaskRecord F → TaskRecord F
  unfolding put_all
  emit now event content r =
      let payload : Event F = record {
        event = event;
        task_id = r.id;
        ts = now;
        content = content;
      } in
      record r { events = r.events ++ (payload ∷ []); subscribers = put_all payload r.subscribers }

  -- `subscribe`: a new queue, which is empty.
  unfoldable pub subscribe : ℕ → TaskRecord F → TaskRecord F
  subscribe n r = record r { subscribers = r.subscribers ++ ((n, []) ∷ []) }

  unfoldable pub without : ℕ → List (ℕ × List (Event F)) → List (ℕ × List (Event F))
  without n [] = []
  without n ((m, queue) ∷ rest) =
      let others = without n rest in if m == n then rest else (m, queue) ∷ others

  -- `unsubscribe`
  unfoldable pub unsubscribe : ℕ → TaskRecord F → TaskRecord F
  unfolding without
  unsubscribe n r = record r { subscribers = without n r.subscribers }
