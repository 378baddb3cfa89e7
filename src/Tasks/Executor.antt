-- ===== src/Tasks/Executor.antt =====
-- `TaskExecutor` of sifter/src/aa_sifter/tasks/executor.py. The ready tasks of a round run side by side, each
-- on its own object; here they run one after another.
pub mod Open
pub mod Rounds
pub mod Ending
use aa.Prelude.{
  ℕ, zero, suc, ◌+◌, List, [], ◌∷◌, String, Bool, true, false, not, Option, none, some,
  if◌then◌else◌,
}
use aa.Prelude.Text.{◌⧺◌}
use aa.Tasks.Task.{TaskStatus, running, blocked_approval, finished, failed, Task, is_running}
use aa.Tasks.Graph.{TaskGraph, change_task, ready_tasks, invalidate_dependencies, has_pending}

-- How a worker ends: it returns, it raises `ApprovalRequiredError`, or it raises something else.
pub data Verdict : Type 0 where
  returned : Verdict
  approval_required : (reason : String) → Verdict
  raised : (error : String) → Verdict

-- A worker changes its task, and ends.
abbrev pub Worker : Type 0 → Type 0
Worker F = Task F → Task F × Verdict

-- How an execution ends: with a graph, in a `KeyError`, or cut short with the rounds it was given.
pub data Execution (F : Type 0) : Type 0 where
  ended : TaskGraph F → Execution F
  key_error : Execution F
  cut_short : TaskGraph F → Execution F

module _ {F : Type 0} where
  unfoldable pub settle : Task F → Verdict → Task F
  settle t returned = if is_running t.status then record t { status = finished } else t
  settle t (approval_required reason) = record t {
    status = blocked_approval;
    verification_state = "blocked_approval";
    result = reason;
  }
  settle t (raised error) = record t { status = failed; result = "error: " ⧺ error }

  -- `_run_one`
  unfoldable pub run_one : Worker F → Task F → Task F
  unfolding settle
  run_one worker t =
      let (worked, verdict) =
        worker (record t { status = running; attempt_count = t.attempt_count + 1 }) in
      settle worked verdict

  -- `asyncio.gather(*(self._run_one(task, gate) for task in ready))`
  unfoldable pub run_all : Worker F → List String → TaskGraph F → TaskGraph F
  unfolding change_task run_one
  run_all worker [] g = g
  run_all worker (i ∷ is) g = run_all worker is (change_task i (run_one worker) g)

  -- `run`, for at most so many rounds.
  unfoldable pub execute : Worker F → (rounds : ℕ) → TaskGraph F → Execution F
  unfolding ready_tasks run_all invalidate_dependencies has_pending
  execute worker zero g = cut_short g
  execute worker (suc rounds) g = if not (has_pending g) then ended g else elim (ready_tasks g) [
    | none ↦ key_error
    | some ([], g') ↦ ended g'
    | some (i ∷ is, g') ↦ elim (invalidate_dependencies (run_all worker (i ∷ is) g')) [
      | none ↦ key_error
      | some next ↦ execute worker rounds next
    ]
  ]
