-- ===== src/Tasks/Task.antt =====
-- sifter/src/aa_sifter/tasks/task.py
use aa.Prelude.{ℕ, List, String, Bool, true, false, ◌||◌, Option}
use aa.Models.Provider.{Tier}
use aa.Decisions.Level.{DecisionLevel}

pub data TaskStatus : Type 0 where
  pending ready running blocked_approval blocked_dependency finished failed skipped : TaskStatus

pub record Task (F : Type 0) : Type 0 where
  pub id : String
  pub description : String
  pub dependencies : List String
  pub status : TaskStatus
  pub assigned_model : Option String
  pub assigned_role : String
  pub assigned_tier : Tier
  pub attempt_count : ℕ
  pub input_context : String
  pub result : String
  pub verification_state : String
  pub cost_tokens : ℕ
  pub duration_ms : F
  pub decision_level : DecisionLevel
  pub human_approval_status : String
  pub acceptance_criteria : List String
  pub files_likely_relevant : List String
  pub constraints : List String

abbrev pub is_pending : TaskStatus → Bool
is_pending pending = true
is_pending _ = false

abbrev pub is_running : TaskStatus → Bool
is_running running = true
is_running _ = false

abbrev pub is_done : TaskStatus → Bool
is_done finished = true
is_done _ = false

-- `status in {FAILED, SKIPPED}`
abbrev pub is_lost : TaskStatus → Bool
is_lost failed = true
is_lost skipped = true
is_lost _ = false

-- `status in {PENDING, READY}`
abbrev pub is_open : TaskStatus → Bool
is_open pending = true
is_open ready = true
is_open _ = false

-- `terminal`
unfoldable pub terminal : {F : Type 0} → Task F → Bool
terminal t = is_done t.status || is_lost t.status
