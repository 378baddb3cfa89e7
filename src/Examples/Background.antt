-- ===== src/Examples/Background.antt =====
-- Tasks of the desktop, at concrete inputs.
use aa.Prelude.{ℕ, [], ◌∷◌, List, true, false, none, some, ◌≡◌, refl}
use aa.Prelude.Float.{nat_float}
use aa.Decisions.Approval.Types.{ApprovalRequest, HumanDecision, approve, stop, decide_on}
use aa.Decisions.Level.{major}
use aa.App.Run.{SifterResult, run}
use aa.Desktop.Task.{Task, asking, given}
use aa.Desktop.Task.Steps.{Step, begins, asks, cancels, delivers, interrupts, steps}
use aa.Desktop.Task.Life.{Kept, steps-Kept}
use aa.Desktop.Task.Lifecycle.{Follows, life, nexts, steps-Follows}
use aa.Desktop.Service.{
  Service, new_record, new_task, get, resolve_approval, action_of, decision_of,
}
use aa.Desktop.Service.Frame.{PostsAt, resolve_approval_lem}
use aa.Examples.Sample.{sample_config, sample_app, sample_task}
use aa.Examples.Settings.{sample_settings}

abbrev sample_work : Task ℕ
sample_work = new_task (new_record "t1" 5 "prompt" none none "adaptive")

abbrev sample_request : ApprovalRequest
sample_request = record {
  category = major;
  issue = "issue";
  why_it_matters = "";
  current_approach = "";
  options = [];
  recommended_action = "";
  cloud_reasoning_invoked = false;
  stage = "";
  context = [];
}

abbrev sample_result : SifterResult ℕ
sample_result = (run (sample_app approve true) (sample_task "say hello")).0

abbrev sample_steps : List (ℕ × Step ℕ)
sample_steps =
    (6, begins) ∷ (7, asks sample_request) ∷ (8, cancels) ∷ (9, delivers) ∷ (10, interrupts) ∷ []

steps-Kept_example : Kept (steps sample_steps sample_work)
unfolding new_task new_record
steps-Kept_example = steps-Kept sample_steps sample_work (refl, refl)

steps-Follows_example :
    Follows (nexts sample_steps (life sample_work.record_)) (steps sample_steps sample_work)
unfolding new_task new_record
steps-Follows_example = steps-Follows sample_steps sample_work (refl, refl)

abbrev sample_answers : List (ℕ × HumanDecision)
sample_answers = (1, decide_on stop) ∷ (2, decide_on approve) ∷ (2, decide_on stop) ∷ []

-- A task that asks, with a decision for its question on the way.
abbrev asking_work : Task ℕ
asking_work = record sample_work {
  phase = asking 0 none;
  callbacks = (given 0 (decide_on approve)) ∷ [];
  record_ = record sample_work.record_ {
    status = "waiting_approval";
    approval_request = some sample_request;
  };
}

abbrev sample_service : Service ℕ
sample_service = record {
  sifter_config = sample_config;
  config = sample_config;
  app_config = sample_settings;
  profile_name = "default";
  tasks = ("t1", asking_work) ∷ [];
  status_cache = none;
}

resolve_approval_lem_example :
    ((resolve_approval "t1" "approve" [] [] "" sample_service).0 ≡ true)
    × PostsAt "t1"
        (get sample_service "t1")
        (decision_of (action_of "approve") [] [] "")
        sample_service
        (resolve_approval "t1" "approve" [] [] "" sample_service)
unfolding get action_of new_task new_record
resolve_approval_lem_example =
    resolve_approval_lem "t1" "approve" [] [] "" sample_service (refl, refl)
