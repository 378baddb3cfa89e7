-- ===== src/Examples/Work.antt =====
-- Tasks, and messages fitted to a context.
use aa.Prelude.{ℕ, ◌+◌, ◌≤◌, List, [], ◌∷◌, String, true, false, none, ◌≡◌, refl, map}
use aa.Prelude.Float.{nat_float}
use aa.Models.Provider.{local, Message, system_message, user_message}
use aa.Decisions.Level.{routine}
use aa.Decisions.Approval.Types.{approve}
use aa.Context.Compression.{compress_messages, fit_messages, total_tokens}
use aa.Context.Compression.Fit.{HasEnded, fit_messages-ends}
use aa.App.Generate.{generate, Confines, generate-Confines, selected_tier}
use aa.Models.Provider.{expert}
use aa.Tasks.Task.{TaskStatus, pending, finished, failed, skipped, Task}
use aa.Tasks.Graph.{TaskGraph, ready_tasks}
use aa.Tasks.Executor.{returned, raised, Worker, Execution, ended, execute}
use aa.Tasks.Executor.Open.{opens}
use aa.Tasks.Graph.Ready.{NamesSupported, ready_tasks-NamesSupported}
use aa.Tasks.Executor.Ending.{is_cut_short, execute-ends}
use aa.Examples.Sample.{sample_app}

abbrev sample_messages : List Message
sample_messages =
    system_message "Be brief, and keep to the plan."
    ∷ user_message "A long question, with much detail."
    ∷ []

fit_messages-ends_example :
    HasEnded nat_float (fit_messages nat_float sample_messages 5 6) 5
    × (total_tokens (fit_messages nat_float sample_messages 5 6)
        ≤ total_tokens (compress_messages sample_messages 5 6))
fit_messages-ends_example = fit_messages-ends nat_float sample_messages 5 6

generate-Confines_example :
    Confines
      (sample_app approve true)
      expert
      sample_messages
      (generate (sample_app approve true) sample_messages "Cloud" 0 4096)
unfolding selected_tier
generate-Confines_example =
    generate-Confines (sample_app approve true) sample_messages "Cloud" 0 4096

abbrev pub task_of : String → List String → Task ℕ
task_of id dependencies = record {
  id = id;
  description = id;
  dependencies = dependencies;
  status = pending;
  assigned_model = none;
  assigned_role = "builder";
  assigned_tier = local;
  attempt_count = 0;
  input_context = "";
  result = "";
  verification_state = "unverified";
  cost_tokens = 0;
  duration_ms = 0;
  decision_level = routine;
  human_approval_status = "not_required";
  acceptance_criteria = [];
  files_likely_relevant = [];
  constraints = [];
}

-- A chain of tasks, the last one first, and a worker that fails.
abbrev backward : TaskGraph ℕ
backward =
    task_of "d" ("c" ∷ []) ∷ task_of "c" ("b" ∷ []) ∷ task_of "b" ("a" ∷ []) ∷ task_of "a" [] ∷ []

abbrev failing : Worker ℕ
failing t = (t, raised "no")

abbrev statuses_of : Execution ℕ → List TaskStatus
statuses_of (ended g) = map (λ (t : Task ℕ). t.status) g
statuses_of _ = []

-- The execution ends while the last task is still pending, although nothing can start it.
backward_test : statuses_of (execute failing 5 backward) ≡ pending ∷ skipped ∷ skipped ∷ failed ∷ []
unfolding execute
backward_test = refl

abbrev working : Worker ℕ
working t = (record t { status = finished }, returned)

execute-ends_example : is_cut_short (execute working (opens backward + 1) backward) ≡ false
execute-ends_example = execute-ends working (λ t. refl) backward

ready_tasks-NamesSupported_example : NamesSupported (ready_tasks backward)
ready_tasks-NamesSupported_example = ready_tasks-NamesSupported backward
