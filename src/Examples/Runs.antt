-- ===== src/Examples/Runs.antt =====
-- Runs of sifter/src/aa_sifter/app.py.
use aa.Prelude.{◌+◌, none, ◌≤◌, Bool, true, false, ◌≡◌, refl, [], ◌∷◌}
use aa.Prelude.Float.{nat_float}
use aa.Decisions.Approval.Types.{ApprovalAction, approve, stop}
use aa.App.State.{asked}
use aa.App.Log.{EachCall}
use aa.App.Confinement.{IsConfined, run-IsConfined}
use aa.App.Consent.{Permitted, run-Permitted}
use aa.App.Spending.{run-Within}
use aa.App.Stopping.{first_question, first_answer, run-declined}
use aa.App.Run.{classification_of, run, start}
use aa.App.Exec.Costs.{count_calls}
use aa.App.Route.{execute_route}
use aa.App.Attempts.{calls_of, execute_route-calls}
use aa.Routing.Policy.{local_route}
use aa.Examples.Sample.{sample_app, sample_task}

-- A destructive command is critical, and asks for the human.
critical_lem :
    (action : ApprovalAction) (passed : Bool)
    → (classification_of (sample_app action passed) (sample_task "rm -rf")).requires_human_approval
      ≡ true
unfolding classification_of aa.Decisions.Gate.classify_text aa.Decisions.Classifier.classify
    aa.Decisions.Rules.detect_conflicts aa.Decisions.Signals.level_for_signals
    aa.Decisions.Signals.detect_signals aa.Decisions.Patterns.Critical.destructive
critical_lem action passed = refl

run-Permitted_example :
    EachCall Permitted (run (sample_app approve false) (sample_task "rm -rf")).1.log
run-Permitted_example =
    run-Permitted (sample_app approve false) (sample_task "rm -rf") (critical_lem approve false)

run-declined_example :
    ((run (sample_app stop true) (sample_task "rm -rf")).0.status ≡ "stopped")
    × ((run (sample_app stop true) (sample_task "rm -rf")).1.log
        ≡ asked
            (first_question (sample_app stop true) (sample_task "rm -rf"))
            (first_answer (sample_app stop true) (sample_task "rm -rf"))
          ∷ [])
run-declined_example =
    run-declined (sample_app stop true) (sample_task "rm -rf") (critical_lem stop true) refl

run-IsConfined_example :
    EachCall
      (λ c l. IsConfined (sample_app approve true) c)
      (run (sample_app approve true) (sample_task "Fix the typo")).1.log
run-IsConfined_example = run-IsConfined (sample_app approve true) (sample_task "Fix the typo")

run-Within_example :
    ((run (sample_app approve false) (sample_task "Fix it")).1.budget.budget.max_calls ≡ 5)
    × ((run (sample_app approve false) (sample_task "Fix it")).1.budget.budget.calls ≤ 5)
run-Within_example = run-Within (sample_app approve false) (sample_task "Fix it")

execute_route-calls_example :
    count_calls
      (execute_route
        (sample_app stop false)
        "Fix it"
        none
        local_route
        []
        []
        (start (sample_app stop false) (sample_task "Fix it"))).1.log
    ≤ count_calls (start (sample_app stop false) (sample_task "Fix it")).log
      + calls_of (sample_app stop false) local_route
execute_route-calls_example =
    execute_route-calls (sample_app stop false) "Fix it" none local_route [] []
      (start (sample_app stop false) (sample_task "Fix it"))
