-- ===== src/Desktop/Task/Answering.antt =====
-- The answers to the questions of a task of sifter/src/aa_sifter/desktop/service.py.
use aa.Prelude.{ℕ, List, [], ◌∷◌, Option, none, some, if◌then◌else◌, ◌==◌}
use aa.Decisions.Approval.Types.{HumanDecision}
use aa.Desktop.Task.{Callback, given, asking, Task}
use aa.Desktop.Task.Steps.{Step, delivers}

-- The decision of a question: the one that it has, or the first of those given for it.
abbrev pub first_for : ℕ → List (ℕ × HumanDecision) → Option HumanDecision
first_for question [] = none
first_for question ((n, decision) ∷ rest) =
    let others = first_for question rest in if n == question then some decision else others

abbrev pub decided : Option HumanDecision → Option HumanDecision → Option HumanDecision
decided none other = other
decided (some first) other = some first

abbrev pub answers_of : List (ℕ × HumanDecision) → List Callback
answers_of [] = []
answers_of ((n, decision) ∷ rest) = given n decision ∷ answers_of rest

module _ {F : Type 0} where
  -- One delivery for each callback that is on its way.
  abbrev pub deliveries : F → List Callback → List (F × Step F)
  deliveries now [] = []
  deliveries now (c ∷ cs) = (now, delivers) ∷ deliveries now cs

  -- The question of a task with a future, and the callbacks.
  abbrev pub asking_with : ℕ → Option HumanDecision → List (ℕ × HumanDecision) → Task F → Task F
  asking_with n future cs t = record t { phase = asking n future; callbacks = answers_of cs }
