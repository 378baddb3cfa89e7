-- ===== src/Tasks/Graph/Support.antt =====
-- Graphs whose done tasks stay done while others change their status.
use aa.Prelude.{
  List, [], ◌∷◌, String, Bool, true, false, Option, none, some, ◌≡◌, refl, inl, inr, Bool-cases,
  All, All-mono, ◌∙◌, sym,
}
use mathlib.Core.Bool.{false≢true}
use aa.Prelude.Text.{◌≟◌}
use aa.Tasks.Task.{TaskStatus, Task, is_done}
use aa.Tasks.Graph.{TaskGraph, get, change_task, set_status}

module _ {F : Type 0} where
  unfoldable pub status_is : (TaskStatus → Bool) → Option (Task F) → Bool
  status_is test none = false
  status_is test (some t) = test t.status

  -- The task under a key is done.
  abbrev pub done_at : TaskGraph F → String → Bool
  done_at g d = status_is is_done (get g d)

  unfoldable pub dependencies_of : Option (Task F) → List String
  dependencies_of none = []
  dependencies_of (some t) = t.dependencies

  -- Every dependency of the task under a key is a task of the graph, and done.
  unfoldable pub Supported : TaskGraph F → String → Type 0
  unfolding status_is dependencies_of get
  Supported g i = All (λ d. done_at g d ≡ true) (dependencies_of (get g i))

  -- A task that is not done may change its status; what is done stays done, and dependencies stay.
  change-done_at :
      (i : String) (s : TaskStatus) (g : TaskGraph F) (d : String)
      → done_at g i ≡ false
      → done_at g d ≡ true
      → done_at (change_task i (set_status s) g) d ≡ true
  unfolding change_task get status_is
  change-done_at i s [] d h k = k
  change-done_at i s (t ∷ ts) d h k = elim (Bool-cases (t.id ≟ i)) [
    | inl here ↦ elim (Bool-cases (t.id ≟ d)) [
      | inl same ↦
          let undone : is_done t.status ≡ false = rw here at h in
          let done : is_done t.status ≡ true = rw same at k in
          absurd (false≢true (sym undone ∙ done))
      | inr other ↦ rw (here, other) (rw other at k)
    ]
    | inr there ↦ elim (Bool-cases (t.id ≟ d)) [
      | inl same ↦ rw (there, same) (rw same at k)
      | inr other ↦ rw (there, other) (change-done_at i s ts d (rw there at h) (rw other at k))
    ]
  ]

  change-dependencies :
      (i : String) (s : TaskStatus) (g : TaskGraph F) (j : String)
      → dependencies_of (get (change_task i (set_status s) g) j) ≡ dependencies_of (get g j)
  unfolding change_task get dependencies_of
  change-dependencies i s [] j = refl
  change-dependencies i s (t ∷ ts) j = elim (Bool-cases (t.id ≟ i)) [
    | inl here ↦ elim (Bool-cases (t.id ≟ j)) [
      | inl same ↦ rw (here, same) refl
      | inr other ↦ rw (here, other) refl
    ]
    | inr there ↦ elim (Bool-cases (t.id ≟ j)) [
      | inl same ↦ rw (there, same) refl
      | inr other ↦ rw (there, other) (change-dependencies i s ts j)
    ]
  ]

  -- What is done in `g` is done in `h`, and dependencies are the same.
  pub record Extends (g h : TaskGraph F) : Type 0 where
    pub kept : (d : String) → done_at g d ≡ true → done_at h d ≡ true
    pub dependencies : (j : String) → dependencies_of (get h j) ≡ dependencies_of (get g j)

  pub Extends-refl : (g : TaskGraph F) → Extends g g
  Extends-refl g = record { kept = λ d k. k; dependencies = λ j. refl }

  pub Extends-trans : (g h l : TaskGraph F) → Extends g h → Extends h l → Extends g l
  Extends-trans g h l p q = record {
    kept = λ d k. q.kept d (p.kept d k);
    dependencies = λ j. q.dependencies j ∙ p.dependencies j;
  }

  pub Extends-Supported :
      (g h : TaskGraph F) (i : String) → Extends g h → Supported g i → Supported h i
  unfolding Supported
  Extends-Supported g h i e s = rw (e.dependencies i) (
      All-mono (λ d. done_at g d ≡ true) (λ d. done_at h d ≡ true) (dependencies_of (get g i))
        (λ d k. e.kept d k) s)

  pub change-Extends :
      (i : String) (s : TaskStatus) (g : TaskGraph F)
      → done_at g i ≡ false
      → Extends g (change_task i (set_status s) g)
  change-Extends i s g h = record {
    kept = λ d k. change-done_at i s g d h k;
    dependencies = λ j. change-dependencies i s g j;
  }
