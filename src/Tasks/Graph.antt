-- ===== src/Tasks/Graph.antt =====
-- `TaskGraph` of sifter/src/aa_sifter/tasks/graph.py. The dictionary of tasks is the list of its values in
-- the order of insertion; each has the key that is its `id`. A missing key is `none`.
pub mod Support
pub mod Ready
pub mod Order
use aa.Prelude.{
  List, [], ◌∷◌, ◌++◌, String, Bool, true, false, not, ◌&&◌, Option, none, some, any, all, map,
  filter, is_empty, if◌then◌else◌,
}
use aa.Prelude.Text.{◌≟◌}
use aa.Tasks.Task.{
  TaskStatus, ready, blocked_approval, skipped, Task, is_pending, is_done, is_lost, is_open,
  terminal,
}

abbrev pub TaskGraph : Type 0 → Type 0
TaskGraph F = List (Task F)

-- The body of the loop of `ready_tasks` for one task: what becomes of its status, and whether it
-- is ready.
unfoldable pub readiness : TaskStatus → List TaskStatus → TaskStatus × Bool
readiness status dependencies =
    if any is_lost dependencies
    then (skipped, false)
    else if any (λ s. not (is_done s)) dependencies
    then (status, false)
    else if is_pending status
    then (ready, true)
    else (status, true)

abbrev is_blocked : TaskStatus → Bool
is_blocked blocked_approval = true
is_blocked _ = false

module _ {F : Type 0} where
  -- `self._tasks[task_id]`
  unfoldable pub get : TaskGraph F → String → Option (Task F)
  get [] task_id = none
  get (t ∷ ts) task_id = let rest = get ts task_id in if t.id ≟ task_id then some t else rest

  -- A mutation of the object under a key.
  unfoldable pub change_task : String → (Task F → Task F) → TaskGraph F → TaskGraph F
  change_task task_id f [] = []
  change_task task_id f (t ∷ ts) =
      let rest = change_task task_id f ts in if t.id ≟ task_id then f t ∷ ts else t ∷ rest

  abbrev pub set_status : TaskStatus → Task F → Task F
  set_status status t = record t { status = status }

  -- `add`, with `none` for the `ValueError` of a duplicate.
  unfoldable pub add : TaskGraph F → Task F → Option (TaskGraph F)
  unfolding get
  add g t = elim (get g t.id) [ some _ ↦ none | none ↦ some (g ++ t ∷ []) ]

  -- `[self._tasks[dep].status for dep in dependencies]`, or `none` for a `KeyError`.
  unfoldable pub statuses : TaskGraph F → List String → Option (List TaskStatus)
  unfolding get
  statuses g [] = some []
  statuses g (d ∷ ds) = elim (get g d) [
    | none ↦ none
    | some t ↦ elim (statuses g ds) [ none ↦ none | some ss ↦ some (t.status ∷ ss) ]
  ]

  -- What `ready_tasks` does with one open task, given the statuses of its dependencies.
  unfoldable pub judge :
      String → TaskGraph F → Task F → Option (List TaskStatus) → Option (Bool × TaskGraph F)
  unfolding change_task readiness
  judge task_id g t none = none
  judge task_id g t (some dependencies) =
      let (status, is_ready) = readiness t.status dependencies in
      some (is_ready, change_task task_id (set_status status) g)

  unfoldable pub visit : String → TaskGraph F → Option (Bool × TaskGraph F)
  unfolding get statuses judge
  visit task_id g = elim (get g task_id) [
    | none ↦ some (false, g)
    | some t ↦
        if is_open t.status then judge task_id g t (statuses g t.dependencies) else some (false, g)
  ]

  unfoldable pub collect :
      String → Bool → Option (List String × TaskGraph F) → Option (List String × TaskGraph F)
  collect task_id is_ready none = none
  collect task_id is_ready (some (ids, g)) = some ((if is_ready then task_id ∷ ids else ids), g)

  -- The loop of `ready_tasks` over the keys: the keys of the ready tasks, and the graph, whose
  -- statuses each round may change for the next.
  unfoldable pub ready_from : List String → TaskGraph F → Option (List String × TaskGraph F)
  unfolding visit collect
  ready_from [] g = some ([], g)
  ready_from (i ∷ is) g = elim (visit i g) [
    | none ↦ none
    | some (is_ready, g') ↦ collect i is_ready (ready_from is g')
  ]

  -- `ready_tasks`
  unfoldable pub ready_tasks : TaskGraph F → Option (List String × TaskGraph F)
  unfolding ready_from
  ready_tasks g = ready_from (map (λ (t : Task F). t.id) g) g

  -- `any(self._tasks[dep].status in {FAILED, SKIPPED} for dep in dependencies)`
  unfoldable pub any_lost : TaskGraph F → List String → Option Bool
  unfolding get
  any_lost g [] = some false
  any_lost g (d ∷ ds) =
      let rest = any_lost g ds in
      elim (get g d) [ none ↦ none | some t ↦ if is_lost t.status then some true else rest ]

  unfoldable pub skip_if : String → Option Bool → TaskGraph F → Option (TaskGraph F)
  unfolding change_task
  skip_if task_id none g = none
  skip_if task_id (some lost) g =
      some (if lost then change_task task_id (set_status skipped) g else g)

  unfoldable pub invalidate : String → TaskGraph F → Option (TaskGraph F)
  unfolding get any_lost skip_if
  invalidate task_id g = elim (get g task_id) [
    | none ↦ some g
    | some t ↦
        if is_pending t.status && not (is_empty t.dependencies)
        then skip_if task_id (any_lost g t.dependencies) g
        else some g
  ]

  unfoldable pub invalidate_from : List String → TaskGraph F → Option (TaskGraph F)
  unfolding invalidate
  invalidate_from [] g = some g
  invalidate_from (i ∷ is) g = elim (invalidate i g) [
    | none ↦ none
    | some g' ↦ invalidate_from is g'
  ]

  -- `invalidate_dependencies`
  unfoldable pub invalidate_dependencies : TaskGraph F → Option (TaskGraph F)
  unfolding invalidate_from
  invalidate_dependencies g = invalidate_from (map (λ (t : Task F). t.id) g) g

  -- `has_pending`, `all_terminal`, `blocked_tasks`
  unfoldable pub has_pending : TaskGraph F → Bool
  unfolding terminal
  has_pending = any λ t. not (terminal t)

  unfoldable pub all_terminal : TaskGraph F → Bool
  unfolding terminal
  all_terminal = all λ t. terminal t

  unfoldable pub blocked_tasks : TaskGraph F → List (Task F)
  blocked_tasks = filter λ t. is_blocked t.status
