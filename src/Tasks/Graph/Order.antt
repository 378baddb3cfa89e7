-- ===== src/Tasks/Graph/Order.antt =====
-- `topological_order` of sifter/src/aa_sifter/tasks/graph.py. The recursion of `visit` has fuel, of which one
-- more than there are tasks is enough: the tasks that are open are different ones of the graph.
use aa.Prelude.{
  ℕ, zero, suc, List, [], ◌∷◌, ◌++◌, String, Bool, true, false, not, Option, none, some, map,
  length, if◌then◌else◌,
}
use aa.Prelude.Text.{◌≟◌, elem}
use aa.Tasks.Task.{Task}
use aa.Tasks.Graph.{TaskGraph, get}
pub mod Sound
pub mod Fuel
pub mod Acyclic

-- `ordered`, `visited` and `temp`
pub record Order (F : Type 0) : Type 0 where
  pub ordered : List (Task F)
  pub visited : List String
  pub temp : List String

-- How a visit ends: in a state, in the ValueError of a cycle, in the KeyError of a missing task, or without fuel.
pub data Visit (F : Type 0) : Type 0 where
  reached : (order : Order F) → Visit F
  cycle : Visit F
  key_error : (task_id : String) → Visit F
  out_of_fuel : Visit F

-- `temp.discard(task_id)`
unfoldable pub discard : String → List String → List String
discard task_id [] = []
discard task_id (s ∷ ss) = let rest = discard task_id ss in if s ≟ task_id then rest else s ∷ rest

module _ {F : Type 0} where
  -- What follows a visit that comes to a state.
  abbrev pub after : Visit F → (Order F → Visit F) → Visit F
  after (reached s) f = f s
  after cycle f = cycle
  after (key_error task_id) f = key_error task_id
  after out_of_fuel f = out_of_fuel

  -- `for dep in …: visit(dep)`
  unfoldable pub visit_all : (String → Order F → Visit F) → List String → Order F → Visit F
  visit_all f [] s = reached s
  visit_all f (d ∷ ds) s = after (f d s) (visit_all f ds)

  -- The end of `visit`
  unfoldable pub close : String → Task F → Order F → Visit F
  unfolding discard
  close task_id t s = reached record {
    ordered = s.ordered ++ (t ∷ []);
    visited = task_id ∷ s.visited;
    temp = discard task_id s.temp;
  }

  -- `visit` for a task that is neither visited nor open
  unfoldable pub enter : (String → Order F → Visit F) → String → Option (Task F) → Order F → Visit F
  unfolding visit_all close
  enter f task_id none s = key_error task_id
  enter f task_id (some t) s =
      after (visit_all f t.dependencies (record s { temp = task_id ∷ s.temp })) (close task_id t)

  -- `visit`
  unfoldable pub visit : ℕ → TaskGraph F → String → Order F → Visit F
  unfolding enter get
  visit zero g task_id s = out_of_fuel
  visit (suc fuel) g task_id s =
      let entered = enter (visit fuel g) task_id (get g task_id) s in
      if elem task_id s.visited then reached s else if elem task_id s.temp then cycle else entered

  abbrev pub ids : List (Task F) → List String
  ids ts = map (λ t. t.id) ts

  -- `topological_order`, its final state
  unfoldable pub topological_order : TaskGraph F → Visit F
  unfolding visit_all visit
  topological_order g =
      visit_all (visit (suc (length g)) g) (ids g)
        (record { ordered = []; visited = []; temp = [] })
