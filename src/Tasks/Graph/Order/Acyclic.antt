-- ===== src/Tasks/Graph/Order/Acyclic.antt =====
-- That `topological_order` of sifter/src/aa_sifter/tasks/graph.py finds an order wherever there is one.
use aa.Prelude.{
  ℕ, zero, suc, ◌<◌, List, [], ◌∷◌, String, Bool, true, false, some, length, All, All-mono, ◌≡◌,
  refl, sym, ap, arith, eq_refl, inl, inr, Bool-cases, Option-cases, is_some,
}
use mathlib.Core.Path.{subst}
use aa.Prelude.Text.{elem, All-elem}
use aa.Tasks.Task.{Task}
use aa.Tasks.Graph.{TaskGraph, get}
use aa.Tasks.Graph.Order.{
  Order, Visit, reached, cycle, key_error, out_of_fuel, after, visit_all, close, enter, visit, ids,
  topological_order,
}
use aa.Tasks.Graph.Order.Fuel.{close-Stays, Ends, topological_order-Ends}

-- A task below all that is open is not open.
elem-below :
    (rank : String → ℕ) (task_id : String) (temp : List String)
    → All (λ x. rank task_id < rank x) temp
    → elem task_id temp ≡ false
elem-below rank task_id temp h = elim (Bool-cases (elem task_id temp)) [
  | inl e ↦ absurd (omega (arith, All-elem (λ x. rank task_id < rank x) temp h task_id e))
  | inr e ↦ e
]

module _ {F : Type 0} where
  -- Each dependency is a task of the graph, and of a lower rank than the task that waits for it.
  abbrev pub IsRanked : (String → ℕ) → TaskGraph F → Type 0
  IsRanked rank g =
      (task_id : String) (t : Task F)
      → get g task_id ≡ some t
      → All (λ d. (rank d < rank task_id) × (is_some (get g d) ≡ true)) t.dependencies

  -- A visit that raises nothing leaves open what was open.
  abbrev Fine : List String → Visit F → Type 0
  Fine temp (reached u) = u.temp ≡ temp
  Fine temp out_of_fuel = Unit
  Fine temp _ = ⊥

  after-Fine :
      (temp left : List String) (v : Visit F) (f : Order F → Visit F)
      → Fine temp v
      → ((u : Order F) → u.temp ≡ temp → Fine left (f u))
      → Fine left (after v f)
  after-Fine temp left (reached u) f h k = k u h
  after-Fine temp left cycle f h k = h
  after-Fine temp left (key_error e) f h k = h
  after-Fine temp left out_of_fuel f h k = tt

  visit_all-Fine :
      (temp : List String) (f : String → Order F → Visit F) (ds : List String) (s : Order F)
      → All (λ d. (u : Order F) → u.temp ≡ temp → Fine temp (f d u)) ds
      → s.temp ≡ temp
      → Fine temp (visit_all f ds s)
  unfolding visit_all
  visit_all-Fine temp f [] s h e = e
  visit_all-Fine temp f (d ∷ ds) s h e =
      after-Fine temp temp (f d s) (visit_all f ds) (h.0 s e)
        (λ u k. visit_all-Fine temp f ds u h.1 k)

  close-Fine :
      (task_id : String) (t : Task F) (temp : List String) (u : Order F)
      → elem task_id temp ≡ false
      → u.temp ≡ task_id ∷ temp
      → Fine temp (close task_id t u)
  unfolding close
  close-Fine task_id t temp u n e = close-Stays task_id t temp u n e

  enter-Fine :
      (f : String → Order F → Visit F) (temp : List String) (task_id : String) (t : Task F)
      (s : Order F)
      → All
          (λ d. (u : Order F) → u.temp ≡ task_id ∷ temp → Fine (task_id ∷ temp) (f d u))
          t.dependencies
      → s.temp ≡ temp
      → elem task_id temp ≡ false
      → Fine temp (enter f task_id (some t) s)
  unfolding enter
  enter-Fine f temp task_id t s h e n =
      let opened = record s { temp = task_id ∷ s.temp } in
      after-Fine (task_id ∷ temp) temp (visit_all f t.dependencies opened) (close task_id t)
        (visit_all-Fine (task_id ∷ temp) f t.dependencies opened h (ap (λ rest. task_id ∷ rest) e))
        (λ u k. close-Fine task_id t temp u n k)

  visit-Fine :
      (fuel : ℕ) (g : TaskGraph F) (rank : String → ℕ)
      → IsRanked rank g
      → (temp : List String) (task_id : String) (s : Order F)
      → All (λ x. rank task_id < rank x) temp
      → is_some (get g task_id) ≡ true
      → s.temp ≡ temp
      → Fine temp (visit fuel g task_id s)
  unfolding visit
  visit-Fine zero g rank r temp task_id s h there e = tt
  visit-Fine (suc fuel) g rank r temp task_id s h there e =
      elim (Bool-cases (elem task_id s.visited)) [
        | inl v ↦ rw (v, Fine) e
        | inr v ↦ rw v (elim (Option-cases (get g task_id)) [
          | inl absent ↦ absurd (ground (arith, there, absent))
          | inr (t, found) ↦
              (let n : elem task_id temp ≡ false = elem-below rank task_id temp h in
                let closed : elem task_id s.temp ≡ false =
                  subst (λ ids. elem task_id ids ≡ false) (sym e) n in
                rw (closed, found)
                  (enter-Fine (visit fuel g) temp task_id t s
                    (All-mono (λ d. (rank d < rank task_id) × (is_some (get g d) ≡ true))
                      (λ d.
                        (u : Order F)
                        → u.temp ≡ task_id ∷ temp
                        → Fine (task_id ∷ temp) (visit fuel g d u))
                      t.dependencies
                      (λ d k u e.
                        visit-Fine fuel g rank r (task_id ∷ temp) d u
                          (
                            k.0,
                            All-mono (λ x. rank task_id < rank x) (λ x. rank d < rank x) temp
                                (λ x b. omega (arith, b, k.0)) h,
                          )
                          k.1 e)
                      (r task_id t found))
                    e n))
        ])
      ]

  get-ids : (g : TaskGraph F) → All (λ x. is_some (get g x) ≡ true) (ids g)
  unfolding get
  get-ids [] = tt
  get-ids (t ∷ g) = (
    ground (arith, eq_refl t.id),
    All-mono (λ x. is_some (get g x) ≡ true) (λ x. is_some (get (t ∷ g) x) ≡ true) (ids g)
        (λ x k. ground (arith, k)) (get-ids g),
  )

  abbrev pub is_reached : Visit F → Bool
  is_reached (reached s) = true
  is_reached _ = false

  reached_of : (temp : List String) (v : Visit F) → Fine temp v → Ends v → is_reached v ≡ true
  reached_of temp (reached u) h e = refl
  reached_of temp cycle h e = absurd h
  reached_of temp (key_error k) h e = absurd h
  reached_of temp out_of_fuel h e = absurd e

  -- A graph has an order where its tasks can be ranked such that each dependency is a task of the graph and of a
  -- lower rank: then neither error is raised.
  pub topological_order-reached :
      (g : TaskGraph F) (rank : String → ℕ)
      → IsRanked rank g
      → is_reached (topological_order g) ≡ true
  unfolding topological_order
  topological_order-reached g rank r =
      let start : Order F = record { ordered = []; visited = []; temp = [] } in
      reached_of [] (topological_order g)
        (visit_all-Fine [] (visit (suc (length g)) g) (ids g) start
          (All-mono (λ x. is_some (get g x) ≡ true)
            (λ d. (u : Order F) → u.temp ≡ [] → Fine [] (visit (suc (length g)) g d u)) (ids g)
            (λ d k u e. visit-Fine (suc (length g)) g rank r [] d u tt k e) (get-ids g))
          refl)
        (topological_order-Ends g)
