-- ===== src/Tasks/Graph/Order/Sound.antt =====
-- The order that `topological_order` of sifter/src/aa_sifter/tasks/graph.py gives.
use aa.Prelude.{
  ℕ, zero, suc, List, [], ◌∷◌, ◌++◌, String, true, false, ◌||◌, Option, none, some, length, All,
  All-mono, ◌≡◌, refl, sym, ap, ◌∙◌, arith, eq_iff, eq_refl, inl, inr, Bool-cases,
}
use aa.Prelude.Text.{◌≟◌, elem}
use aa.Tasks.Task.{Task}
use aa.Tasks.Graph.{TaskGraph, get}
use aa.Tasks.Graph.Order.{
  Order, Visit, reached, cycle, key_error, out_of_fuel, after, visit_all, close, enter, visit, ids,
  topological_order,
}

elem-append : (x : String) (xs ys : List String) → elem x (xs ++ ys) ≡ elem x xs || elem x ys
elem-append x [] ys = refl
elem-append x (z ∷ xs) ys = ground (arith, elem-append x xs ys)

module _ {F : Type 0} where
  -- Each task has its dependencies among the given ones and the tasks in front of it.
  abbrev pub Supported : List String → List (Task F) → Type 0
  Supported earlier [] = Unit
  Supported earlier (t ∷ ts) =
      All (λ d. elem d earlier ≡ true) t.dependencies × Supported (t.id ∷ earlier) ts

  -- A task whose dependencies are there may come last.
  Supported-last :
      (earlier : List String) (ts : List (Task F)) (t : Task F)
      → Supported earlier ts
      → All (λ d. elem d earlier || elem d (ids ts) ≡ true) t.dependencies
      → Supported earlier (ts ++ (t ∷ []))
  Supported-last earlier [] t s h = (
    All-mono (λ d. elem d earlier || false ≡ true) (λ d. elem d earlier ≡ true) t.dependencies
        (λ d k. ground (arith, k)) h,
    tt,
  )
  Supported-last earlier (u ∷ ts) t s h = (
    s.0,
    Supported-last (u.id ∷ earlier) ts t s.1 (
        All-mono (λ d. elem d earlier || elem d (ids (u ∷ ts)) ≡ true)
          (λ d. elem d (u.id ∷ earlier) || elem d (ids ts) ≡ true) t.dependencies
          (λ d k. ground (arith, k)) h),
  )

  -- What holds of a state: the visited ones are those of the order, and each has its dependencies in front.
  pub record IsOrder (s : Order F) : Type 0 where
    pub supported : Supported [] s.ordered
    pub same : (x : String) → elem x s.visited ≡ elem x (ids s.ordered)

  -- What a visit does: it keeps this and what is visited, and leaves its task visited.
  pub record Goes (wanted : List String) (s u : Order F) : Type 0 where
    pub order : IsOrder u
    pub kept : (x : String) → elem x s.visited ≡ true → elem x u.visited ≡ true
    pub there : All (λ x. elem x u.visited ≡ true) wanted

  abbrev Leads : List String → Order F → Visit F → Type 0
  Leads wanted s (reached u) = Goes wanted s u
  Leads wanted s _ = Unit

  -- A visit and then the others.
  then-Leads :
      (d : String) (ds : List String) (s u : Order F) (v : Visit F)
      → Goes (d ∷ []) s u
      → Leads ds u v
      → Leads (d ∷ ds) s v
  then-Leads d ds s u (reached w) h k = record {
    order = k.order;
    kept = λ x e. k.kept x (h.kept x e);
    there = (k.kept d h.there.0, k.there);
  }
  then-Leads d ds s u cycle h k = tt
  then-Leads d ds s u (key_error e) h k = tt
  then-Leads d ds s u out_of_fuel h k = tt

  after-Leads :
      (d : String) (ds : List String) (s : Order F) (v : Visit F) (f : Order F → Visit F)
      → Leads (d ∷ []) s v
      → ((u : Order F) → IsOrder u → Leads ds u (f u))
      → Leads (d ∷ ds) s (after v f)
  after-Leads d ds s (reached u) f h k = then-Leads d ds s u (f u) h (k u h.order)
  after-Leads d ds s cycle f h k = tt
  after-Leads d ds s (key_error e) f h k = tt
  after-Leads d ds s out_of_fuel f h k = tt

  visit_all-Leads :
      (f : String → Order F → Visit F) (ds : List String) (s : Order F)
      → ((d : String) (u : Order F) → IsOrder u → Leads (d ∷ []) u (f d u))
      → IsOrder s
      → Leads ds s (visit_all f ds s)
  unfolding visit_all
  visit_all-Leads f [] s h o = record { order = o; kept = λ x e. e; there = tt }
  visit_all-Leads f (d ∷ ds) s h o =
      after-Leads d ds s (f d s) (visit_all f ds) (h d s o) (λ u p. visit_all-Leads f ds u h p)

  get-id :
      (g : TaskGraph F) (task_id : String) (t : Task F) → get g task_id ≡ some t → t.id ≡ task_id
  unfolding get
  get-id [] task_id t e = absurd (cc e)
  get-id (u ∷ g) task_id t e = elim (Bool-cases (u.id ≟ task_id)) [
    | inl same ↦
        (let found : some u ≡ some t = rw same at e in
          let there : u ≡ t = cc found in ap (λ v. v.id) (sym there) ∙ (eq_iff u.id task_id).0 same)
    | inr other ↦ get-id g task_id t (rw other at e)
  ]

  elem-ids_last :
      (x : String) (ts : List (Task F)) (t : Task F)
      → elem x (ids (ts ++ (t ∷ []))) ≡ (x ≟ t.id) || elem x (ids ts)
  elem-ids_last x [] t = refl
  elem-ids_last x (u ∷ ts) t = ground (arith, elem-ids_last x ts t)

  -- A task that is closed behind its dependencies.
  close-Goes :
      (task_id : String) (t : Task F) (s u : Order F)
      → t.id ≡ task_id
      → Goes t.dependencies s u
      → Leads (task_id ∷ []) s (close task_id t u)
  unfolding close
  close-Goes task_id t s u e h = record {
    order = record {
      supported = Supported-last [] u.ordered t h.order.supported (
          All-mono (λ d. elem d u.visited ≡ true) (λ d. elem d (ids u.ordered) ≡ true)
            t.dependencies (λ d k. sym (h.order.same d) ∙ k) h.there);
      same = λ x. ground (arith, h.order.same x, elem-ids_last x u.ordered t, e);
    };
    kept = λ x k. ground (arith, h.kept x k);
    there = (ground (arith, eq_refl task_id), tt);
  }

  closes :
      (task_id : String) (t : Task F) (s : Order F) (v : Visit F)
      → t.id ≡ task_id
      → Leads t.dependencies s v
      → Leads (task_id ∷ []) s (after v (close task_id t))
  closes task_id t s (reached u) e h = close-Goes task_id t s u e h
  closes task_id t s cycle e h = tt
  closes task_id t s (key_error k) e h = tt
  closes task_id t s out_of_fuel e h = tt

  -- What is open does not matter.
  opened-Leads :
      (ds : List String) (s : Order F) (temp : List String) (v : Visit F)
      → Leads ds (record s { temp = temp }) v
      → Leads ds s v
  opened-Leads ds s temp (reached u) h = record { order = h.order; kept = h.kept; there = h.there }
  opened-Leads ds s temp cycle h = tt
  opened-Leads ds s temp (key_error e) h = tt
  opened-Leads ds s temp out_of_fuel h = tt

  enter-Leads :
      (f : String → Order F → Visit F) (task_id : String) (o : Option (Task F)) (s : Order F)
      → ((d : String) (u : Order F) → IsOrder u → Leads (d ∷ []) u (f d u))
      → ((t : Task F) → o ≡ some t → t.id ≡ task_id)
      → IsOrder s
      → Leads (task_id ∷ []) s (enter f task_id o s)
  unfolding enter
  enter-Leads f task_id none s h e k = tt
  enter-Leads f task_id (some t) s h e k =
      closes task_id t s (visit_all f t.dependencies (record s { temp = task_id ∷ s.temp }))
        (e t refl)
        (opened-Leads t.dependencies s (task_id ∷ s.temp)
          (visit_all f t.dependencies (record s { temp = task_id ∷ s.temp }))
          (visit_all-Leads f t.dependencies (record s { temp = task_id ∷ s.temp }) h
            (record { supported = k.supported; same = k.same })))

  visit-Leads :
      (fuel : ℕ) (g : TaskGraph F) (task_id : String) (s : Order F)
      → IsOrder s
      → Leads (task_id ∷ []) s (visit fuel g task_id s)
  unfolding visit
  visit-Leads zero g task_id s k = tt
  visit-Leads (suc fuel) g task_id s k = elim (Bool-cases (elem task_id s.visited)) [
    | inl e ↦ rw (e, Leads) (record { order = k; kept = λ x h. h; there = (e, tt) })
    | inr e ↦ rw e (elim (Bool-cases (elem task_id s.temp)) [
      | inl open_ ↦ rw (open_, Leads) tt
      | inr closed ↦ rw closed (
          enter-Leads (visit fuel g) task_id (get g task_id) s (visit-Leads fuel g)
            (get-id g task_id) k)
    ])
  ]

  -- What the order of a graph promises.
  abbrev pub Ordered : TaskGraph F → Visit F → Type 0
  Ordered g (reached s) = Supported [] s.ordered × All (λ x. elem x (ids s.ordered) ≡ true) (ids g)
  Ordered g _ = Unit

  Leads-Ordered : (g : TaskGraph F) (s : Order F) (v : Visit F) → Leads (ids g) s v → Ordered g v
  Leads-Ordered g s (reached u) h = (
    h.order.supported,
    All-mono (λ x. elem x u.visited ≡ true) (λ x. elem x (ids u.ordered) ≡ true) (ids g)
        (λ x k. sym (h.order.same x) ∙ k) h.there,
  )
  Leads-Ordered g s cycle h = tt
  Leads-Ordered g s (key_error e) h = tt
  Leads-Ordered g s out_of_fuel h = tt

  -- Where a graph has an order, each task stands in it behind all its dependencies, and every task of the
  -- graph stands in it.
  pub topological_order-Ordered : (g : TaskGraph F) → Ordered g (topological_order g)
  unfolding topological_order
  topological_order-Ordered g =
      let start : Order F = record { ordered = []; visited = []; temp = [] } in
      Leads-Ordered g start (visit_all (visit (suc (length g)) g) (ids g) start) (
        visit_all-Leads (visit (suc (length g)) g) (ids g) start (visit-Leads (suc (length g)) g)
          (record { supported = tt; same = λ x. refl }))
