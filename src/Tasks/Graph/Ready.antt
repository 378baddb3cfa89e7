-- ===== src/Tasks/Graph/Ready.antt =====
-- What `ready_tasks` promises of the tasks that it names.
use aa.Prelude.{
  List, [], ◌∷◌, String, Bool, true, false, not, Option, none, some, ◌≡◌, refl, arith, ◌⊎◌, inl,
  inr, if◌then◌else◌, Bool-cases, Option-cases, map, any, All,
}
use aa.Tasks.Task.{TaskStatus, Task, is_open, is_lost, is_done}
use aa.Tasks.Graph.{
  TaskGraph, get, change_task, set_status, statuses, readiness, judge, visit, collect, ready_from,
  ready_tasks,
}
use aa.Tasks.Graph.Support.{
  status_is, dependencies_of, done_at, Supported, Extends, Extends-refl, Extends-trans,
  Extends-Supported, change-Extends,
}

open-not_done : (s : TaskStatus) → is_open s ≡ true → is_done s ≡ false
open-not_done s h = ground arith

waiting :
    (status : TaskStatus) (found : List TaskStatus)
    → any (λ s. not (is_done s)) found ≡ true
    → (readiness status found).1 ≡ false
unfolding readiness
waiting status found h = elim (Bool-cases (any is_lost found)) [
  | inl lost ↦ rw lost refl
  | inr kept ↦ rw (kept, h) refl
]

module _ {F : Type 0} where
  -- The statuses that were read are those of the dependencies.
  ReadOk : TaskGraph F → List String → Option (List TaskStatus) → Type 0
  ReadOk g ds none = Unit
  ReadOk g ds (some found) =
      any (λ s. not (is_done s)) found ≡ false → All (λ d. done_at g d ≡ true) ds

  statuses-Ok : (g : TaskGraph F) (ds : List String) → ReadOk g ds (statuses g ds)
  unfolding statuses ReadOk status_is
  statuses-Ok g [] = λ k. tt
  statuses-Ok g (d ∷ ds) = elim (Option-cases (get g d)) [
    | inl missing ↦ rw (missing, statuses) tt
    | inr (t, here) ↦ elim (Option-cases (statuses g ds)) [
      | inl failed ↦ rw (here, failed, statuses) tt
      | inr (found, rest) ↦
          let ok : (any (λ s. not (is_done s)) found ≡ false → All (λ d. done_at g d ≡ true) ds) =
            rw rest at (statuses-Ok g ds) in
          rw (here, rest, statuses) (λ k. (ground (arith, k), ok (ground (arith, k))))
    ]
  ]

  VisitOk : String → TaskGraph F → Option (Bool × TaskGraph F) → Type 0
  VisitOk i g none = Unit
  VisitOk i g (some (flag, h)) = Extends g h × ((flag ≡ false) ⊎ Supported h i)

  judge-Ok :
      (i : String) (g : TaskGraph F) (t : Task F) (found : Option (List TaskStatus))
      → get g i ≡ some t
      → is_open t.status ≡ true
      → ReadOk g t.dependencies found
      → VisitOk i g (judge i g t found)
  unfolding judge VisitOk ReadOk status_is
  judge-Ok i g t none e h r = tt
  judge-Ok i g t (some found) e h r =
      let s = (readiness t.status found).0 in
      let closed : done_at g i ≡ false = rw (e, status_is) (open-not_done t.status h) in
      let extends = change-Extends i s g closed in
      (
        extends,
        elim (Bool-cases (any (λ s. not (is_done s)) found)) [
          | inl waits ↦ inl (waiting t.status found waits)
          | inr done ↦ inr (
              Extends-Supported g (change_task i (set_status s) g) i extends
                (unfold Supported in rw (e, dependencies_of) (r done)))
        ],
      )

  visited-Ok :
      (i : String) (g : TaskGraph F) (t : Task F) (b : Bool)
      → is_open t.status ≡ b
      → get g i ≡ some t
      → VisitOk i g (if b then judge i g t (statuses g t.dependencies) else some (false, g))
  unfolding VisitOk
  visited-Ok i g t true h e =
      judge-Ok i g t (statuses g t.dependencies) e h (statuses-Ok g t.dependencies)
  visited-Ok i g t false h e = (Extends-refl g, inl refl)

  visit-Ok : (i : String) (g : TaskGraph F) → VisitOk i g (visit i g)
  unfolding visit VisitOk
  visit-Ok i g = elim (Option-cases (get g i)) [
    | inl missing ↦ rw (missing, visit) (Extends-refl g, inl refl)
    | inr (t, found) ↦ rw (found, visit) (visited-Ok i g t (is_open t.status) refl found)
  ]

  -- What `ready_tasks` returns, where it does not fail: the tasks that it names are supported.
  abbrev pub NamesSupported : Option (List String × TaskGraph F) → Type 0
  NamesSupported none = Unit
  NamesSupported (some (ids, h)) = All (Supported h) ids

  ReadyOk : TaskGraph F → Option (List String × TaskGraph F) → Type 0
  ReadyOk g none = Unit
  ReadyOk g (some (ids, h)) = Extends g h × All (Supported h) ids

  collect-Ok :
      (i : String) (flag : Bool) (g h : TaskGraph F) (r : Option (List String × TaskGraph F))
      → Extends g h
      → (flag ≡ false) ⊎ Supported h i
      → ReadyOk h r
      → ReadyOk g (collect i flag r)
  unfolding collect ReadyOk
  collect-Ok i flag g h none p q r = tt
  collect-Ok i false g h (some (ids, l)) p q r = (Extends-trans g h l p r.0, r.1)
  collect-Ok i true g h (some (ids, l)) p (inl never) r = absurd (cc never)
  collect-Ok i true g h (some (ids, l)) p (inr at) r =
      (Extends-trans g h l p r.0, (Extends-Supported h l i r.0 at, r.1))

  ready_from-Ok : (is : List String) (g : TaskGraph F) → ReadyOk g (ready_from is g)
  unfolding ready_from ReadyOk
  ready_from-Ok [] g = (Extends-refl g, tt)
  ready_from-Ok (i ∷ is) g = elim (Option-cases (visit i g)) [
    | inl failed ↦ rw (failed, ready_from) tt
    | inr ((flag, h), seen) ↦
        rw (seen, ready_from)
          (let ok : VisitOk i g (some (flag, h)) = rw seen at (visit-Ok i g) in
            collect-Ok i flag g h (ready_from is h) (unfold VisitOk in ok.0)
              (unfold VisitOk in ok.1) (ready_from-Ok is h))
  ]

  names :
      (g : TaskGraph F) (r : Option (List String × TaskGraph F)) → ReadyOk g r → NamesSupported r
  unfolding ReadyOk
  names g none h = tt
  names g (some (ids, l)) h = h.1

  -- Where `ready_tasks` returns, each task that it names has, in the graph that it leaves, only dependencies that are tasks
  -- of the graph and done.
  pub ready_tasks-NamesSupported : (g : TaskGraph F) → NamesSupported (ready_tasks g)
  unfolding ready_tasks
  ready_tasks-NamesSupported g =
      let keys = map (λ (t : Task F). t.id) g in names g (ready_from keys g) (ready_from-Ok keys g)
