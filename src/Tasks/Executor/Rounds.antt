-- ===== src/Tasks/Executor/Rounds.antt =====
-- What a round of `ready_tasks` leaves to be started.
use aa.Prelude.{
  ◌≤◌, ◌<◌, List, [], ◌∷◌, String, Bool, true, false, Option, none, some, ◌≡◌, refl, arith, ◌⊎◌,
  inl, inr, if◌then◌else◌, Bool-cases, Option-cases, any,
}
use aa.Tasks.Task.{TaskStatus, skipped, Task, is_open, is_lost}
use aa.Tasks.Graph.{
  TaskGraph, get, set_status, statuses, readiness, judge, visit, collect, ready_from,
}
use aa.Tasks.Executor.Open.{
  opens, open_of, open_at, Persists, close-opens, reopen-opens, reopen-open_at, Persists-refl,
  Persists-le, Persists-trans,
}

readiness-cases :
    (status : TaskStatus) (dependencies : List TaskStatus)
    → is_open status ≡ true
    → (readiness status dependencies ≡ (skipped, false))
      ⊎ (is_open (readiness status dependencies).0 ≡ true)
unfolding readiness
readiness-cases status dependencies h = elim (Bool-cases (any is_lost dependencies)) [
  | inl lost ↦ rw lost (inl refl)
  | inr kept ↦ inr (ground (arith, h, kept))
]

module _ {F : Type 0} where
  -- What a visit leaves: a task that is called ready can be started.
  VisitOk : String → TaskGraph F → Option (Bool × TaskGraph F) → Type 0
  VisitOk i g none = Unit
  VisitOk i g (some (flag, h)) = Persists g h × ((flag ≡ false) ⊎ (open_at h i ≡ true))

  judge-Ok :
      (i : String) (g : TaskGraph F) (t : Task F) (found : Option (List TaskStatus))
      → is_open t.status ≡ true
      → open_at g i ≡ true
      → VisitOk i g (judge i g t found)
  unfolding judge VisitOk Persists
  judge-Ok i g t none h k = tt
  judge-Ok i g t (some dependencies) h k = elim (readiness-cases t.status dependencies h) [
    | inl lost ↦ rw lost (inl (close-opens i (set_status skipped) g (λ u. refl) k), inl refl)
    | inr kept ↦
        let s = (readiness t.status dependencies).0 in
        (
          inr (reopen-opens i s g kept k, λ j l. reopen-open_at i s g j kept l),
          inr (reopen-open_at i s g i kept k),
        )
  ]

  visited-Ok :
      (i : String) (g : TaskGraph F) (t : Task F) (b : Bool)
      → is_open t.status ≡ b
      → get g i ≡ some t
      → VisitOk i g (if b then judge i g t (statuses g t.dependencies) else some (false, g))
  unfolding VisitOk open_at open_of
  visited-Ok i g t true h k = judge-Ok i g t (statuses g t.dependencies) h (rw k h)
  visited-Ok i g t false h k = (Persists-refl g, inl refl)

  visit-Ok : (i : String) (g : TaskGraph F) → VisitOk i g (visit i g)
  unfolding visit VisitOk
  visit-Ok i g = elim (Option-cases (get g i)) [
    | inl missing ↦ rw (missing, visit) (Persists-refl g, inl refl)
    | inr (t, found) ↦ rw (found, visit) (visited-Ok i g t (is_open t.status) refl found)
  ]

  -- The first ready task can be started, unless another was closed.
  unfoldable pub HeadOk : List String → TaskGraph F → TaskGraph F → Type 0
  HeadOk [] g h = Unit
  HeadOk (i ∷ is) g h = (opens h < opens g) ⊎ (open_at h i ≡ true)

  unfoldable pub ReadyOk : TaskGraph F → Option (List String × TaskGraph F) → Type 0
  ReadyOk g none = Unit
  ReadyOk g (some (ids, h)) = Persists g h × HeadOk ids g h

  later-Head :
      (ids : List String) (g h l : TaskGraph F)
      → opens h ≤ opens g
      → HeadOk ids h l
      → HeadOk ids g l
  unfolding HeadOk
  later-Head [] g h l p q = tt
  later-Head (i ∷ is) g h l p (inl less) = inl (omega (arith, p, less))
  later-Head (i ∷ is) g h l p (inr at) = inr at

  first-Head :
      (i : String) (ids : List String) (g h l : TaskGraph F)
      → opens h ≤ opens g
      → open_at h i ≡ true
      → Persists h l
      → HeadOk (i ∷ ids) g l
  unfolding HeadOk Persists
  first-Head i ids g h l p k (inl less) = inl (omega (arith, p, less))
  first-Head i ids g h l p k (inr q) = inr (q.1 i k)

  collect-Ok :
      (i : String) (flag : Bool) (g h : TaskGraph F) (r : Option (List String × TaskGraph F))
      → Persists g h
      → (flag ≡ false) ⊎ (open_at h i ≡ true)
      → ReadyOk h r
      → ReadyOk g (collect i flag r)
  unfolding collect ReadyOk
  collect-Ok i flag g h none p q r = tt
  collect-Ok i false g h (some (ids, l)) p q r =
      (Persists-trans g h l p r.0, later-Head ids g h l (Persists-le g h p) r.1)
  collect-Ok i true g h (some (ids, l)) p (inl never) r = absurd (cc never)
  collect-Ok i true g h (some (ids, l)) p (inr at) r =
      (Persists-trans g h l p r.0, first-Head i ids g h l (Persists-le g h p) at r.0)

  pub ready_from-Ok : (is : List String) (g : TaskGraph F) → ReadyOk g (ready_from is g)
  unfolding ready_from ReadyOk HeadOk
  ready_from-Ok [] g = (Persists-refl g, tt)
  ready_from-Ok (i ∷ is) g = elim (Option-cases (visit i g)) [
    | inl failed ↦ rw (failed, ready_from) tt
    | inr ((flag, h), seen) ↦
        rw (seen, ready_from)
          (let ok : VisitOk i g (some (flag, h)) = rw seen at (visit-Ok i g) in
            collect-Ok i flag g h (ready_from is h) (unfold VisitOk in ok.0)
              (unfold VisitOk in ok.1) (ready_from-Ok is h))
  ]
