-- ===== src/Tasks/Executor/Ending.antt =====
-- The end of an execution of sifter/src/aa_sifter/tasks/executor.py.
use aa.Prelude.{
  ℕ, zero, suc, ◌+◌, ◌≤◌, ◌<◌, List, [], ◌∷◌, String, Bool, true, false, not, ◌&&◌, Option, none,
  some, ◌≡◌, refl, arith, inl, inr, Bool-cases, Option-cases, map, is_empty, if◌then◌else◌,
}
use aa.Tasks.Task.{skipped, running, Task, is_open, is_pending}
use aa.Tasks.Graph.{
  TaskGraph, get, change_task, set_status, ready_tasks, any_lost, skip_if, invalidate,
  invalidate_from, invalidate_dependencies, has_pending,
}
use aa.Tasks.Executor.{
  Verdict, returned, approval_required, raised, Worker, Execution, ended, key_error, cut_short,
  settle, run_one, run_all, execute,
}
use aa.Tasks.Executor.Open.{weight, opens, Persists, change-opens, close-opens, Persists-le}
use aa.Tasks.Executor.Rounds.{HeadOk, ReadyOk, ready_from-Ok}

-- The execution was cut short by the rounds that it was given.
abbrev pub is_cut_short : {F : Type 0} → Execution F → Bool
is_cut_short (ended g) = false
is_cut_short key_error = false
is_cut_short (cut_short g) = true

module _ {F : Type 0} where
  -- Rest of a round, where it does not fail.
  Within : TaskGraph F → Option (TaskGraph F) → Type 0
  Within g none = Unit
  Within g (some h) = opens h ≤ opens g

  skip_if-Within : (i : String) (g : TaskGraph F) (lost : Option Bool) → Within g (skip_if i lost g)
  unfolding Within skip_if
  skip_if-Within i g none = tt
  skip_if-Within i g (some false) = omega arith
  skip_if-Within i g (some true) = change-opens i (set_status skipped) g (λ t. ground arith)

  considered-Within :
      (i : String) (g : TaskGraph F) (b : Bool) (lost : Option Bool)
      → Within g (if b then skip_if i lost g else some g)
  unfolding Within
  considered-Within i g true lost = skip_if-Within i g lost
  considered-Within i g false lost = omega arith

  invalidate-Within : (i : String) (g : TaskGraph F) → Within g (invalidate i g)
  unfolding Within invalidate
  invalidate-Within i g = elim (Option-cases (get g i)) [
    | inl missing ↦ rw (missing, invalidate) (omega arith)
    | inr (t, found) ↦
        rw (found, invalidate)
          (considered-Within i g (is_pending t.status && not (is_empty t.dependencies))
            (any_lost g t.dependencies))
  ]

  then-Within :
      (g h : TaskGraph F) (r : Option (TaskGraph F)) → opens h ≤ opens g → Within h r → Within g r
  unfolding Within
  then-Within g h none p q = tt
  then-Within g h (some l) p q = omega (arith, p, q)

  invalidate_from-Within : (is : List String) (g : TaskGraph F) → Within g (invalidate_from is g)
  unfolding Within invalidate_from
  invalidate_from-Within [] g = omega arith
  invalidate_from-Within (i ∷ is) g = elim (Option-cases (invalidate i g)) [
    | inl failed ↦ rw (failed, invalidate_from) tt
    | inr (h, next) ↦
        let less : Within g (some h) = rw next at (invalidate-Within i g) in
        rw (next, invalidate_from)
          (then-Within g h (invalidate_from is h) (unfold Within in less)
            (invalidate_from-Within is h))
  ]

  module _ (worker : Worker F) (closes : (t : Task F) → is_open (worker t).0.status ≡ false) where
    settle-closes :
        (t : Task F) (v : Verdict) → is_open t.status ≡ false → is_open (settle t v).status ≡ false
    unfolding settle
    settle-closes t returned h = ground (arith, h)
    settle-closes t (approval_required reason) h = refl
    settle-closes t (raised error) h = refl

    run_one-closes : (t : Task F) → is_open (run_one worker t).status ≡ false
    unfolding run_one
    run_one-closes t =
        let r = worker (record t { status = running; attempt_count = t.attempt_count + 1 }) in
        settle-closes r.0 r.1
          (closes (record t { status = running; attempt_count = t.attempt_count + 1 }))

    run_one-weight : (t : Task F) → weight (run_one worker t) ≤ weight t
    run_one-weight t = rw (run_one-closes t) (omega arith)

    run_all-opens : (is : List String) (g : TaskGraph F) → opens (run_all worker is g) ≤ opens g
    unfolding run_all
    run_all-opens [] g = omega arith
    run_all-opens (i ∷ is) g = omega (
      arith,
      run_all-opens is (change_task i (run_one worker) g),
      change-opens i (run_one worker) g run_one-weight,
    )

    run_ready-opens :
        (i : String) (is : List String) (g h : TaskGraph F)
        → Persists g h
        → HeadOk (i ∷ is) g h
        → opens (run_all worker (i ∷ is) h) < opens g
    unfolding run_all HeadOk
    run_ready-opens i is g h p (inl less) = omega (arith, less, run_all-opens (i ∷ is) h)
    run_ready-opens i is g h p (inr at) = omega (
      arith,
      run_all-opens is (change_task i (run_one worker) h),
      close-opens i (run_one worker) h run_one-closes at,
      Persists-le g h p,
    )

    -- Given enough rounds, an execution is not cut short: it ends with a graph or in a `KeyError`.
    Ends : ℕ → TaskGraph F → Type 0
    Ends rounds g = is_cut_short (execute worker rounds g) ≡ false

    next-Ends :
        (rounds : ℕ) (g : TaskGraph F) (r : Option (TaskGraph F))
        → ((h : TaskGraph F) → opens h < rounds → Ends rounds h)
        → opens g < rounds
        → Within g r
        → is_cut_short (elim r [ none ↦ key_error | some next ↦ execute worker rounds next ])
          ≡ false
    unfolding Within Ends
    next-Ends rounds g none k h w = refl
    next-Ends rounds g (some next) k h w = k next (omega (arith, h, w))

    ready-Ends :
        (rounds : ℕ) (g : TaskGraph F) (r : Option (List String × TaskGraph F))
        → ((h : TaskGraph F) → opens h < rounds → Ends rounds h)
        → opens g ≤ rounds
        → ReadyOk g r
        → is_cut_short (elim r [
          | none ↦ key_error
          | some ([], g') ↦ ended g'
          | some (i ∷ is, g') ↦ elim (invalidate_dependencies (run_all worker (i ∷ is) g')) [
            | none ↦ key_error
            | some next ↦ execute worker rounds next
          ]
        ])
          ≡ false
    unfolding ReadyOk invalidate_dependencies
    ready-Ends rounds g none k h w = refl
    ready-Ends rounds g (some ([], l)) k h w = refl
    ready-Ends rounds g (some (i ∷ is, l)) k h w =
        let worked = run_all worker (i ∷ is) l in
        next-Ends rounds worked (invalidate_from (map (λ (t : Task F). t.id) worked) worked) k
          (omega (arith, h, run_ready-opens i is g l w.0 w.1))
          (invalidate_from-Within (map (λ (t : Task F). t.id) worked) worked)

    rounds-end : (rounds : ℕ) (g : TaskGraph F) → opens g < rounds → Ends rounds g
    unfolding Ends execute ready_tasks
    rounds-end zero g h = absurd (omega (arith, h))
    rounds-end (suc rounds) g h = elim (Bool-cases (not (has_pending g))) [
      | inl over ↦ rw (over, execute) refl
      | inr more ↦
          rw (more, execute)
            (ready-Ends rounds g (ready_tasks g) (λ l k. rounds-end rounds l k) (omega (arith, h))
              (ready_from-Ok (map (λ (t : Task F). t.id) g) g))
    ]

-- Where a worker leaves no task pending or ready, an execution ends, with a graph or in a `KeyError`, within
-- one round more than there are pending and ready tasks.
pub execute-ends :
    {F : Type 0} (worker : Worker F) (closes : (t : Task F) → is_open (worker t).0.status ≡ false)
    (g : TaskGraph F)
    → is_cut_short (execute worker (opens g + 1) g) ≡ false
execute-ends worker closes g = unfold Ends in rounds-end worker closes (opens g + 1) g (omega arith)
