-- ===== src/Tasks/Executor/Open.antt =====
-- The tasks that can still be started, and how changes of the graph count on them.
use aa.Prelude.{
  ℕ, ◌≤◌, ◌<◌, [], ◌∷◌, String, Bool, true, false, Option, none, some, ◌≡◌, arith, ◌⊎◌, inl, inr,
  sum_by, if◌then◌else◌, Bool-cases,
}
use aa.Prelude.Text.{◌≟◌}
use aa.Tasks.Task.{TaskStatus, Task, is_open}
use aa.Tasks.Graph.{TaskGraph, get, change_task, set_status}

module _ {F : Type 0} where
  -- 1 for a task that can still be started.
  abbrev pub weight : Task F → ℕ
  weight t = if is_open t.status then 1 else 0

  -- How many tasks can still be started.
  abbrev pub opens : TaskGraph F → ℕ
  opens g = sum_by weight g

  unfoldable pub open_of : Option (Task F) → Bool
  open_of none = false
  open_of (some t) = is_open t.status

  -- The task under a key can still be started.
  unfoldable pub open_at : TaskGraph F → String → Bool
  unfolding open_of get
  open_at g i = open_of (get g i)

  -- A change that opens no task opens none in the graph; it closes the one that it closes.
  pub change-opens :
      (i : String) (f : Task F → Task F) (g : TaskGraph F)
      → ((t : Task F) → weight (f t) ≤ weight t)
      → opens (change_task i f g) ≤ opens g
  unfolding change_task
  change-opens i f [] h = omega arith
  change-opens i f (t ∷ ts) h = ground (arith, change-opens i f ts h, h t)

  pub close-opens :
      (i : String) (f : Task F → Task F) (g : TaskGraph F)
      → ((t : Task F) → is_open (f t).status ≡ false)
      → open_at g i ≡ true
      → opens (change_task i f g) < opens g
  unfolding change_task open_at
  close-opens i f [] h k = absurd (cc k)
  close-opens i f (t ∷ ts) h k = elim (Bool-cases (t.id ≟ i)) [
    | inl here ↦ rw here (ground (arith, h t, rw here at k))
    | inr there ↦ rw there (omega (arith, close-opens i f ts h (rw there at k)))
  ]

  -- From `g` to `h` fewer tasks can be started, or no more, and each that could be still can.
  unfoldable pub Persists : TaskGraph F → TaskGraph F → Type 0
  Persists g h =
      (opens h < opens g)
      ⊎ ((opens h ≤ opens g) × ((j : String) → open_at g j ≡ true → open_at h j ≡ true))

  -- A change of an open task to a status that is open persists.
  pub reopen-opens :
      (i : String) (s : TaskStatus) (g : TaskGraph F)
      → is_open s ≡ true
      → open_at g i ≡ true
      → opens (change_task i (set_status s) g) ≤ opens g
  unfolding change_task open_at
  reopen-opens i s [] h k = absurd (cc k)
  reopen-opens i s (t ∷ ts) h k = elim (Bool-cases (t.id ≟ i)) [
    | inl here ↦ rw here (ground (arith, h, rw here at k))
    | inr there ↦ rw there (omega (arith, reopen-opens i s ts h (rw there at k)))
  ]

  pub reopen-open_at :
      (i : String) (s : TaskStatus) (g : TaskGraph F) (j : String)
      → is_open s ≡ true
      → open_at g j ≡ true
      → open_at (change_task i (set_status s) g) j ≡ true
  unfolding change_task open_at
  reopen-open_at i s [] j h k = k
  reopen-open_at i s (t ∷ ts) j h k = elim (Bool-cases (t.id ≟ i)) [
    | inl here ↦ elim (Bool-cases (t.id ≟ j)) [
      | inl same ↦ rw (here, same) h
      | inr other ↦ rw (here, other) (rw other at k)
    ]
    | inr there ↦ elim (Bool-cases (t.id ≟ j)) [
      | inl same ↦ rw (there, same) (rw same at k)
      | inr other ↦ rw (there, other) (reopen-open_at i s ts j h (rw other at k))
    ]
  ]

  pub Persists-refl : (g : TaskGraph F) → Persists g g
  unfolding Persists
  Persists-refl g = inr (omega arith, λ j k. k)

  pub Persists-le : (g h : TaskGraph F) → Persists g h → opens h ≤ opens g
  unfolding Persists
  Persists-le g h (inl less) = omega (arith, less)
  Persists-le g h (inr (same, k)) = same

  pub Persists-trans : (g h l : TaskGraph F) → Persists g h → Persists h l → Persists g l
  unfolding Persists
  Persists-trans g h l (inl less) q = inl (omega (arith, less, Persists-le h l q))
  Persists-trans g h l (inr p) (inl less) = inl (omega (arith, less, p.0))
  Persists-trans g h l (inr p) (inr q) = inr (omega (arith, p.0, q.0), λ j k. q.1 j (p.1 j k))
