-- ===== src/Desktop/Task/Lifecycle.antt =====
-- The lifecycle of a task of sifter/src/aa_sifter/desktop/service.py as an automaton over what its record shows,
-- and that the detailed steps implement it.
use aa.Prelude.{
  List, [], ◌∷◌, ◌++◌, String, Bool, true, false, not, ◌&&◌, ◌||◌, Option, none, some,
  if◌then◌else◌, ◌≡◌, refl, sym, ◌∙◌, ap, inl, inr, Bool-cases, ◌==◌,
}
use aa.Prelude.Text.{◌≟◌}
use aa.Desktop.Record.{TaskRecord, EventData, terminal, emit, status_is}
use aa.Desktop.Task.{
  Phase, scheduled, working, asking, stopping, ended, Callback, given, cancellation, Task, begin,
  ask, resume, complete, cancelled, failed, finish, delivered,
}
use aa.Desktop.Task.Steps.{
  Step, begins, reports, asks, resumes, returns, raises, answers, delivers, cancels, interrupts,
  step, steps, and_then, answered, deliver, cancel_task, interrupt, left, question_of, is_decided,
  is_ended, is_working, is_scheduled,
}

pub data Life : Type 0 where
  queued running waiting over : Life

-- The state that a client reads off a record.
abbrev pub life_as : {F : Type 0} → Option F → String → Life
life_as (some finished) status = over
life_as none status =
    if status ≟ "running" then running else if status ≟ "waiting_approval" then waiting else queued

abbrev pub life : {F : Type 0} → TaskRecord F → Life
life r = life_as r.finished_at r.status

-- What follows an edge that the diagram has.
abbrev pub and_next : Option Life → (Life → Option Life) → Option Life
and_next none f = none
and_next (some l) f = f l

module _ {F : Type 0} where
  -- The automaton: what each step makes of the state, or none where the diagram has no such edge. Calls of
  -- clients and the loop's deliveries do not change it; a cancelled coroutine goes to its end.
  unfoldable pub next : Step F → Life → Option Life
  next begins queued = some running
  next (reports event content) running = some running
  next (asks request) running = some waiting
  next resumes waiting = some running
  next (returns result) running = some over
  next (raises message) running = some over
  next interrupts running = some over
  next interrupts waiting = some over
  next (answers decision) waiting = some waiting
  next delivers l = some l
  next cancels l = some l
  next s l = none

  unfoldable pub nexts : List (F × Step F) → Life → Option Life
  unfolding next
  nexts [] l = some l
  nexts ((now, s) ∷ rest) l = and_next (next s l) (nexts rest)

  -- What a record shows in each phase, of its status and its time at the end.
  abbrev pub Matches : Phase → TaskRecord F → Type 0
  Matches scheduled r = (r.status ≡ "queued") × (r.finished_at ≡ none)
  Matches working r = (r.status ≡ "running") × (r.finished_at ≡ none)
  Matches (asking n future) r = (r.status ≡ "waiting_approval") × (r.finished_at ≡ none)
  Matches (stopping none) r = (r.status ≡ "running") × (r.finished_at ≡ none)
  Matches (stopping (some n)) r = (r.status ≡ "waiting_approval") × (r.finished_at ≡ none)
  Matches ended r = Unit

  -- A step that happens follows its edge from this state, and leads to a record that shows its phase.
  abbrev pub Follows : Option Life → Option (Task F) → Type 0
  Follows l none = Unit
  Follows l (some t) = (l ≡ some (life t.record_)) × Matches t.phase t.record_

  delivered-Matches :
      (c : Callback) (p : Phase) (r : TaskRecord F) → Matches p r → Matches (delivered c p) r
  unfolding delivered
  delivered-Matches (given n d) (asking q future) r h = elim (Bool-cases (n == q)) [
    | inl e ↦ rw e h
    | inr e ↦ rw e h
  ]
  delivered-Matches (given n d) scheduled r h = h
  delivered-Matches (given n d) working r h = h
  delivered-Matches (given n d) (stopping q) r h = h
  delivered-Matches (given n d) ended r h = tt
  delivered-Matches cancellation scheduled r h = tt
  delivered-Matches cancellation working r h = h
  delivered-Matches cancellation (asking q future) r h = h
  delivered-Matches cancellation (stopping q) r h = h
  delivered-Matches cancellation ended r h = tt

  deliver-Follows :
      (cs : List Callback) (t : Task F)
      → Matches t.phase t.record_
      → Follows (some (life t.record_)) (deliver cs t)
  unfolding deliver
  deliver-Follows [] t h = tt
  deliver-Follows (c ∷ cs) t h = (refl, delivered-Matches c t.phase t.record_ h)

  emit-Matches :
      (now : F) (event : String) (content : EventData) (p : Phase) (r : TaskRecord F)
      → Matches p r
      → Matches p (emit now event content r)
  unfolding emit
  emit-Matches now event content scheduled r h = h
  emit-Matches now event content working r h = h
  emit-Matches now event content (asking n future) r h = h
  emit-Matches now event content (stopping none) r h = h
  emit-Matches now event content (stopping (some n)) r h = h
  emit-Matches now event content ended r h = tt

  unless-Follows :
      (b : Bool) (l : Option Life) (t : Task F)
      → Follows l (some t)
      → Follows l (if b then none else some t)
  unless-Follows true l t h = tt
  unless-Follows false l t h = h

  cancel_task-Follows :
      (now : F) (t : Task F)
      → Matches t.phase t.record_
      → Follows (some (life t.record_)) (cancel_task now t)
  unfolding cancel_task terminal emit
  cancel_task-Follows now t h =
      unless-Follows (terminal t.record_) (some (life t.record_))
        (record t {
          record_ = emit now "status" (status_is "cancelling") t.record_;
          callbacks =
              if not (is_ended t.phase) && not t.cancelling
              then t.callbacks ++ (cancellation ∷ [])
              else t.callbacks;
          cancelling = t.cancelling || not (is_ended t.phase);
        })
        (refl, emit-Matches now "status" (status_is "cancelling") t.phase t.record_ h)

  resume-Matches :
      (now : F) (r : TaskRecord F) → Matches (asking 0 none) r → Matches working (resume now r)
  unfolding resume terminal emit
  resume-Matches now r h = rw h.0 (refl, h.1)

  -- The state of a record that shows its phase.
  life-working : (r : TaskRecord F) → Matches working r → life r ≡ running
  life-working r h = rw (h.0, h.1) refl

  life-asking : (r : TaskRecord F) → Matches (asking 0 none) r → life r ≡ waiting
  life-asking r h = rw (h.0, h.1) refl

  life-scheduled : (r : TaskRecord F) → Matches scheduled r → life r ≡ queued
  life-scheduled r h = rw (h.0, h.1) refl

  step-Follows :
      (now : F) (s : Step F) (p : Phase) (t : Task F)
      → Matches p t.record_
      → Follows (next s (life t.record_)) (step now s (record t { phase = p }))
  unfolding step next begin ask complete failed finish emit answered question_of interrupt left
      cancelled is_working is_scheduled is_decided
  step-Follows now begins scheduled t h =
      (ap (next begins) (life-scheduled t.record_ h) ∙ rw h.1 refl, (refl, h.1))
  step-Follows now (reports event content) working t h = (rw (life-working t.record_ h) refl, h)
  step-Follows now (asks request) working t h =
      (ap (next (asks request)) (life-working t.record_ h) ∙ rw h.1 refl, (refl, h.1))
  step-Follows now (returns result) working t h =
      (ap (next (returns result)) (life-working t.record_ h), tt)
  step-Follows now (raises message) working t h =
      (ap (next (raises message)) (life-working t.record_ h), tt)
  step-Follows now resumes (asking n (some d)) t h = (
    ap (next resumes) (life-asking t.record_ h)
        ∙ ap some (sym (life-working (resume now t.record_) (resume-Matches now t.record_ h))),
    resume-Matches now t.record_ h,
  )
  step-Follows now (answers decision) (asking n future) t h = (rw (life-asking t.record_ h) refl, h)
  step-Follows now (answers decision) (stopping (some n)) t h =
      (rw (life-asking t.record_ h) refl, h)
  step-Follows now delivers p t h = deliver-Follows t.callbacks (record t { phase = p }) h
  step-Follows now cancels p t h = cancel_task-Follows now (record t { phase = p }) h
  step-Follows now interrupts (stopping none) t h =
      (ap (next interrupts) (life-working t.record_ h), tt)
  step-Follows now interrupts (stopping (some n)) t h =
      (ap (next interrupts) (life-asking t.record_ h), tt)
  step-Follows now s p t h = tt

  and_then-Follows :
      (rest : List (F × Step F)) (l : Option Life) (o : Option (Task F))
      → Follows l o
      → ((u : Task F)
          → Matches u.phase u.record_
          → Follows (nexts rest (life u.record_)) (steps rest u))
      → Follows (and_next l (nexts rest)) (and_then o (steps rest))
  and_then-Follows rest l none h k = tt
  and_then-Follows rest l (some u) h k = rw h.0 (k u h.1)

  -- Whatever steps a task takes, from a record that shows its phase, the states that a client reads off the record
  -- go along the automaton of the lifecycle, each step along its own edge, so that after the run the record shows
  -- the state in which the automaton is; and the record shows its phase again.
  pub steps-Follows :
      (run : List (F × Step F)) (t : Task F)
      → Matches t.phase t.record_
      → Follows (nexts run (life t.record_)) (steps run t)
  unfolding steps nexts
  steps-Follows [] t h = (refl, h)
  steps-Follows ((now, s) ∷ rest) t h =
      and_then-Follows rest (next s (life t.record_)) (step now s t)
        (step-Follows now s t.phase t h) (steps-Follows rest)
