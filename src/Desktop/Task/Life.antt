-- ===== src/Desktop/Task/Life.antt =====
-- What a record of sifter/src/aa_sifter/desktop/service.py shows of its task, and the states that a task goes through.
use aa.Prelude.{
  ◌==◌, ℕ, List, [], ◌∷◌, ◌++◌, String, Bool, true, false, not, ◌&&◌, ◌||◌, Option, none, some,
  if◌then◌else◌, ◌≡◌, refl, ◌⊎◌, inl, inr, Bool-cases, is_some,
}
use aa.Desktop.Record.{TaskRecord, EventData, status_is, emit, terminal}
use aa.Desktop.Task.{
  Phase, scheduled, working, asking, stopping, ended, Callback, given, cancellation, Task, begin,
  ask, resume, complete, cancelled, failed, delivered, finish,
}
use aa.Desktop.Task.Steps.{
  Step, begins, reports, asks, resumes, returns, raises, answers, delivers, cancels, interrupts,
  step, steps, and_then, answered, deliver, cancel_task, interrupt, left, question_of, is_decided,
  is_ended, is_working, is_scheduled,
}

module _ {F : Type 0} where
  -- What the record shows in each phase: a request exactly while the human is asked, and at the end a time, unless
  -- the task was cancelled before it began and still looks queued.
  abbrev pub Shows : Phase → TaskRecord F → Type 0
  Shows scheduled r = (r.status ≡ "queued") × (r.approval_request ≡ none)
  Shows working r = (r.status ≡ "running") × (r.approval_request ≡ none)
  Shows (asking n future) r = (r.status ≡ "waiting_approval") × (is_some r.approval_request ≡ true)
  Shows (stopping none) r = (r.status ≡ "running") × (r.approval_request ≡ none)
  Shows (stopping (some n)) r =
      (r.status ≡ "waiting_approval") × (is_some r.approval_request ≡ true)
  Shows ended r =
      (r.approval_request ≡ none) × ((is_some r.finished_at ≡ true) ⊎ (r.status ≡ "queued"))

  abbrev pub Kept : Option (Task F) → Type 0
  Kept none = Unit
  Kept (some t) = Shows t.phase t.record_

  delivered-Shows :
      (c : Callback) (p : Phase) (r : TaskRecord F) → Shows p r → Shows (delivered c p) r
  unfolding delivered
  delivered-Shows (given n d) (asking q future) r h = elim (Bool-cases (n == q)) [
    | inl e ↦ rw e h
    | inr e ↦ rw e h
  ]
  delivered-Shows (given n d) scheduled r h = h
  delivered-Shows (given n d) working r h = h
  delivered-Shows (given n d) (stopping q) r h = h
  delivered-Shows (given n d) ended r h = h
  delivered-Shows cancellation scheduled r h = (h.1, inr h.0)
  delivered-Shows cancellation working r h = h
  delivered-Shows cancellation (asking q future) r h = h
  delivered-Shows cancellation (stopping q) r h = h
  delivered-Shows cancellation ended r h = h

  deliver-Kept : (cs : List Callback) (t : Task F) → Shows t.phase t.record_ → Kept (deliver cs t)
  unfolding deliver
  deliver-Kept [] t h = tt
  deliver-Kept (c ∷ cs) t h = delivered-Shows c t.phase t.record_ h

  -- `emit` changes nothing of this.
  emit-Shows :
      (now : F) (event : String) (content : EventData) (p : Phase) (r : TaskRecord F)
      → Shows p r
      → Shows p (emit now event content r)
  unfolding emit
  emit-Shows now event content scheduled r h = h
  emit-Shows now event content working r h = h
  emit-Shows now event content (asking n future) r h = h
  emit-Shows now event content (stopping none) r h = h
  emit-Shows now event content (stopping (some n)) r h = h
  emit-Shows now event content ended r h = h

  unless-Kept :
      (b : Bool) (t : Task F) → Shows t.phase t.record_ → Kept (if b then none else some t)
  unless-Kept true t h = tt
  unless-Kept false t h = h

  resume-Shows :
      (now : F) (r : TaskRecord F) → r.status ≡ "waiting_approval" → Shows working (resume now r)
  unfolding resume terminal emit
  resume-Shows now r h = rw h (refl, refl)

  cancel_task-Kept : (now : F) (t : Task F) → Shows t.phase t.record_ → Kept (cancel_task now t)
  unfolding cancel_task terminal
  cancel_task-Kept now t h =
      unless-Kept (terminal t.record_)
        (record t {
          record_ = emit now "status" (status_is "cancelling") t.record_;
          callbacks =
              if not (is_ended t.phase) && not t.cancelling
              then t.callbacks ++ (cancellation ∷ [])
              else t.callbacks;
          cancelling = t.cancelling || not (is_ended t.phase);
        })
        (emit-Shows now "status" (status_is "cancelling") t.phase t.record_ h)

  left-Shows :
      (now : F) (question : Option ℕ) (r : TaskRecord F)
      → Shows (stopping question) r
      → Shows ended (left now question r)
  unfolding left cancelled resume finish emit
  left-Shows now none r h = (h.1, inl refl)
  left-Shows now (some n) r h = ((resume-Shows now r h.0).1, inl refl)

  step-Kept :
      (now : F) (s : Step F) (p : Phase) (t : Task F)
      → Shows p t.record_
      → Kept (step now s (record t { phase = p }))
  unfolding step begin ask complete failed finish emit answered question_of interrupt is_working
      is_scheduled is_decided
  step-Kept now begins scheduled t h = (refl, h.1)
  step-Kept now (reports event content) working t h = h
  step-Kept now (asks request) working t h = (refl, refl)
  step-Kept now (returns result) working t h = (h.1, inl refl)
  step-Kept now (raises message) working t h = (h.1, inl refl)
  step-Kept now resumes (asking n (some d)) t h = resume-Shows now t.record_ h.0
  step-Kept now (answers decision) (asking n future) t h = h
  step-Kept now (answers decision) (stopping (some n)) t h = h
  step-Kept now delivers p t h = deliver-Kept t.callbacks (record t { phase = p }) h
  step-Kept now cancels p t h = cancel_task-Kept now (record t { phase = p }) h
  step-Kept now interrupts (stopping question) t h = left-Shows now question t.record_ h
  step-Kept now s p t h = tt

  and_then-Kept :
      (o : Option (Task F)) (f : Task F → Option (Task F))
      → Kept o
      → ((u : Task F) → Shows u.phase u.record_ → Kept (f u))
      → Kept (and_then o f)
  and_then-Kept none f h k = tt
  and_then-Kept (some u) f h k = k u h

  -- After any run of steps the record shows the phase of the task, where it did so before: it has a request
  -- and waits exactly while the human is asked, and once the task has ended it has a time, unless it was
  -- cancelled before it began and still looks queued.
  pub steps-Kept :
      (run : List (F × Step F)) (t : Task F) → Shows t.phase t.record_ → Kept (steps run t)
  unfolding steps
  steps-Kept [] t h = h
  steps-Kept ((now, s) ∷ rest) t h =
      and_then-Kept (step now s t) (steps rest) (step-Kept now s t.phase t h) (steps-Kept rest)
