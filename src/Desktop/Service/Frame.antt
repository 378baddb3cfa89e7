-- ===== src/Desktop/Service/Frame.antt =====
-- What the calls of a client of sifter/src/aa_sifter/desktop/service.py change of its tasks.
use aa.Prelude.{
  ℕ, List, [], ◌∷◌, ◌++◌, String, Bool, true, false, ◌&&◌, Option, none, some, inl, inr, is_some,
  if◌then◌else◌, ◌≡◌, refl, sym, ◌∙◌, ap, arith, Bool-cases, eq_iff,
}
use aa.Prelude.Text.{◌≟◌}
use aa.Prelude.Dict.{lookup-insert}
use aa.Decisions.Approval.Types.{HumanDecision, ApprovalAction}
use aa.Desktop.Record.{TaskRecord}
use aa.Desktop.Task.{Task, Phase, scheduled, working, asking, stopping, ended, Callback, given}
use aa.Desktop.Task.Steps.{answered, question_of}
use aa.Desktop.Task.Life.{Shows, Kept}
use aa.Desktop.Service.{Service, get, changed, resolve_approval, and_then, action_of, decision_of}

decision_of-is_some :
    (a : Option ApprovalAction) (options constraints : List String) (note : String)
    → is_some (decision_of a options constraints note) ≡ is_some a
unfolding decision_of
decision_of-is_some none options constraints note = refl
decision_of-is_some (some a) options constraints note = refl

-- The callback for a decision on the question of a task.
abbrev pub posted : Option ℕ → Option HumanDecision → List Callback
posted (some n) (some d) = given n d ∷ []
posted _ _ = []

module _ {F : Type 0} where
  -- Whether the record of a task shows a request.
  abbrev pub is_requested : Option (Task F) → Bool
  is_requested none = false
  is_requested (some t) = is_some t.record_.approval_request

  changed-is_some :
      (task_id : String) (o : Option (Task F)) (service : Service F)
      → (changed task_id o service).0 ≡ is_some o
  unfolding changed
  changed-is_some task_id none service = refl
  changed-is_some task_id (some t) service = refl

  -- A task that shows its phase has a request exactly while it has a question's future.
  question_of-Shows :
      (p : Phase) (r : TaskRecord F)
      → Shows p r
      → is_some (question_of p) ≡ is_some r.approval_request
  unfolding question_of
  question_of-Shows scheduled r h = ap is_some (sym h.1)
  question_of-Shows working r h = ap is_some (sym h.1)
  question_of-Shows (asking n future) r h = sym h.1
  question_of-Shows (stopping none) r h = ap is_some (sym h.1)
  question_of-Shows (stopping (some n)) r h = sym h.1
  question_of-Shows ended r h = ap is_some (sym h.0)

  answered-is_some :
      (p : Phase) (t : Task F) (d : HumanDecision)
      → is_some (answered d (record t { phase = p })) ≡ is_some (question_of p)
  unfolding answered question_of
  answered-is_some scheduled t d = refl
  answered-is_some working t d = refl
  answered-is_some (asking n future) t d = refl
  answered-is_some (stopping none) t d = refl
  answered-is_some (stopping (some n)) t d = refl
  answered-is_some ended t d = refl

  -- What an answer to a task depends on.
  abbrev reply : Option (Task F) → Option HumanDecision → Option (Task F)
  reply o a = and_then o (λ t. and_then a (λ d. answered d t))

  reply-is_some :
      (o : Option (Task F)) (a : Option HumanDecision)
      → Kept o
      → is_some (reply o a) ≡ is_requested o && is_some a
  reply-is_some none a h = refl
  reply-is_some (some t) none h = ground arith
  reply-is_some (some t) (some d) h =
      ground (arith, answered-is_some t.phase t d ∙ question_of-Shows t.phase t.record_ h)

  -- A task less the callbacks on their way, and these.
  abbrev pub seen : Option (Task F) → Option (Task F)
  seen none = none
  seen (some t) = some (record t { callbacks = [] })

  abbrev pub callbacks_of : Option (Task F) → List Callback
  callbacks_of none = []
  callbacks_of (some t) = t.callbacks

  abbrev pub posted_for : Option (Task F) → Option HumanDecision → List Callback
  posted_for none d = []
  posted_for (some t) d = posted (question_of t.phase) d

  -- What an answer makes of a task: a callback behind those that are on their way, and nothing else.
  abbrev Posts : Option (Task F) → Option HumanDecision → Option (Task F) → Type 0
  Posts o d after = (seen after ≡ seen o) × (callbacks_of after ≡ callbacks_of o ++ posted_for o d)

  answered-Posts_at :
      (p : Phase) (t : Task F) (d : HumanDecision)
      → is_some (answered d (record t { phase = p })) ≡ true
      → Posts (some (record t { phase = p })) (some d) (answered d (record t { phase = p }))
  unfolding answered question_of
  answered-Posts_at scheduled t d h = absurd (cc h)
  answered-Posts_at working t d h = absurd (cc h)
  answered-Posts_at (asking n future) t d h = (refl, refl)
  answered-Posts_at (stopping none) t d h = absurd (cc h)
  answered-Posts_at (stopping (some n)) t d h = (refl, refl)
  answered-Posts_at ended t d h = absurd (cc h)

  reply-Posts :
      (o : Option (Task F)) (a : Option HumanDecision)
      → is_some (reply o a) ≡ true
      → Posts o a (reply o a)
  reply-Posts none a h = absurd (cc h)
  reply-Posts (some t) none h = absurd (cc h)
  reply-Posts (some t) (some d) h = answered-Posts_at t.phase t d h

  -- What the clients see of each task after a call that made this of one, and the callbacks of each.
  abbrev pub PostsAt :
      String → Option (Task F) → Option HumanDecision → Service F → Bool × Service F → Type 0
  PostsAt task_id o d service result =
      (other : String)
      → (seen (get result.1 other) ≡ seen (get service other))
        × (callbacks_of (get result.1 other) ≡ (
            if result.0 && (task_id ≟ other)
            then callbacks_of o ++ posted_for o d
            else callbacks_of (get service other)))

  changed-PostsAt :
      (task_id : String) (d : Option HumanDecision) (after : Option (Task F)) (service : Service F)
      → (is_some after ≡ true → Posts (get service task_id) d after)
      → PostsAt task_id (get service task_id) d service (changed task_id after service)
  unfolding changed get
  changed-PostsAt task_id d none service h other = (refl, refl)
  changed-PostsAt task_id d (some t) service h other = elim (Bool-cases (task_id ≟ other)) [
    | inl same ↦
        rw (lookup-insert task_id other t service.tasks, same)
          ((h refl).0 ∙ ap (λ n. seen (get service n)) ((eq_iff task_id other).0 same), (h refl).1)
    | inr different ↦ rw (lookup-insert task_id other t service.tasks, different) (refl, refl)
  ]

  -- Where the record of the task shows its phase, `resolve_approval` returns True exactly where it shows a
  -- request and the action is one of the known ones. It then puts one callback, which has the question and the
  -- decision, behind those of this task that are on their way; and nothing else of any task changes.
  pub resolve_approval_lem :
      (task_id action : String) (options constraints : List String) (note : String)
      (service : Service F)
      → Kept (get service task_id)
      → ((resolve_approval task_id action options constraints note service).0
          ≡ is_requested (get service task_id) && is_some (action_of action))
        × PostsAt task_id
            (get service task_id)
            (decision_of (action_of action) options constraints note)
            service
            (resolve_approval task_id action options constraints note service)
  unfolding resolve_approval
  resolve_approval_lem task_id action options constraints note service kept =
      let d = decision_of (action_of action) options constraints note in
      let o = get service task_id in
      (
        changed-is_some task_id (reply o d) service
            ∙ (reply-is_some o d kept
                ∙ ap (λ b. is_requested o && b)
                    (decision_of-is_some (action_of action) options constraints note)),
        changed-PostsAt task_id d (reply o d) service (reply-Posts o d),
      )
