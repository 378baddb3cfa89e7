-- ===== src/Desktop/Task/Cancelling.antt =====
-- That a cancellation of a task of sifter/src/aa_sifter/desktop/service.py is not lost.
use aa.Prelude.{List, [], ◌∷◌, ◌++◌, Bool, true, false, Option, none, some, ◌≡◌, is_some}
use aa.Desktop.Record.{TaskRecord, emit, status_is}
use aa.Desktop.Task.{Phase, scheduled, stopping, ended, Callback, cancellation, Task}
use aa.Desktop.Task.Steps.{Step, interrupts, step, steps}
use aa.Desktop.Task.Answering.{deliveries}

-- The coroutine has begun and has not come to its end.
unfoldable pub is_begun : Phase → Bool
is_begun scheduled = false
is_begun ended = false
is_begun _ = true

module _ {F : Type 0} where
  abbrev at : Phase → List Callback → Task F → Task F
  at p cs t = record t { phase = p; callbacks = cs }

  -- A task which stops: its CancelledError is on its way, or it has ended cancelled, with a time.
  abbrev pub StopsAs : Phase → TaskRecord F → Type 0
  StopsAs (stopping question) r = Unit
  StopsAs ended r = (r.status ≡ "cancelled") × (is_some r.finished_at ≡ true)
  StopsAs p r = true ≡ false

  abbrev pub Stops : Option (Task F) → Type 0
  Stops none = Unit
  Stops (some t) = StopsAs t.phase t.record_

  -- What becomes of a task once its cancellation is asked for and the loop has gone through its callbacks: it
  -- stops, with a step that ends it, and no run of steps leads elsewhere.
  abbrev pub IsStopped : F → F → Option (Task F) → Type 0
  IsStopped now later none = true ≡ false
  IsStopped now later (some u) =
      (v : Task F) × (w : Task F) × ((steps (deliveries now u.callbacks) u ≡ some v)
        × (v.callbacks ≡ []))
      × ((step later interrupts v ≡ some w) × (w.phase ≡ ended))
      × ((w.record_.status ≡ "cancelled") × (w.record_.finished_at ≡ some later))
      × ((run : List (F × Step F)) → Stops (steps run v))

  -- The task after the first call of `cancel` on it.
  abbrev asked : F → Phase → Task F → Task F
  asked now p t = record t {
    record_ = emit now "status" (status_is "cancelling") t.record_;
    phase = p;
    callbacks = t.callbacks ++ (cancellation ∷ []);
    cancelling = true;
  }
