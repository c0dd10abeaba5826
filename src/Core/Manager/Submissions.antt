-- ===== src/Core/Manager/Submissions.antt =====
-- Which submissions `DeviceManager` accepts, and that it forgets the others.
use text.Mathlib.TextEquality.{eq_iff}
use device_manager.Common.{
  String, Bool, true, false, List, [], ◌∷◌, Option, none, some, ◌≡◌, ◌≢◌, ◌↔◌, refl, arith, find,
  insert_or_assign,
}
use device_manager.Core.Types.{RequestPriority, TransitionRequest, SubmissionResult, is_contiguous}
use device_manager.Core.Queue
use device_manager.Core.Queue.{is_open}
use device_manager.Core.Worker.{Worker}
use device_manager.Core.Manager.{Manager, enqueue}

insert_or_assign_same {ℓ} :
    {V : Type ℓ} (k : String) (v : V) (m : List (String × V))
    → find k m ≡ some v
    → insert_or_assign k v m ≡ m
unfolding find insert_or_assign
insert_or_assign_same k v [] h = cc
insert_or_assign_same k v ((j, w) ∷ m) h = ground (arith, eq_iff j k, insert_or_assign_same k v m)

abbrev pub accepted_of {ℓ} : {M : Type ℓ} → SubmissionResult × M → Bool
accepted_of r = r.0.accepted

module _ {W : Type 0} where
  -- The manager runs, knows the device, and the device takes submissions.
  pub record CanSubmit (id : String) (m : Manager W) : Type 0 where
    pub worker : Worker W
    pub manager_runs : m.running ≡ true
    pub known : find id m.devices ≡ some worker
    pub queue_open : is_open worker.device ≡ true

  submit-true :
      (id : String) (rs : List TransitionRequest) (p : RequestPriority) (m : Manager W)
      (o : Option (Worker W))
      → find id m.devices ≡ o
      → accepted_of (enqueue id rs p m) ≡ true
      → CanSubmit id m × (rs ≢ []) × (is_contiguous rs ≡ true)
  unfolding enqueue Queue.enqueue
  submit-true id rs p m none e h = absurd (ground arith)
  submit-true id [] p m (some w) e h = absurd (ground arith)
  submit-true id (r ∷ rs) p m (some w) e h = (
    record { worker = w; manager_runs = ground arith; known = e; queue_open = ground arith },
    (λ k. cc),
    ground arith,
  )

  submit-accepted :
      (id : String) (rs : List TransitionRequest) (p : RequestPriority) (m : Manager W)
      → (c : CanSubmit id m) → rs ≢ []
      → is_contiguous rs ≡ true
      → accepted_of (enqueue id rs p m) ≡ true
  unfolding enqueue Queue.enqueue
  submit-accepted id [] p m c ne k = absurd (ne refl)
  submit-accepted id (r ∷ rs) p m c ne k = ground (arith, c.manager_runs, c.known, c.queue_open)

  -- A batch is accepted exactly when the manager runs, knows the device, the batch is contiguous
  -- and not empty, and the device's queue is running and not stopping.
  pub enqueue-accepted_iff :
      (id : String) (rs : List TransitionRequest) (p : RequestPriority) (m : Manager W)
      → (accepted_of (enqueue id rs p m) ≡ true)
        ↔ (CanSubmit id m × (rs ≢ []) × (is_contiguous rs ≡ true))
  enqueue-accepted_iff id rs p m =
      (submit-true id rs p m (find id m.devices) refl, (λ h. submit-accepted id rs p m h.0 h.1 h.2))

  refused-by :
      (id : String) (rs : List TransitionRequest) (p : RequestPriority) (m : Manager W)
      (o : Option (Worker W))
      → find id m.devices ≡ o
      → accepted_of (enqueue id rs p m) ≡ false
      → (enqueue id rs p m).1 ≡ m
  unfolding enqueue Queue.enqueue
  refused-by id rs p m none e h = ground arith
  refused-by id [] p m (some w) e h = ground arith
  refused-by id (r ∷ rs) p m (some w) e h = ground (arith, insert_or_assign_same id w m.devices)

  -- A submission that is not accepted leaves the manager and every device as they were.
  enqueue_refused :
      (id : String) (rs : List TransitionRequest) (p : RequestPriority) (m : Manager W)
      → accepted_of (enqueue id rs p m) ≡ false
      → (enqueue id rs p m).1 ≡ m
  enqueue_refused id rs p m = refused-by id rs p m (find id m.devices) refl
