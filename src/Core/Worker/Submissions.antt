-- ===== src/Core/Worker/Submissions.antt =====
-- What the clients' calls keep of the queued patches.
use device_manager.Common.{
  ℕ, Bool, true, false, false≢true, List, [], ◌∷◌, ◌++◌, ◌≡◌, refl, ◌<◌, ◌+◌, ◌^◌, arith, length,
  ◌==◌, merge, IsMap, Agrees, Agrees-merge, All, All-append, Bool-cases, inl, inr,
}
use device_manager.Core.Types.{RequestPriority, normal, urgent, ParameterMap, DeviceDefinition}
use device_manager.Core.Device.{RequestBatch, Device, next_u64, on_event}
use device_manager.Core.Queue.{
  enqueue, enqueue_parameter_patch, enable_patch, EnablePatch, absent, ill_typed, present, is_open,
  push_back, patch_batch, plain_batch, submit_patch, dispatch_patch,
}
use device_manager.Core.Execute.Interleaving.{ClientCall, submits, patches, reports, client}
use device_manager.Core.Worker.Coherence.{
  EnableIsTrue, BatchFits, IsCoherent, Grows, Grows-refl, Batches-Grows, EnableIsTrue-merge,
  EnableIsTrue-absent, EnableIsTrue-present, Grows-only_enable, Agrees-only_enable, Agrees-nil,
  EnableIsTrue-nil,
}

next_u64-small : (n : ℕ) → n + 1 < 2 ^ 64 → next_u64 n ≡ n + 1
next_u64-small n h = omega arith

All-snoc :
    (n : ℕ) (m : ParameterMap) (bs : List RequestBatch) (b : RequestBatch)
    → All (BatchFits n m) bs
    → BatchFits n m b
    → All (BatchFits n m) (bs ++ b ∷ [])
All-snoc n m bs b f g = All-append (BatchFits n m) bs (b ∷ []) f (g, tt)

-- What the clients' steps and the worker's steps both keep of a device.
pub record Keeps {W : Type 0} (d d' : Device W) : Type 0 where
  pub coherent : IsCoherent d'
  pub grows : Grows d.parameter_revision d.parameters d'.parameter_revision d'.parameters

module _ {W : Type 0} where
  push-IsCoherent :
      (p : RequestPriority) (b : RequestBatch) (d : Device W)
      → IsCoherent d
      → BatchFits d.parameter_revision d.parameters b
      → IsCoherent (record d { queue = push_back p b d.queue })
  unfolding push_back
  push-IsCoherent urgent b d c f = record {
    agrees = c.agrees;
    enables = c.enables;
    urgent_fit = All-snoc _ _ d.queue.urgent_queue b c.urgent_fit f;
    normal_fit = c.normal_fit;
  }
  push-IsCoherent normal b d c f = record {
    agrees = c.agrees;
    enables = c.enables;
    urgent_fit = c.urgent_fit;
    normal_fit = All-snoc _ _ d.queue.normal_queue b c.normal_fit f;
  }

  -- The same queues under a device that has grown, with another pending patch.
  grow-IsCoherent :
      (d : Device W) (n : ℕ) (m p : ParameterMap)
      → IsCoherent d
      → Grows d.parameter_revision d.parameters n m
      → Agrees p m
      → EnableIsTrue p
      → (e : DeviceDefinition)
      → IsCoherent (record d {
        definition = e;
        parameters = m;
        parameter_revision = n;
        queue = record (d.queue) { pending_parameter_patch = p };
      })
  grow-IsCoherent d n m p c g a t e = record {
    agrees = a;
    enables = t;
    urgent_fit = Batches-Grows _ _ n m d.queue.urgent_queue g c.urgent_fit;
    normal_fit = Batches-Grows _ _ n m d.queue.normal_queue g c.normal_fit;
  }

  Grows-next :
      (d : Device W) (m : ParameterMap)
      → d.parameter_revision + 1 < 2 ^ 64
      → Grows d.parameter_revision d.parameters
          (next_u64 d.parameter_revision)
          (merge d.parameters m)
  Grows-next d m small = inr (omega (arith, next_u64-small d.parameter_revision small))

  Grows-enable :
      (d : Device W) (m : ParameterMap)
      → IsMap m
      → (length m == 1) ≡ true
      → enable_patch m ≡ present true
      → Grows d.parameter_revision d.parameters d.parameter_revision (merge d.parameters m)
  Grows-enable d m h one e = Grows-only_enable d.parameter_revision d.parameters m h one e

  Agrees-enable :
      (d : Device W) (m : ParameterMap)
      → IsMap m
      → (length m == 1) ≡ true
      → enable_patch m ≡ present true
      → IsCoherent d
      → Agrees d.queue.pending_parameter_patch (merge d.parameters m)
  Agrees-enable d m h one e c =
      Agrees-only_enable d.parameters m h one e d.queue.pending_parameter_patch c.agrees c.enables

  submit-Keeps :
      (enabled only : Bool) (m : ParameterMap) (p : RequestPriority) (d : Device W)
      → d.parameter_revision + 1 < 2 ^ 64
      → IsMap m
      → (enabled ≡ true → EnableIsTrue m)
      → (enabled ≡ true → only ≡ true → ((length m == 1) ≡ true) × (enable_patch m ≡ present true))
      → IsCoherent d
      → Keeps d (submit_patch enabled only m p d).1
  unfolding submit_patch
  submit-Keeps false only m p d small h t o c = record {
    coherent =
        grow-IsCoherent d _ (merge d.parameters m) [] c (Grows-next d m small) (Agrees-nil _)
          EnableIsTrue-nil (record (d.definition) { enabled = false });
    grows = Grows-next d m small;
  }
  submit-Keeps true true m p d small h t o c =
      let g = Grows-enable d m h (o refl refl).0 (o refl refl).1 in
      record {
        coherent =
            grow-IsCoherent d d.parameter_revision (merge d.parameters m)
              d.queue.pending_parameter_patch c g
              (Agrees-enable d m h (o refl refl).0 (o refl refl).1 c) c.enables
              (record (d.definition) { enabled = true });
        grows = g;
      }
  submit-Keeps true false m p d small h t o c =
      let pending = merge d.queue.pending_parameter_patch m in
      let a = Agrees-merge d.queue.pending_parameter_patch d.parameters m h c.agrees in
      let e = EnableIsTrue-merge d.queue.pending_parameter_patch m h (t refl) c.enables in
      record {
        coherent =
            push-IsCoherent p (patch_batch (next_u64 d.parameter_revision) pending) _
              (grow-IsCoherent d _ (merge d.parameters m) pending c (Grows-next d m small) a e
                (record (d.definition) { enabled = true }))
              (omega arith, (λ _. (a, e)));
        grows = Grows-next d m small;
      }

  dispatch-Keeps :
      (e : EnablePatch) (m : ParameterMap) (p : RequestPriority) (d : Device W)
      → enable_patch m ≡ e
      → d.parameter_revision + 1 < 2 ^ 64
      → IsMap m
      → IsCoherent d
      → Keeps d (dispatch_patch e m p d).1
  dispatch-Keeps ill_typed m p d k small h c = record { coherent = c; grows = Grows-refl _ _ }
  dispatch-Keeps absent m p d k small h c =
      submit-Keeps d.definition.enabled false m p d small h (λ _. EnableIsTrue-absent m k)
        (λ _ f. absurd (false≢true f)) c
  dispatch-Keeps (present false) m p d k small h c =
      submit-Keeps false (length m == 1) m p d small h (λ f. absurd (false≢true f))
        (λ f _. absurd (false≢true f)) c
  dispatch-Keeps (present true) m p d k small h c =
      submit-Keeps true (length m == 1) m p d small h (λ _. EnableIsTrue-present m k)
        (λ _ one. (one, k)) c

  -- A `std::map` has distinct keys, and fewer than 2^64 patches have been accepted so far.
  abbrev pub IsAdmissible : ClientCall → Device W → Type 0
  IsAdmissible (submits rs p) d = Unit
  IsAdmissible (reports e) d = Unit
  IsAdmissible (patches m p) d = IsMap m × (d.parameter_revision + 1 < 2 ^ 64)

  pub client-Keeps :
      (call : ClientCall) (d : Device W)
      → IsAdmissible call d
      → IsCoherent d
      → Keeps d (client call d).1
  unfolding client enqueue enqueue_parameter_patch on_event
  client-Keeps (submits rs p) d ok c = elim (Bool-cases (is_open d)) [
    | inl open_queue ↦
        rw open_queue
          (record { coherent = push-IsCoherent p (plain_batch rs) d c tt; grows = Grows-refl _ _ })
    | inr shut ↦ rw shut (record { coherent = c; grows = Grows-refl _ _ })
  ]
  client-Keeps (patches m p) d ok c = elim (Bool-cases (is_open d)) [
    | inl open_queue ↦ rw open_queue (dispatch-Keeps (enable_patch m) m p d refl ok.1 ok.0 c)
    | inr shut ↦ rw shut (record { coherent = c; grows = Grows-refl _ _ })
  ]
  client-Keeps (reports e) d ok c = record {
    coherent = record {
      agrees = c.agrees;
      enables = c.enables;
      urgent_fit = c.urgent_fit;
      normal_fit = c.normal_fit;
    };
    grows = Grows-refl _ _;
  }
