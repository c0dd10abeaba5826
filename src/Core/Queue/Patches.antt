-- ===== src/Core/Queue/Patches.antt =====
-- What `enqueue_parameter_patch` does on each of its branches.
use device_manager.Common.{
  Bool, true, false, ◌≡◌, refl, ◌↔◌, length, ◌==◌, Bool-cases, inl, inr, ◌≢◌,
}
use device_manager.Core.Types.{RequestPriority, ParameterMap, SubmissionResult, accept}
use device_manager.Core.Device.{Device}
use device_manager.Core.Queue.{
  enqueue_parameter_patch, enable_patch, EnablePatch, absent, ill_typed, present, is_open,
  submit_patch, dispatch_patch,
}

abbrev pub accepted_of : {W : Type 0} → SubmissionResult × Device W → Bool
accepted_of r = r.0.accepted

module _ {W : Type 0} (patch : ParameterMap) (priority : RequestPriority) (d : Device W) where
  submit-accepted : (enabled only : Bool) → (submit_patch enabled only patch priority d).0 ≡ accept
  unfolding submit_patch
  submit-accepted false only = refl
  submit-accepted true true = refl
  submit-accepted true false = refl

  dispatch-accepted_iff :
      (e : EnablePatch) → (accepted_of (dispatch_patch e patch priority d) ≡ true) ↔ (e ≢ ill_typed)
  dispatch-accepted_iff absent =
      ((λ h e. cc), (λ h. rw (submit-accepted d.definition.enabled false)))
  dispatch-accepted_iff ill_typed = ((λ h e. cc), (λ h. absurd (h refl)))
  dispatch-accepted_iff (present b) =
      ((λ h e. cc), (λ h. rw (submit-accepted b (length patch == 1))))

  -- A patch is accepted exactly when the queue is running, not stopping, and `device.enable` is
  -- absent from the patch or a Boolean.
  patch-accepted_iff :
      (accepted_of (enqueue_parameter_patch patch priority d) ≡ true)
      ↔ ((is_open d ≡ true) × (enable_patch patch ≢ ill_typed))
  unfolding enqueue_parameter_patch submit_patch
  patch-accepted_iff = elim (Bool-cases (is_open d)) [
    | inl open_queue ↦ rw open_queue (
      (λ h. (refl, (dispatch-accepted_iff (enable_patch patch)).0 h)),
      (λ h. (dispatch-accepted_iff (enable_patch patch)).1 h.1),
    )
    | inr shut ↦ rw shut ((λ h. cc), (λ h. cc))
  ]

  dispatch_refused :
      (e : EnablePatch)
      → accepted_of (dispatch_patch e patch priority d) ≡ false
      → (dispatch_patch e patch priority d).1 ≡ d
  dispatch_refused absent h = cc (submit-accepted d.definition.enabled false)
  dispatch_refused ill_typed h = refl
  dispatch_refused (present b) h = cc (submit-accepted b (length patch == 1))

  -- A patch that is not accepted changes nothing.
  patch_refused :
      accepted_of (enqueue_parameter_patch patch priority d) ≡ false
      → (enqueue_parameter_patch patch priority d).1 ≡ d
  unfolding enqueue_parameter_patch submit_patch
  patch_refused h = elim (Bool-cases (is_open d)) [
    | inl open_queue ↦ rw open_queue (dispatch_refused (enable_patch patch) (rw open_queue at h))
    | inr shut ↦ rw shut
  ]
