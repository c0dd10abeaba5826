-- ===== src/Core/Execute/Interleaving.antt =====
-- `execute` reads and writes the runtime's world and the last record only, so it can be exchanged
-- with whatever other threads do to the rest of the device meanwhile.
use device_manager.Common.{
  Bool, true, false, List, ◌≡◌, refl, ap, ◌∙◌, inl, inr, Bool-cases, length, ◌==◌,
}
use device_manager.Core.Types.{
  LifecycleState, TransitionRequest, TransitionOutcome, RequestPriority, ParameterMap, DeviceEvent,
  SubmissionResult, accept, state_eq,
}
use device_manager.Core.Runtime.{Call, returns, throws, throws_unknown}
use device_manager.Core.Device.{Device, query_state, safe_state, on_event}
use device_manager.Core.Queue.{
  enqueue, enqueue_parameter_patch, EnablePatch, dispatch_patch, enable_patch, submit_patch,
  is_open,
}
use device_manager.Core.Execute.{
  execute, execute_from, attempt, after_request, after_state, request, publish,
}

-- The side of `x` that clients see, with the side of `d` that the worker's runtime calls see.
abbrev pub graft : {W : Type 0} → Device W → Device W → Device W
graft d x = record x { runtime = d.runtime; world = d.world; last_transition = d.last_transition }

abbrev pub graft_on {ℓ} : {A : Type ℓ} {W : Type 0} → A × Device W → Device W → A × Device W
graft_on (a, d) x = (a, graft d x)

module _ {W : Type 0} (r : TransitionRequest) where
  after_state-graft :
      (o : TransitionOutcome) (c : Call LifecycleState) (d x : Device W)
      → after_state r o (c, graft d x) ≡ graft_on (after_state r o (c, d)) x
  unfolding safe_state
  after_state-graft o (returns s) d x = refl
  after_state-graft o (throws m) d x = refl
  after_state-graft o throws_unknown d x = refl

  after_request-graft :
      (c : Call TransitionOutcome) (d x : Device W)
      → after_request r (c, graft d x) ≡ graft_on (after_request r (c, d)) x
  unfolding safe_state
  after_request-graft (returns o) d x = after_state-graft o (query_state d).0 (query_state d).1 x
  after_request-graft (throws m) d x = refl
  after_request-graft throws_unknown d x = refl

  attempt-graft : (d x : Device W) → attempt r (graft d x) ≡ graft_on (attempt r d) x
  unfolding attempt
  attempt-graft d x = after_request-graft (request r d).0 (request r d).1 x

  execute_from-graft :
      (c : Call LifecycleState) (d x : Device W)
      → execute_from r (c, graft d x) ≡ graft_on (execute_from r (c, d)) x
  unfolding publish
  execute_from-graft (returns s) d x = elim (Bool-cases (state_eq s r.from_state)) [
    | inl fresh ↦ rw (fresh, attempt-graft d x)
    | inr stale ↦ rw stale
  ]
  execute_from-graft (throws m) d x = refl
  execute_from-graft throws_unknown d x = refl

  -- What `execute` does and returns does not depend on the clients' side of the device.
  execute-graft : (d x : Device W) → execute r (graft d x) ≡ graft_on (execute r d) x
  unfolding execute
  execute-graft d x = execute_from-graft (query_state d).0 (query_state d).1 x

  pub execute_keeps : (d : Device W) → (execute r d).1 ≡ graft (execute r d).1 d
  execute_keeps d = ap (λ (p : Bool × Device W). p.1) (execute-graft d d)

-- A call of another thread.
pub data ClientCall : Type 0 where
  submits : List TransitionRequest → RequestPriority → ClientCall
  patches : ParameterMap → RequestPriority → ClientCall
  reports : DeviceEvent → ClientCall

module _ {W : Type 0} where
  unfoldable pub client : ClientCall → Device W → SubmissionResult × Device W
  client (submits rs p) d = enqueue rs p d
  client (patches m p) d = enqueue_parameter_patch m p d
  client (reports e) d = (accept, on_event e d)

  submit_patch-graft :
      (enabled only : Bool) (m : ParameterMap) (p : RequestPriority) (d x : Device W)
      → submit_patch enabled only m p (graft d x)
        ≡ ((submit_patch enabled only m p x).0, graft d (submit_patch enabled only m p x).1)
  unfolding submit_patch
  submit_patch-graft false only m p d x = refl
  submit_patch-graft true true m p d x = refl
  submit_patch-graft true false m p d x = refl

  dispatch_patch-graft :
      (e : EnablePatch) (m : ParameterMap) (p : RequestPriority) (d x : Device W)
      → dispatch_patch e m p (graft d x)
        ≡ ((dispatch_patch e m p x).0, graft d (dispatch_patch e m p x).1)
  dispatch_patch-graft EnablePatch.absent m p d x =
      submit_patch-graft x.definition.enabled false m p d x
  dispatch_patch-graft EnablePatch.ill_typed m p d x = refl
  dispatch_patch-graft (EnablePatch.present b) m p d x =
      submit_patch-graft b (length m == 1) m p d x

  -- A client's call depends on the clients' side of the device alone, and changes that alone.
  client-graft :
      (c : ClientCall) (d x : Device W)
      → client c (graft d x) ≡ ((client c x).0, graft d (client c x).1)
  unfolding client enqueue enqueue_parameter_patch on_event
  client-graft (submits rs p) d x = elim (Bool-cases (is_open x)) [
    | inl open_queue ↦ rw open_queue
    | inr shut ↦ rw shut
  ]
  client-graft (patches m p) d x = elim (Bool-cases (is_open x)) [
    | inl open_queue ↦ rw open_queue (dispatch_patch-graft (enable_patch m) m p d x)
    | inr shut ↦ rw shut
  ]
  client-graft (reports e) d x = refl

  client_keeps : (c : ClientCall) (d : Device W) → (client c d).1 ≡ graft d (client c d).1
  client_keeps c d = ap (λ (p : SubmissionResult × Device W). p.1) (client-graft c d d)

  client-execute :
      (r : TransitionRequest) (c : ClientCall) (d : Device W)
      → client c (execute r d).1 ≡ ((client c d).0, graft (execute r d).1 (client c d).1)
  client-execute r c d = ap (client c) (execute_keeps r d) ∙ client-graft c (execute r d).1 d

  execute-client :
      (r : TransitionRequest) (c : ClientCall) (d : Device W)
      → execute r (client c d).1 ≡ ((execute r d).0, graft (execute r d).1 (client c d).1)
  execute-client r c d = ap (execute r) (client_keeps c d) ∙ execute-graft r d (client c d).1

  -- A call of another thread before or after the execution of a request: the device is the same
  -- in the end, and both give the same answers.
  pub execute-client_comm :
      (r : TransitionRequest) (c : ClientCall) (d : Device W)
      → let before = client c d in
        let after = execute r d in
        (execute r before.1 ≡ (after.0, (client c after.1).1)) × ((client c after.1).0 ≡ before.0)
  execute-client_comm r c d =
      (rw (client-execute r c d) (execute-client r c d), rw (client-execute r c d))
