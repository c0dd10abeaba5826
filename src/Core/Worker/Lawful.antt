-- ===== src/Core/Worker/Lawful.antt =====
-- `DeviceQueue::stop` over a lawful runtime: whatever the worker was doing, the device ends
-- finalized.
use device_manager.Common.{ℕ, true, [], ◌≡◌, ◌==◌, inl, inr, Bool-cases}
use device_manager.Core.Types.{LifecycleState, ParameterMap, empty_request}
use device_manager.Core.Device.{Device}
use device_manager.Core.Execute.{take_patch, execute_parameter_patch}
use device_manager.Core.Worker.{
  Worker, Phase, no_thread, waiting, finalizing, exited, executing, patching, discarding, planning,
  stop, request_stop, finish_batch, join,
}
use device_manager.Core.Execute.Lawful.{
  IsHealthy, IsFinalized, execute_all-IsHealthy, finalize-IsFinalized, record_discarded-IsHealthy,
  plan-IsHealthy,
}

-- There is a thread that has not come to its end.
abbrev pub IsAlive : Phase → Type 0
IsAlive no_thread = ⊥
IsAlive exited = ⊥
IsAlive _ = Unit

module _ {W : Type 0} (state_of : W → LifecycleState) (Fits : W → Type 0) where
  planning-IsHealthy :
      (current patch : ParameterMap) (d : Device W)
      → IsHealthy state_of Fits d
      → IsHealthy state_of Fits (finish_batch (planning current patch) d)
  unfolding finish_batch
  planning-IsHealthy current patch d h =
      execute_all-IsHealthy state_of Fits _ _ (plan-IsHealthy state_of Fits current patch d h)

  patching-IsHealthy :
      (n : ℕ) (patch : ParameterMap) (d : Device W)
      → IsHealthy state_of Fits d
      → IsHealthy state_of Fits (finish_batch (patching n patch) d)
  unfolding finish_batch execute_parameter_patch take_patch
  patching-IsHealthy n patch d h = elim (Bool-cases (n == d.parameter_revision)) [
    | inl live ↦
        let cleared : Device W = record d {
          queue = record (d.queue) { pending_parameter_patch = [] };
        } in
        rw live (
          execute_all-IsHealthy state_of Fits _ _
            (plan-IsHealthy state_of Fits d.parameters patch cleared h))
    | inr old ↦
        rw old
          (record_discarded-IsHealthy state_of Fits empty_request "superseded parameter patch" d h)
  ]

  join-IsFinalized :
      (p : Phase) (d : Device W)
      → IsAlive p
      → IsHealthy state_of Fits d
      → IsFinalized state_of Fits (join p d).device
  unfolding finish_batch
  join-IsFinalized no_thread d a h = absurd a
  join-IsFinalized exited d a h = absurd a
  join-IsFinalized finalizing d a h = finalize-IsFinalized state_of Fits d h
  join-IsFinalized waiting d a h = finalize-IsFinalized state_of Fits d h
  join-IsFinalized (executing rs) d a h =
      finalize-IsFinalized state_of Fits _ (execute_all-IsHealthy state_of Fits rs d h)
  join-IsFinalized (patching n patch) d a h =
      finalize-IsFinalized state_of Fits _ (patching-IsHealthy n patch d h)
  join-IsFinalized discarding d a h =
      finalize-IsFinalized state_of Fits _
        (record_discarded-IsHealthy state_of Fits empty_request "superseded parameter patch" d h)
  join-IsFinalized (planning current patch) d a h =
      finalize-IsFinalized state_of Fits _ (planning-IsHealthy current patch d h)

  -- `stop` of a running queue with a thread, whatever it was doing, leaves a device with a lawful
  -- runtime in the state finalized.
  pub stop-IsFinalized :
      (w : Worker W)
      → w.device.queue.running ≡ true
      → IsAlive w.phase
      → IsHealthy state_of Fits w.device
      → IsFinalized state_of Fits (stop w).device
  unfolding stop request_stop
  stop-IsFinalized w on a h = simp on (join-IsFinalized w.phase (request_stop w.device) a h)
