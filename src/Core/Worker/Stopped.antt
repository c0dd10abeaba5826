-- ===== src/Core/Worker/Stopped.antt =====
-- A queue that `stop` has left does not run.
use device_manager.Common.{ℕ, false, List, [], ◌∷◌, ◌≡◌, refl, ap, ◌∙◌, ◌==◌, inl, inr, Bool-cases}
use device_manager.Core.Types.{
  LifecycleState, ParameterMap, TransitionRequest, empty_request, state_eq,
}
use device_manager.Core.Device.{Device, query_state, safe_state}
use device_manager.Core.Execute.{
  execute, execute_all, finalize, take_patch, plan, execute_parameter_patch,
}
use device_manager.Core.Execute.Interleaving.{graft, execute_keeps}
use device_manager.Core.Worker.Kept.{record_discarded_keeps, plan_from_keeps}
use device_manager.Core.Worker.{
  Worker, Phase, no_thread, waiting, finalizing, exited, executing, patching, discarding, planning,
  stop, request_stop, finish_batch, join,
}

module _ {W : Type 0} where
  abbrev pub IsIdle : Device W → Type 0
  IsIdle d = d.queue.running ≡ false

  IsIdle-graft : (d d' : Device W) → d' ≡ graft d' d → IsIdle d → IsIdle d'
  IsIdle-graft d d' e s = ap (λ (x : Device W). x.queue.running) e ∙ s

  execute-IsIdle : (r : TransitionRequest) (d : Device W) → IsIdle d → IsIdle (execute r d).1
  execute-IsIdle r d = IsIdle-graft d (execute r d).1 (execute_keeps r d)

  execute_all-IsIdle :
      (rs : List TransitionRequest) (d : Device W) → IsIdle d → IsIdle (execute_all rs d)
  unfolding execute_all
  execute_all-IsIdle [] d s = s
  execute_all-IsIdle (r ∷ rs) d s = elim (Bool-cases (execute r d).0) [
    | inl going ↦ rw going (execute_all-IsIdle rs (execute r d).1 (execute-IsIdle r d s))
    | inr ended ↦ rw ended (execute-IsIdle r d s)
  ]

  finalize-IsIdle : (d : Device W) → IsIdle d → IsIdle (finalize d)
  unfolding finalize safe_state
  finalize-IsIdle d s = elim (Bool-cases (state_eq (safe_state d).0 LifecycleState.finalized)) [
    | inl done ↦ rw done s
    | inr more ↦ rw more (execute-IsIdle _ _ s)
  ]

  planning-IsIdle :
      (current patch : ParameterMap) (d : Device W)
      → IsIdle d
      → IsIdle (finish_batch (planning current patch) d)
  unfolding finish_batch plan
  planning-IsIdle current patch d s =
      let kept = plan_from_keeps current patch (query_state d).0 (query_state d).1 in
      execute_all-IsIdle _ _ (IsIdle-graft d _ kept s)

  discarding-IsIdle : (d : Device W) → IsIdle d → IsIdle (finish_batch discarding d)
  unfolding finish_batch
  discarding-IsIdle d s = IsIdle-graft d _ (record_discarded_keeps empty_request _ d) s

  patching-IsIdle :
      (n : ℕ) (patch : ParameterMap) (d : Device W)
      → IsIdle d
      → IsIdle (finish_batch (patching n patch) d)
  unfolding finish_batch execute_parameter_patch take_patch
  patching-IsIdle n patch d s = elim (Bool-cases (n == d.parameter_revision)) [
    | inl live ↦
        let cleared : Device W = record d {
          queue = record (d.queue) { pending_parameter_patch = [] };
        } in
        rw live (planning-IsIdle d.parameters patch cleared s)
    | inr old ↦ rw old (discarding-IsIdle d s)
  ]

  join-IsIdle : (p : Phase) (d : Device W) → IsIdle d → IsIdle (join p d).device
  unfolding finish_batch
  join-IsIdle no_thread d s = s
  join-IsIdle exited d s = s
  join-IsIdle finalizing d s = finalize-IsIdle d s
  join-IsIdle waiting d s = finalize-IsIdle d s
  join-IsIdle (executing rs) d s = finalize-IsIdle _ (execute_all-IsIdle rs d s)
  join-IsIdle (patching n patch) d s = finalize-IsIdle _ (patching-IsIdle n patch d s)
  join-IsIdle discarding d s = finalize-IsIdle _ (discarding-IsIdle d s)
  join-IsIdle (planning current patch) d s = finalize-IsIdle _ (planning-IsIdle current patch d s)

  pub stop-IsIdle : (w : Worker W) → IsIdle (stop w).device
  unfolding stop request_stop
  stop-IsIdle w = elim (Bool-cases w.device.queue.running) [
    | inl on ↦ simp on (join-IsIdle w.phase (request_stop w.device) refl)
    | inr off ↦ simp off refl
  ]
