-- ===== src/Core/Worker/Shutdown.antt =====
-- `stop` waits for the worker: left alone, the worker comes to its end.
use device_manager.Common.{
  ℕ, suc, true, List, [], ◌∷◌, ◌≡◌, refl, ap, ◌∙◌, ◌==◌, inl, inr, Bool-cases,
}
use device_manager.Core.Types.{ParameterMap, TransitionRequest, empty_request}
use device_manager.Core.Device.{Device, query_state}
use device_manager.Core.Execute.{
  execute, execute_all, finalize, take_patch, plan, execute_parameter_patch,
}
use device_manager.Core.Execute.Interleaving.{graft, execute_keeps}
use device_manager.Core.Worker.Kept.{record_discarded_keeps, plan_from_keeps}
use device_manager.Core.Worker.{
  Worker, Phase, no_thread, waiting, finalizing, exited, executing, patching, discarding, planning,
  step, steps, step_in, wake, stop, request_stop, finish_batch, join,
}

module _ {W : Type 0} where
  -- Some number of worker steps leads from one state to the other.
  abbrev pub Comes : Worker W → Worker W → Type 0
  Comes v w = (n : ℕ) × (steps n v ≡ w)

  Comes-step : (v w : Worker W) → Comes (step v) w → Comes v w
  unfolding steps
  Comes-step v w (n, e) = (suc n, e)

  Comes-refl : (v : Worker W) → Comes v v
  unfolding steps
  Comes-refl v = (0, refl)

  abbrev at : Device W → Phase → Worker W
  at d p = record { device = d; phase = p }

  abbrev Stops : Device W → Type 0
  Stops d = d.queue.stopping ≡ true

  Stops-graft : (d d' : Device W) → d' ≡ graft d' d → Stops d → Stops d'
  Stops-graft d d' e s = ap (λ (x : Device W). x.queue.stopping) e ∙ s

  -- From the wait on, two steps.
  waiting-Comes : (d : Device W) → Stops d → Comes (at d waiting) (at (finalize d) exited)
  unfolding step step_in wake
  waiting-Comes d s = Comes-step _ _ (simp s (Comes-step _ _ (Comes-refl _)))

  execute-Stops : (r : TransitionRequest) (d : Device W) → Stops d → Stops (execute r d).1
  execute-Stops r d = Stops-graft d (execute r d).1 (execute_keeps r d)

  executing-Comes :
      (rs : List TransitionRequest) (d : Device W)
      → Stops d
      → Comes (at d (executing rs)) (at (finalize (execute_all rs d)) exited)
  unfolding step step_in execute_all
  executing-Comes [] d s = Comes-step _ _ (waiting-Comes d s)
  executing-Comes (r ∷ rs) d s = Comes-step _ _ (elim (Bool-cases (execute r d).0) [
    | inl going ↦ rw going (executing-Comes rs (execute r d).1 (execute-Stops r d s))
    | inr ended ↦ rw ended (waiting-Comes (execute r d).1 (execute-Stops r d s))
  ])

  planning-Comes :
      (current patch : ParameterMap) (d : Device W)
      → Stops d
      → Comes
          (at d (planning current patch))
          (at (finalize (finish_batch (planning current patch) d)) exited)
  unfolding step step_in finish_batch plan
  planning-Comes current patch d s =
      let kept = plan_from_keeps current patch (query_state d).0 (query_state d).1 in
      Comes-step _ _ (executing-Comes _ _ (Stops-graft d _ kept s))

  discarding-Comes :
      (d : Device W)
      → Stops d
      → Comes (at d discarding) (at (finalize (finish_batch discarding d)) exited)
  unfolding step step_in finish_batch
  discarding-Comes d s =
      Comes-step _ _
        (waiting-Comes _ (Stops-graft d _ (record_discarded_keeps empty_request _ d) s))

  patching-Comes :
      (n : ℕ) (patch : ParameterMap) (d : Device W)
      → Stops d
      → Comes (at d (patching n patch)) (at (finalize (finish_batch (patching n patch) d)) exited)
  unfolding step step_in finish_batch execute_parameter_patch take_patch
  patching-Comes n patch d s = elim (Bool-cases (n == d.parameter_revision)) [
    | inl live ↦
        let cleared : Device W = record d {
          queue = record (d.queue) { pending_parameter_patch = [] };
        } in
        Comes-step _ _ (rw live (planning-Comes d.parameters patch cleared s))
    | inr old ↦ Comes-step _ _ (rw old (discarding-Comes d s))
  ]

  -- From wherever the worker stands when `stop` is requested.
  join-Comes : (p : Phase) (d : Device W) → Stops d → Comes (at d p) (join p d)
  unfolding step step_in finish_batch
  join-Comes no_thread d s = Comes-refl _
  join-Comes exited d s = Comes-refl _
  join-Comes finalizing d s = Comes-step _ _ (Comes-refl _)
  join-Comes waiting d s = waiting-Comes d s
  join-Comes (executing rs) d s = executing-Comes rs d s
  join-Comes (patching n patch) d s = patching-Comes n patch d s
  join-Comes discarding d s = discarding-Comes d s
  join-Comes (planning current patch) d s = planning-Comes current patch d s

  -- `stop` ends: once it has set its flag, finitely many steps of the worker alone lead to the
  -- state in which it returns.
  pub stop-Comes :
      (w : Worker W)
      → w.device.queue.running ≡ true
      → Comes (at (request_stop w.device) w.phase) (stop w)
  unfolding stop request_stop
  stop-Comes w on = simp on (join-Comes w.phase (request_stop w.device) refl)
