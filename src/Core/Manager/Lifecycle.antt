-- ===== src/Core/Manager/Lifecycle.antt =====
-- What `DeviceManager::start` and `stop` leave behind in the queues and their threads.
use device_manager.Common.{
  String, true, false, List, [], ◌∷◌, ◌≡◌, refl, ◌∙◌, inl, inr, Bool-cases, All, both_branches,
  subst, sym, ap, if-false, Option-cases,
}
use device_manager.Core.Runtime.{Call, returns, throws, throws_unknown, LifecycleHook}
use device_manager.Core.Device.{Device}
use device_manager.Core.Worker.{
  Worker, Phase, no_thread, waiting, finalizing, exited, executing, patching, discarding, planning,
}
use device_manager.Core.Worker as Queue
use device_manager.Core.Worker.Stopped.{stop-IsIdle}
use device_manager.Core.Manager.{
  Manager, Devices, start, stop, start_all, stop_all, start_device, stop_device, then_start,
  then_register, then_others, register, register_all, then_rest, registered, register_hooks,
  set_event_handler, after_start,
}

-- There is no thread, or it has come to its end.
abbrev pub HasEnded : Phase → Type 0
HasEnded no_thread = Unit
HasEnded exited = Unit
HasEnded _ = ⊥

module _ {W : Type 0} where
  -- The queue runs, and its thread waits for work.
  abbrev pub IsUp : Worker W → Type 0
  IsUp w = (w.device.queue.running ≡ true) × (w.device.queue.stopping ≡ false) × (w.phase ≡ waiting)

  -- The queue does not run, and its thread has ended.
  abbrev pub IsStopped : Worker W → Type 0
  IsStopped w = (w.device.queue.running ≡ false) × HasEnded w.phase

  -- A queue that does not run has no thread.
  abbrev pub IsTidy : Worker W → Type 0
  IsTidy w = w.device.queue.running ≡ false → HasEnded w.phase

  abbrev pub AllUp : Devices W → Type 0
  AllUp = All (λ (e : String × Worker W). IsUp e.1)

  abbrev pub AllIdle : Devices W → Type 0
  AllIdle = All (λ (e : String × Worker W). IsStopped e.1)

  abbrev pub AllTidy : Devices W → Type 0
  AllTidy = All (λ (e : String × Worker W). IsTidy e.1)

  join-HasEnded : (p : Phase) (d : Device W) → HasEnded (Queue.join p d).phase
  join-HasEnded no_thread d = tt
  join-HasEnded exited d = tt
  join-HasEnded finalizing d = tt
  join-HasEnded waiting d = tt
  join-HasEnded (executing rs) d = tt
  join-HasEnded (patching n patch) d = tt
  join-HasEnded discarding d = tt
  join-HasEnded (planning current patch) d = tt

  stop-HasEnded : (w : Worker W) → IsTidy w → HasEnded (Queue.stop w).phase
  unfolding Queue.stop
  stop-HasEnded w h = elim (Bool-cases w.device.queue.running) [
    | inl on ↦ simp on (join-HasEnded w.phase _)
    | inr off ↦ simp off (h off)
  ]

  stop_all-AllIdle : (ds : Devices W) → AllTidy ds → AllIdle (stop_all ds)
  unfolding stop_all stop_device set_event_handler
  stop_all-AllIdle [] h = tt
  stop_all-AllIdle ((id, w) ∷ ds) (h, hs) =
      ((stop-IsIdle w, stop-HasEnded w h), stop_all-AllIdle ds hs)

  -- A start that returns leaves a queue that is up, and one that throws a tidy one.
  abbrev Runs : Call (Unit {0}) × Worker W → Type 0
  Runs (returns _, w) = IsUp w
  Runs (_, w) = IsTidy w

  launch-Runs :
      (thread : Call (Unit {0})) (w : Worker W)
      → HasEnded w.phase
      → Runs (Queue.launch thread (Queue.set_running w))
  launch-Runs (returns _) w h = (refl, refl, refl)
  launch-Runs (throws m) w h = λ e. h
  launch-Runs throws_unknown w h = λ e. h

  worker_start-Runs :
      (thread : Call (Unit {0})) (w : Worker W) → IsStopped w → Runs (Queue.start thread w)
  unfolding Queue.start
  worker_start-Runs thread w (off, h) =
      subst Runs (sym (if-false w.device.queue.running _ _ off)) (launch-Runs thread w h)

  then_start-Runs :
      (thread c : Call (Unit {0})) (d : Device W) (p : Phase)
      → IsStopped (record { device = d; phase = p })
      → Runs (then_start thread (c, d) p)
  then_start-Runs thread (returns _) d p s = worker_start-Runs thread _ s
  then_start-Runs thread (throws m) d p s = λ e. s.1
  then_start-Runs thread throws_unknown d p s = λ e. s.1

  -- Registering leaves the queue alone.
  abbrev KeepsQueue : Device W → Call (Unit {0}) × Device W → Type 0
  KeepsQueue d x = x.1.queue ≡ d.queue

  register-KeepsQueue : (h : LifecycleHook W) (d : Device W) → KeepsQueue d (register h d)
  unfolding register
  register-KeepsQueue h d = elim (Option-cases d.hook) [
    | inl free ↦ rw free refl
    | inr (g, used) ↦ rw used refl
  ]

  then_rest-KeepsQueue :
      (x y : Call (Unit {0}) × Device W) (d : Device W)
      → KeepsQueue d x
      → KeepsQueue x.1 y
      → KeepsQueue d (then_rest x y)
  then_rest-KeepsQueue (returns _, d') y d h k = k ∙ h
  then_rest-KeepsQueue (throws m, d') y d h k = h
  then_rest-KeepsQueue (throws_unknown, d') y d h k = h

  register_all-KeepsQueue :
      (hs : List (LifecycleHook W)) (d : Device W) → KeepsQueue d (register_all hs d)
  unfolding register_all
  register_all-KeepsQueue [] d = refl
  register_all-KeepsQueue (h ∷ hs) d =
      then_rest-KeepsQueue (register h d) _ d (register-KeepsQueue h d)
        (register_all-KeepsQueue hs (register h d).1)

  registered-KeepsQueue :
      (x : Call (Unit {0}) × Device W) (d : Device W) → KeepsQueue d x → KeepsQueue d (registered x)
  registered-KeepsQueue (returns _, d') d h = h
  registered-KeepsQueue (throws m, d') d h = h
  registered-KeepsQueue (throws_unknown, d') d h = h

  register_hooks-KeepsQueue : (d : Device W) → KeepsQueue d (register_hooks d)
  unfolding register_hooks
  register_hooks-KeepsQueue d = registered-KeepsQueue _ d (register_all-KeepsQueue _ d)

  then_register-Runs :
      (thread c : Call (Unit {0})) (d : Device W) (p : Phase)
      → IsStopped (record { device = d; phase = p })
      → Runs (then_register thread (c, d) p)
  then_register-Runs thread (returns _) d p s =
      let Good = λ (x : Call (Unit {0}) × Device W). Runs (then_start thread x p) in
      let x = register_hooks d in
      both_branches Good d.hook_registered _ _ (then_start-Runs thread (returns tt) d p s) (
        then_start-Runs thread x.0 x.1 p
          (ap (λ q. q.running) (register_hooks-KeepsQueue d) ∙ s.0, s.1))
  then_register-Runs thread (throws m) d p s = λ e. s.1
  then_register-Runs thread throws_unknown d p s = λ e. s.1

  start_device-Runs :
      (thread : Call (Unit {0})) (w : Worker W) → IsStopped w → Runs (start_device thread w)
  unfolding start_device set_event_handler
  start_device-Runs thread w s =
      let installed = set_event_handler true w.device in
      then_register-Runs thread installed.0 installed.1 w.phase s

  IsUp-IsTidy : (w : Worker W) → IsUp w → IsTidy w
  IsUp-IsTidy w h e = absurd (cc (h.0, e))

  AllUp-AllTidy : (ds : Devices W) → AllUp ds → AllTidy ds
  AllUp-AllTidy [] h = tt
  AllUp-AllTidy ((id, w) ∷ ds) (h, hs) = (IsUp-IsTidy w h, AllUp-AllTidy ds hs)

  AllIdle-AllTidy : (ds : Devices W) → AllIdle ds → AllTidy ds
  AllIdle-AllTidy [] h = tt
  AllIdle-AllTidy ((id, w) ∷ ds) (h, hs) = ((λ e. h.1), AllIdle-AllTidy ds hs)

  -- All devices are up if the call returns.
  abbrev AllStarted : Call (Unit {0}) × Devices W → Type 0
  AllStarted (returns _, ds) = AllUp ds
  AllStarted (_, ds) = AllTidy ds

  then_others-AllStarted :
      (id : String) (c : Call (Unit {0})) (w : Worker W) (ds : Devices W) (c' : Call (Unit {0}))
      (ds' : Devices W)
      → Runs (c, w)
      → AllIdle ds
      → AllStarted (c', ds')
      → AllStarted (then_others id (c, w) ds (c', ds'))
  then_others-AllStarted id (returns _) w ds (returns _) ds' h o k = (h, k)
  then_others-AllStarted id (returns _) w ds (throws m) ds' h o k = (IsUp-IsTidy w h, k)
  then_others-AllStarted id (returns _) w ds throws_unknown ds' h o k = (IsUp-IsTidy w h, k)
  then_others-AllStarted id (throws m) w ds c' ds' h o k = (h, AllIdle-AllTidy ds o)
  then_others-AllStarted id throws_unknown w ds c' ds' h o k = (h, AllIdle-AllTidy ds o)

  start_all-AllStarted :
      (threads : String → Call (Unit {0})) (ds : Devices W)
      → AllIdle ds
      → AllStarted (start_all threads ds)
  unfolding start_all
  start_all-AllStarted threads [] h = tt
  start_all-AllStarted threads ((id, w) ∷ ds) (h, hs) =
      then_others-AllStarted id _ _ ds _ _ (start_device-Runs (threads id) w h) hs
        (start_all-AllStarted threads ds hs)

  -- How `start` of a manager that does not run ends.
  abbrev pub Settles : Call (Unit {0}) × Manager W → Type 0
  Settles (returns _, m) = (m.running ≡ true) × AllUp m.devices
  Settles (_, m) = (m.running ≡ false) × AllIdle m.devices

  after_start-Settles :
      (c : Call (Unit {0})) (ds : Devices W) → AllStarted (c, ds) → Settles (after_start (c, ds))
  after_start-Settles (returns _) ds h = (refl, h)
  after_start-Settles (throws m) ds h = (refl, stop_all-AllIdle ds h)
  after_start-Settles throws_unknown ds h = (refl, stop_all-AllIdle ds h)

  -- All or nothing, from a manager that does not run, whose queues do not run and have no thread:
  -- if `start` returns, the manager and all queues run, each with a thread that waits for work; and
  -- if it throws, be it because a thread cannot be created, neither the manager nor any queue runs,
  -- and no queue has a thread.
  pub start-Settles :
      (threads : String → Call (Unit {0})) (m : Manager W)
      → m.running ≡ false
      → AllIdle m.devices
      → Settles (start threads m)
  unfolding start
  start-Settles threads m off h = simp off (
      after_start-Settles (start_all threads m.devices).0 (start_all threads m.devices).1
        (start_all-AllStarted threads m.devices h))

  -- After `stop` of a running manager, neither the manager nor the queue of any device runs, and
  -- every thread has ended, whatever the workers were doing and the runtimes do meanwhile, if no
  -- queue that did not run before had a thread.
  pub stop-AllIdle :
      (m : Manager W)
      → m.running ≡ true
      → AllTidy m.devices
      → ((stop m).running ≡ false) × AllIdle (stop m).devices
  unfolding stop
  stop-AllIdle m on h = simp on (refl, stop_all-AllIdle m.devices h)
