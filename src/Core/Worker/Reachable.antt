-- ===== src/Core/Worker/Reachable.antt =====
-- The states that clients, `start`, `stop` and the worker can reach together.
use device_manager.Common.{◌≡◌, subst, both_branches, Agrees}
use device_manager.Core.Types.{ParameterMap, DeviceDefinition}
use device_manager.Core.Runtime.{Runtime, Call, returns, throws, throws_unknown}
use device_manager.Core.Device.{make_device}
use device_manager.Core.Execute.Interleaving.{ClientCall, client}
use device_manager.Core.Worker.Coherence.{
  EnableIsTrue, PhaseFits, PhaseFits-Grows, Agrees-nil, EnableIsTrue-nil,
}
use device_manager.Core.Worker.Submissions.{IsAdmissible, client-Keeps}
use device_manager.Core.Worker.{
  Worker, no_thread, planning, step, start, launch, set_running, request_stop,
}
use device_manager.Core.Worker.Kept.{IsSound, step_in-IsSound}

module _ {W : Type 0} where
  -- One atomic step of any thread.
  pub data Step : Worker W → Worker W → Type 0 where
    works : (w : Worker W) → Step w (step w)
    calls :
        (c : ClientCall) (w : Worker W)
        → IsAdmissible c w.device
        → Step w (record w { device = (client c w.device).1 })
    starts : (thread : Call (Unit {0})) (w : Worker W) → Step w (start thread w).1
    stops : (w : Worker W) → Step w (record w { device = request_stop w.device })

  pub data Reach (s : Worker W) : Worker W → Type 0 where
    here : Reach s s
    next : {t u : Worker W} → Reach s t → Step t u → Reach s u

  set_running-IsSound : (w : Worker W) → IsSound w → IsSound (set_running w)
  set_running-IsSound w s = record {
    coherent = record {
      agrees = s.coherent.agrees;
      enables = s.coherent.enables;
      urgent_fit = s.coherent.urgent_fit;
      normal_fit = s.coherent.normal_fit;
    };
    fits = s.fits;
  }

  launch-IsSound :
      (thread : Call (Unit {0})) (w : Worker W) → IsSound w → IsSound (launch thread w).1
  launch-IsSound (returns _) w s = record { coherent = s.coherent; fits = tt }
  launch-IsSound (throws m) w s = s
  launch-IsSound throws_unknown w s = s

  start-IsSound : (thread : Call (Unit {0})) (w : Worker W) → IsSound w → IsSound (start thread w).1
  unfolding start
  start-IsSound thread w s =
      both_branches (λ (x : Call (Unit {0}) × Worker W). IsSound x.1) w.device.queue.running _ _ s
        (launch-IsSound thread (set_running w) (set_running-IsSound w s))

  Step-IsSound : {v w : Worker W} → Step v w → IsSound v → IsSound w
  unfolding step request_stop
  Step-IsSound (works w) s = step_in-IsSound w.phase w.device s.fits s.coherent
  Step-IsSound (calls c w ok) s =
      let k = client-Keeps c w.device ok s.coherent in
      record { coherent = k.coherent; fits = PhaseFits-Grows _ _ _ _ w.phase k.grows s.fits }
  Step-IsSound (starts thread w) s = start-IsSound thread w s
  Step-IsSound (stops w) s = record {
    coherent = record {
      agrees = Agrees-nil w.device.parameters;
      enables = EnableIsTrue-nil;
      urgent_fit = tt;
      normal_fit = tt;
    };
    fits = s.fits;
  }

  Reach-IsSound : {v w : Worker W} → IsSound v → Reach v w → IsSound w
  Reach-IsSound s here = s
  Reach-IsSound s (next r st) = Step-IsSound st (Reach-IsSound s r)

  abbrev pub fresh : DeviceDefinition → Runtime W → W → Worker W
  fresh def runtime w = record { device = make_device def runtime w; phase = no_thread }

  fresh-IsSound :
      (def : DeviceDefinition) (runtime : Runtime W) (w : W) → IsSound (fresh def runtime w)
  unfolding make_device
  fresh-IsSound def runtime w = record {
    coherent = record {
      agrees = Agrees-nil def.parameters;
      enables = EnableIsTrue-nil;
      urgent_fit = tt;
      normal_fit = tt;
    };
    fits = tt;
  }

  -- Take a new device and any interleaving of submissions, events, starts, stops and worker steps,
  -- with fewer than 2^64 patches. Whenever the worker then hands a patch to the runtime's planning,
  -- the patch says of no parameter anything else than the merged map handed over with it, and
  -- does not disable the device.
  pub Reach-planning :
      (def : DeviceDefinition) (runtime : Runtime W) (world : W) {w : Worker W}
      → Reach (fresh def runtime world) w
      → (current patch : ParameterMap) → w.phase ≡ planning current patch
      → Agrees patch current × EnableIsTrue patch
  Reach-planning def runtime world {w} r current patch e =
      let s = Reach-IsSound (fresh-IsSound def runtime world) r in
      subst (PhaseFits w.device.parameter_revision w.device.parameters) e s.fits
