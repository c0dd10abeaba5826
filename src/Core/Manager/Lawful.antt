-- ===== src/Core/Manager/Lawful.antt =====
-- `DeviceManager::stop` over lawful runtimes.
use device_manager.Common.{String, true, false, [], ◌∷◌, ◌≡◌, ◌∙◌, All}
use device_manager.Core.Types.{LifecycleState, finalized}
use device_manager.Core.Runtime.Dispatch.{LawfulRuntime}
use device_manager.Core.Worker.{Worker}
use device_manager.Core.Worker as Queue
use device_manager.Core.Worker.Lawful.{IsAlive, stop-IsFinalized}
use device_manager.Core.Manager.{Manager, Devices, stop, stop_all, stop_device, set_event_handler}

module _ {W : Type 0} (state_of : W → LifecycleState) (Fits : W → Type 0) where
  -- A started device over a lawful runtime.
  pub record IsStarted (w : Worker W) : Type 0 where
    pub runs : w.device.queue.running ≡ true
    pub alive : IsAlive w.phase
    pub lawful : LawfulRuntime state_of Fits w.device.runtime
    pub fits : Fits w.device.world

  -- The device's runtime is finalized, and its invariant holds.
  abbrev pub IsDown : Worker W → Type 0
  IsDown w = Fits w.device.world × (state_of w.device.world ≡ finalized)

  stop_device-IsDown : (w : Worker W) → IsStarted w → IsDown (stop_device w)
  unfolding stop_device set_event_handler
  stop_device-IsDown w s =
      let (law, fits, down) =
        stop-IsFinalized state_of Fits w s.runs s.alive (s.lawful, s.fits, tt) in
      let (_, fits', same) = law.handles false (Queue.stop w).device.world fits in
      (fits', same ∙ down)

  stop_all-IsDown :
      (ds : Devices W)
      → All (λ (e : String × Worker W). IsStarted e.1) ds
      → All (λ (e : String × Worker W). IsDown e.1) (stop_all ds)
  unfolding stop_all
  stop_all-IsDown [] h = tt
  stop_all-IsDown ((id, w) ∷ ds) (h, hs) = (stop_device-IsDown w h, stop_all-IsDown ds hs)

  -- When a manager that runs is stopped, every device that was started over a lawful runtime ends
  -- in the state finalized, whatever its worker was doing, if all of its devices were so started.
  pub stop-IsDown :
      (m : Manager W)
      → m.running ≡ true
      → All (λ (e : String × Worker W). IsStarted e.1) m.devices
      → All (λ (e : String × Worker W). IsDown e.1) (stop m).devices
  unfolding stop
  stop-IsDown m on h = simp on (stop_all-IsDown m.devices h)
