-- ===== src/Core/Application.antt =====
-- `DeviceManagerApplication` in device_manager_core/src/device_manager_application.cpp: the thread
-- that ticks the manager, and the calls that it passes on.
use device_manager.Common.{String, Bool, true, false, List, Option, leb, ℕ, if◌then◌else◌}
use device_manager.Core.Types.{
  RequestPriority, ParameterMap, TransitionRequest, SubmissionResult, DeviceObservation,
}
use device_manager.Core.Runtime.{Call, returns, throws, throws_unknown}
use device_manager.Core.Manager.{Manager}
use device_manager.Core.Manager

-- `ticking` says that the tick thread has been created and has not returned.
pub record Application (W : Type 0) : Type 0 where
  pub manager : Manager W
  pub tick_period : ℕ
  pub running : Bool
  pub ticking : Bool

module _ {W : Type 0} where
  -- The constructor, at a period in milliseconds.
  pub make_application : Manager W → ℕ → Call (Application W)
  make_application m period =
      if leb period 0
      then throws "tick period must be positive"
      else returns (record { manager = m; tick_period = period; running = false; ticking = false })

  -- Creating the thread may fail: the manager is stopped again.
  abbrev launch : Call (Unit {0}) → Application W → Manager W → Call (Unit {0}) × Application W
  launch (returns _) a m = (returns tt, record a { manager = m; running = true; ticking = true })
  launch (throws text) a m = (throws text, record a { manager = Manager.stop m; running = false })
  launch throws_unknown a m =
      (throws_unknown, record a { manager = Manager.stop m; running = false })

  abbrev after_start :
      Call (Unit {0})
      → Application W
      → Call (Unit {0}) × Manager W
      → Call (Unit {0}) × Application W
  after_start thread a (returns _, m) = launch thread a m
  after_start thread a (throws text, m) = (throws text, record a { manager = m })
  after_start thread a (throws_unknown, m) = (throws_unknown, record a { manager = m })

  -- `thread` is how the constructor of `std::thread` ends, and `threads` how those of the workers
  -- do.
  pub start :
      Call (Unit {0}) → (String → Call (Unit {0})) → Application W → Call (Unit {0}) × Application W
  start thread threads a =
      if a.running then (returns tt, a) else after_start thread a (Manager.start threads a.manager)

  -- The tick thread sees `running_` cleared, returns and is joined.
  pub stop : Application W → Application W
  stop a =
      if a.running
      then record a { manager = Manager.stop a.manager; running = false; ticking = false }
      else a

  -- One round of `run`, once the period has passed or the thread was woken.
  pub round : Application W → Application W
  round a =
      if a.running
      then record a { manager = Manager.tick a.manager }
      else record a { ticking = false }

  pub change_state :
      String
      → List TransitionRequest
      → RequestPriority
      → Application W
      → SubmissionResult × Application W
  change_state id requests priority a =
      let (r, m) = Manager.enqueue id requests priority a.manager in (r, record a { manager = m })

  pub patch_parameters :
      String → ParameterMap → RequestPriority → Application W → SubmissionResult × Application W
  patch_parameters id patch priority a =
      let (r, m) = Manager.patch_parameters id patch priority a.manager in
      (r, record a { manager = m })

  pub device : String → Application W → Option DeviceObservation × Application W
  device id a = let (o, m) = Manager.device id a.manager in (o, record a { manager = m })

  pub devices : Application W → List DeviceObservation × Application W
  devices a = let (os, m) = Manager.all_devices a.manager in (os, record a { manager = m })
