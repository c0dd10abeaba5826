-- ===== src/Imu/Runtime/Lifecycle.antt =====
-- The IMU's driver is lawful, and so is its runtime.
use device_manager.Common.{
  ℕ, String, false, Option, none, some, ◌≡◌, refl, ap, inl, inr, Bool-cases,
}
use device_manager.Core.Types.{TransitionRequest}
use device_manager.Core.Runtime.{Call, returns, throws, throws_unknown, request_transition}
use device_manager.Core.Runtime.Dispatch.{LawfulRuntime, request_transition-lawful}
use device_manager.Drivers.Transport.{Serial, IsWilling}
use device_manager.Drivers.Runtime.Lifecycle.{
  Thread, off, on, IsSettled, LawfulDriver, is_none, state_of, IsFit, methods-lawful,
  device_runtime-lawful,
}
use device_manager.Drivers.Runtime.Lifecycle as Lifecycle
use device_manager.Imu.Driver.{Ch020ImuConfig, Ch020ImuDriver}
use device_manager.Imu.Driver as Driver
use device_manager.Imu.Runtime.{
  ImuRuntime, texts, config_from, initialize, driver_ops, imu_methods, imu_device_runtime,
}

abbrev pub running : Ch020ImuDriver → Thread
running d = (d.running, d.joinable)

module _ {W : Type 0} (serial : Serial Ch020ImuConfig W) (clock : W → ℕ × W)
    (willing : IsWilling serial) where
  started-running :
      (x : Call (Unit {0}) × W) (d : Ch020ImuDriver)
      → x.0 ≡ returns tt
      → let (r, d', w) = Driver.started serial x d in
        (r ≡ returns tt) × (d'.configured ≡ d.configured) × (running d' ≡ on)
  started-running (returns _, w) d h = (refl, refl, refl)
  started-running (throws m, w) d h = absurd cc
  started-running (throws_unknown, w) d h = absurd cc

  start-running :
      (d : Ch020ImuDriver) (w : W)
      → running d ≡ off
      → let (r, d', w) = Driver.start serial d w in
        (r ≡ returns tt) × (d'.configured ≡ d.configured) × (running d' ≡ on)
  unfolding Driver.start
  start-running d w h =
      let idle : d.running ≡ false = ap (λ (t : Thread). t.0) h in
      simp idle (started-running (serial.spawn w) d (willing.spawns w))

  stop-running :
      (d : Ch020ImuDriver) (w : W)
      → let d' = (Driver.stop serial d w).0 in (d'.configured ≡ d.configured) × (running d' ≡ off)
  unfolding Driver.stop
  stop-running d w = elim (Bool-cases d.joinable) [
    | inl e ↦ simp e (refl, refl)
    | inr e ↦ simp e (refl, refl)
  ]

  cleanup-running :
      (d : Ch020ImuDriver) (w : W)
      → let d' = (Driver.cleanup serial d w).0 in (d'.configured ≡ false) × (running d' ≡ off)
  unfolding Driver.cleanup
  cleanup-running d w = (refl, (stop-running d w).1)

  opened-running :
      (c : Ch020ImuConfig) (o : Option String) (d : Ch020ImuDriver) (w : W)
      → running d ≡ off
      → let (p, d', w') = Driver.opened serial c o d w in
        (d'.configured ≡ is_none p) × (running d' ≡ off)
  unfolding Driver.opened
  opened-running c none d w h = (refl, h)
  opened-running c (some m) d w h = (refl, h)

  made-IsSettled :
      (x : Call (Unit {0}) × W) (c : Ch020ImuConfig) (d : Ch020ImuDriver)
      → x.0 ≡ returns tt
      → running d ≡ off
      → IsSettled (driver_ops serial clock) running (Driver.made serial x c d)
  made-IsSettled (returns _, w) c d h idle = opened-running c _ _ _ idle
  made-IsSettled (throws m, w) c d h idle = absurd cc
  made-IsSettled (throws_unknown, w) c d h idle = absurd cc

  configure-IsSettled :
      (c : Ch020ImuConfig) (d : Ch020ImuDriver) (w : W)
      → IsSettled (driver_ops serial clock) running (Driver.configure serial c d w)
  unfolding Driver.configure
  configure-IsSettled c d w = made-IsSettled _ c _ (willing.creates c _) (cleanup-running d w).1

  pub driver-lawful : LawfulDriver (driver_ops serial clock) running
  driver-lawful = record {
    made = λ c. (refl, refl);
    started = start-running;
    stopped = stop-running;
    cleaned = cleanup-running;
    configured = configure-IsSettled;
  }

  -- Whatever is requested of an IMU runtime whose driver's flags fit its state (the port is open
  -- from inactive on, and the thread runs in active alone), if the factory and the constructor of
  -- the thread do not throw, no method throws, the flags fit the state after it, and the runtime is
  -- in the requested target state if the outcome is a success and in its old state if it is not.
  pub request_transition-Ends :
      (q : TransitionRequest) (r : ImuRuntime W)
      → Lifecycle.Fits (driver_ops serial clock) running r.state r.driver
      → Lifecycle.Ends
          (driver_ops serial clock)
          running
          r.state
          q.target_state
          (request_transition (imu_methods serial clock) q r)
  request_transition-Ends q r h =
      let ops = driver_ops serial clock in
      request_transition-lawful state_of (IsFit ops running) (imu_methods serial clock)
        (methods-lawful ops running driver-lawful texts config_from clock) q r h

  -- If the factory and the constructor of the thread do not throw, the IMU's runtime is lawful: its
  -- state can always be read; every request, planning, clock and handler call returns and keeps the
  -- driver's flags in line with the state; a transition that succeeds is in its target state, and
  -- one that does not is where it was; and a shutdown from any other state than finalized ends in
  -- finalized.
  pub imu_device_runtime-lawful :
      LawfulRuntime {W = ImuRuntime W} state_of
        (IsFit (driver_ops serial clock) running)
        (imu_device_runtime serial clock)
  imu_device_runtime-lawful =
      device_runtime-lawful (driver_ops serial clock) running driver-lawful texts config_from clock
        initialize
