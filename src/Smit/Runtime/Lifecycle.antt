-- ===== src/Smit/Runtime/Lifecycle.antt =====
-- The lidar's driver is lawful, and so is its runtime.
use device_manager.Common.{
  ℕ, String, false, Option, none, some, ◌≡◌, refl, ap, inl, inr, Bool-cases,
}
use device_manager.Core.Runtime.{Call, returns, throws, throws_unknown}
use device_manager.Core.Runtime.Dispatch.{LawfulRuntime}
use device_manager.Drivers.Transport.{Serial, IsWilling}
use device_manager.Drivers.Runtime.Lifecycle.{
  Thread, off, on, IsSettled, LawfulDriver, is_none, state_of, IsFit, device_runtime-lawful,
}
use device_manager.Smit.Scan.{DoubleOps}
use device_manager.Smit.Driver.{SmitLidarConfig, SmitLidarDriver}
use device_manager.Smit.Driver as Driver
use device_manager.Smit.Runtime.{
  Numbers, SmitLidarRuntime, texts, config_from, initialize, driver_ops, lidar_device_runtime,
}

abbrev pub running : {F D : Type 0} → SmitLidarDriver F D → Thread
running d = (d.running, d.joinable)

module _ {F D W : Type 0} (double : DoubleOps F D) (numbers : Numbers D)
    (serial : Serial (SmitLidarConfig D) W) (clock : W → ℕ × W) (willing : IsWilling serial) where
  started-running :
      (x : Call (Unit {0}) × W) (d : SmitLidarDriver F D)
      → x.0 ≡ returns tt
      → let (r, d', w) = Driver.started double serial x d in
        (r ≡ returns tt) × (d'.configured ≡ d.configured) × (running d' ≡ on)
  started-running (returns _, w) d h = (refl, refl, refl)
  started-running (throws m, w) d h = absurd cc
  started-running (throws_unknown, w) d h = absurd cc

  start-running :
      (d : SmitLidarDriver F D) (w : W)
      → running d ≡ off
      → let (r, d', w) = Driver.start double serial d w in
        (r ≡ returns tt) × (d'.configured ≡ d.configured) × (running d' ≡ on)
  unfolding Driver.start
  start-running d w h =
      let idle : d.running ≡ false = ap (λ (t : Thread). t.0) h in
      simp idle (started-running (serial.spawn w) d (willing.spawns w))

  stop-running :
      (d : SmitLidarDriver F D) (w : W)
      → let d' = (Driver.stop double serial d w).0 in
        (d'.configured ≡ d.configured) × (running d' ≡ off)
  unfolding Driver.stop
  stop-running d w = elim (Bool-cases d.joinable) [
    | inl e ↦ simp e (refl, refl)
    | inr e ↦ simp e (refl, refl)
  ]

  cleanup-running :
      (d : SmitLidarDriver F D) (w : W)
      → let d' = (Driver.cleanup double serial d w).0 in
        (d'.configured ≡ false) × (running d' ≡ off)
  unfolding Driver.cleanup
  cleanup-running d w = (refl, (stop-running d w).1)

  opened-running :
      (o : Option String) (d : SmitLidarDriver F D) (w : W)
      → running d ≡ off
      → let (p, d', w') = Driver.opened double serial o d w in
        (d'.configured ≡ is_none p) × (running d' ≡ off)
  unfolding Driver.opened
  opened-running none d w h = (refl, h)
  opened-running (some m) d w h = (refl, h)

  made-IsSettled :
      (x : Call (Unit {0}) × W) (c : SmitLidarConfig D) (d : SmitLidarDriver F D)
      → x.0 ≡ returns tt
      → running d ≡ off
      → IsSettled (driver_ops double numbers serial clock) running (Driver.made double serial x c d)
  made-IsSettled (returns _, w) c d h idle = opened-running _ _ _ idle
  made-IsSettled (throws m, w) c d h idle = absurd cc
  made-IsSettled (throws_unknown, w) c d h idle = absurd cc

  configure-IsSettled :
      (c : SmitLidarConfig D) (d : SmitLidarDriver F D) (w : W)
      → IsSettled
          (driver_ops double numbers serial clock)
          running
          (Driver.configure double serial c d w)
  unfolding Driver.configure
  configure-IsSettled c d w = made-IsSettled _ c _ (willing.creates c _) (cleanup-running d w).1

  pub driver-lawful : LawfulDriver (driver_ops double numbers serial clock) running
  driver-lawful = record {
    made = λ c. (refl, refl);
    started = start-running;
    stopped = stop-running;
    cleaned = cleanup-running;
    configured = configure-IsSettled;
  }

  -- If the factory and the constructor of the thread do not throw, the lidar's runtime is lawful:
  -- its state can always be read; every request, planning, clock and handler call returns and keeps
  -- the driver's flags in line with the state; a transition that succeeds is in its target state,
  -- and one that does not is where it was; and a shutdown from any other state than finalized ends
  -- in finalized.
  lidar_device_runtime-lawful :
      LawfulRuntime {W = SmitLidarRuntime F D W} state_of
        (IsFit (driver_ops double numbers serial clock) running)
        (lidar_device_runtime double numbers serial clock)
  lidar_device_runtime-lawful =
      device_runtime-lawful (driver_ops double numbers serial clock) running driver-lawful texts
        (config_from numbers) clock initialize
