-- ===== src/Drivers/Transport.antt =====
-- `SerialTransport` of drivers/ch020_imu_driver/include/ch020_imu_driver/serial_transport.hpp and
-- of the packages like it. The port, the read thread and the steady clock (in nanoseconds) are a
-- parameter of the drivers, with a world `W` that their calls take along.
use device_manager.Common.{ℕ, String, Bool, List, Option, ◌≡◌}
use device_manager.Core.Runtime.{Call, returns}

-- What `SerialTransport::read` returns: bytes (none on a timeout), or a negative number with the
-- text of the error.
pub data Received : Type 0 where
  received : List ℕ → Received
  read_failed : String → Received

-- `open` returns the text of the error, if it fails. `create` is the driver's factory and `spawn`
-- the constructor of `std::thread`, which both may throw.
pub record Serial (C W : Type 0) : Type 0 where
  pub create : C → W → Call (Unit {0}) × W
  pub open_port : String → ℕ → W → Option String × W
  pub close_port : W → W
  pub is_open : W → Bool
  pub read : ℕ → W → Received × W
  pub now : W → ℕ × W
  pub spawn : W → Call (Unit {0}) × W
  pub join_thread : W → W
  pub sleep : ℕ → W → W

-- The factory gives a transport, and the system has a thread left.
pub record IsWilling {C W : Type 0} (serial : Serial C W) : Type 0 where
  pub creates : (c : C) (w : W) → (serial.create c w).0 ≡ returns tt
  pub spawns : (w : W) → (serial.spawn w).0 ≡ returns tt
