-- ===== src/Imu/Runtime.antt =====
-- `Ch020ImuRuntime` of drivers/ch020_imu_driver/src/ch020_imu_runtime.cpp: what it adds to the
-- runtime of Drivers/Runtime.antt.
pub mod Lifecycle
use device_manager.Common.{ℕ, ◌%◌, ◌^◌, String, Bool, false, Option, none, some, find}
use device_manager.Core.Types.{ParameterMap, DeviceDefinition}
use device_manager.Core.Runtime.{Runtime, LifecycleMethods}
use device_manager.Drivers.Transport.{Serial}
use device_manager.Drivers.Parameters.{
  as_string, as_integer, Configured, valid, read_into, stored_string, stored_bool,
}
use device_manager.Drivers.Runtime.{
  Driver, Texts, DriverRuntime, make_runtime, methods, device_runtime,
}
use device_manager.Imu.Driver.{Ch020ImuConfig, Ch020ImuSnapshot, Ch020ImuDriver, make_driver}
use device_manager.Imu.Driver as Port

-- The integers are the 64-bit patterns of the parameters, and an `int` keeps the low half.
unfoldable pub config_from : ParameterMap → Ch020ImuConfig → Configured Ch020ImuConfig
unfolding read_into
config_from ps c =
    read_into as_integer (λ v d. record d { reconnect_backoff_ms = v % 2 ^ 32 }) ps
      "reconnect_backoff_ms"
      (read_into as_integer (λ v d. record d { data_timeout_ms = v % 2 ^ 32 }) ps "data_timeout_ms"
        (read_into as_integer (λ v d. record d { read_chunk_size = v }) ps "read_chunk_size"
          (read_into as_integer (λ v d. record d { baudrate = v % 2 ^ 32 }) ps
            "device.interface.serial_baudrate"
            (read_into as_string (λ v d. record d { port = v }) ps "device.interface.serial_port"
              (valid c)))))

-- What `initialize` reads.
pub record ImuOutput : Type 0 where
  pub frame_id : String
  pub use_hardware_time : Bool

abbrev pub ImuRuntime : Type 0 → Type 0
ImuRuntime W = DriverRuntime Ch020ImuConfig Ch020ImuDriver ImuOutput W

abbrev pub texts : Texts
texts = record {
  source = "ch020_imu_driver";
  online = "ch020_imu.online";
  disconnected = "ch020_imu.disconnected";
  connect_failed = "ch020_imu.connect_failed";
  not_configured = "imu driver is not configured";
}

abbrev pub make_imu_runtime : {W : Type 0} → Ch020ImuConfig → W → ImuRuntime W
make_imu_runtime c = make_runtime c (record { frame_id = "imu_link"; use_hardware_time = false })

pub initialize : {W : Type 0} → DeviceDefinition → ImuRuntime W → ImuRuntime W
initialize def r = record r {
  output = record {
    frame_id = stored_string (find "imu.frame_id" def.parameters) r.output.frame_id;
    use_hardware_time =
        stored_bool (find "imu.use_hardware_time" def.parameters) r.output.use_hardware_time;
  };
}

module _ {W : Type 0} (serial : Serial Ch020ImuConfig W) (clock : W → ℕ × W) where
  abbrev pub driver_ops : Driver Ch020ImuConfig Ch020ImuDriver W
  driver_ops = record {
    make = make_driver;
    config = λ d. d.config;
    is_configured = λ d. d.configured;
    start = Port.start serial;
    stop = Port.stop serial;
    cleanup = Port.cleanup serial;
    configure = Port.configure serial;
  }

  abbrev pub imu_methods : LifecycleMethods (ImuRuntime W)
  imu_methods = methods driver_ops texts config_from clock

  abbrev pub imu_device_runtime : Runtime (ImuRuntime W)
  imu_device_runtime = device_runtime driver_ops texts config_from clock initialize

  pub snapshot : ImuRuntime W → Ch020ImuSnapshot
  snapshot r = elim r.driver [
    | some d ↦ Port.snapshot serial d
    | none ↦ record { connected = false; last_error = ""; frame_count = 0 }
  ]
