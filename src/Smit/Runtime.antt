-- ===== src/Smit/Runtime.antt =====
-- `SmitLidarRuntime` of drivers/smit_ros_driver/src/smit_lidar_runtime.cpp: what it adds to the
-- runtime of Drivers/Runtime.antt.
pub mod Lifecycle
use Prim.Native.String.{find as find_text, len}
use device_manager.Common.{
  ℕ, ◌%◌, ◌^◌, String, Bool, false, leb, Option, none, some, find, if◌then◌else◌,
}
use device_manager.Core.Types.{
  ParameterMap, ParameterValue, int_value, double_value, DeviceDefinition,
}
use device_manager.Core.Runtime.{Runtime, LifecycleMethods}
use device_manager.Drivers.Transport.{Serial}
use device_manager.Drivers.Parameters.{
  Parameter, present, invalid, as_string, as_integer, Configured, valid, read_into, stored_string,
}
use device_manager.Drivers.Runtime.{
  Driver, Texts, DriverRuntime, make_runtime, methods, device_runtime,
}
use device_manager.Smit.Scan.{DoubleOps}
use device_manager.Smit.Driver.{SmitLidarConfig, SmitLidarSnapshot, SmitLidarDriver, make_driver}
use device_manager.Smit.Driver as Port

-- `double` out of the bits of a parameter, and out of an `int64`.
pub record Numbers (D : Type 0) : Type 0 where
  pub from_bits : ℕ → D
  pub from_int : ℕ → D

abbrev pub as_number : {D : Type 0} → Numbers D → ParameterValue → Parameter D
as_number n (double_value b) = present (n.from_bits b)
as_number n (int_value i) = present (n.from_int i)
as_number n _ = invalid

-- The integers are the 64-bit patterns of the parameters, and an `int` keeps the low half.
unfoldable pub config_from :
    {D : Type 0} → Numbers D → ParameterMap → SmitLidarConfig D → Configured (SmitLidarConfig D)
unfolding read_into
config_from n ps c0 =
    let c1 =
      read_into as_string (λ v c. record c { port = v }) ps "device.interface.serial_port"
        (valid c0) in
    let c2 =
      read_into as_integer (λ v c. record c { baudrate = v % 2 ^ 32 }) ps
        "device.interface.serial_baudrate" c1 in
    let c3 =
      read_into (as_number n) (λ v c. record c { angle_min_deg = v }) ps "lidar.scan_angle_min"
        c2 in
    let c4 =
      read_into (as_number n) (λ v c. record c { angle_max_deg = v }) ps "lidar.scan_angle_max"
        c3 in
    let c5 =
      read_into as_integer (λ v c. record c { read_chunk_size = v }) ps "read_chunk_size" c4 in
    let c6 =
      read_into as_integer (λ v c. record c { data_timeout_ms = v % 2 ^ 32 }) ps "data_timeout_ms"
        c5 in
    read_into as_integer (λ v c. record c { reconnect_backoff_ms = v % 2 ^ 32 }) ps
      "reconnect_backoff_ms" c6

-- What `initialize` reads.
pub record LidarOutput : Type 0 where
  pub topic : String
  pub frame_id : String

abbrev pub SmitLidarRuntime : Type 0 → Type 0 → Type 0 → Type 0
SmitLidarRuntime F D W = DriverRuntime (SmitLidarConfig D) (SmitLidarDriver F D) LidarOutput W

abbrev pub texts : Texts
texts = record {
  source = "smit_lidar_driver";
  online = "smit_lidar.online";
  disconnected = "smit_lidar.disconnected";
  connect_failed = "smit_lidar.connect_failed";
  not_configured = "lidar driver is not configured";
}

abbrev pub make_lidar_runtime : {F D W : Type 0} → SmitLidarConfig D → W → SmitLidarRuntime F D W
make_lidar_runtime c = make_runtime c (record { topic = "scan"; frame_id = "lidar_frame" })

abbrev is_front : String → Bool
is_front id = leb (find_text id "front") (len id)

pub initialize :
    {F D W : Type 0} → DeviceDefinition → SmitLidarRuntime F D W → SmitLidarRuntime F D W
initialize def r =
    let front = is_front def.id in
    record r {
      output = record {
        topic =
            stored_string (find "lidar.topic" def.parameters)
              (if front then "scan" else "scan_rear");
        frame_id =
            stored_string (find "lidar.frame_id" def.parameters)
              (if front then "right_front_laser_link" else "left_behind_laser_link");
      };
    }

module _ {F D W : Type 0} (double : DoubleOps F D) (numbers : Numbers D)
    (serial : Serial (SmitLidarConfig D) W) (clock : W → ℕ × W) where
  abbrev pub driver_ops : Driver (SmitLidarConfig D) (SmitLidarDriver F D) W
  driver_ops = record {
    make = make_driver double serial;
    config = λ d. d.config;
    is_configured = λ d. d.configured;
    start = Port.start double serial;
    stop = Port.stop double serial;
    cleanup = Port.cleanup double serial;
    configure = Port.configure double serial;
  }

  abbrev pub lidar_methods : LifecycleMethods (SmitLidarRuntime F D W)
  lidar_methods = methods driver_ops texts (config_from numbers) clock

  abbrev pub lidar_device_runtime : Runtime (SmitLidarRuntime F D W)
  lidar_device_runtime = device_runtime driver_ops texts (config_from numbers) clock initialize

  pub snapshot : SmitLidarRuntime F D W → SmitLidarSnapshot
  snapshot r = elim r.driver [
    | some d ↦ Port.snapshot double serial d
    | none ↦ record { connected = false; config_received = false; last_error = ""; frame_count = 0 }
  ]
