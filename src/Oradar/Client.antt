-- ===== src/Oradar/Client.antt =====
-- `OradarLidarClient` and `OradarLidarConfig` of
-- drivers/oradar_ros_driver/include/oradar_ros_driver/oradar_lidar_client.hpp, and the
-- configuration in drivers/oradar_ros_driver/src/oradar_lidar_runtime.cpp. The client behind the
-- interface drives the lidar's SDK and is a parameter, with a world `W`.
use device_manager.Common.{
  ℕ, ◌%◌, ◌^◌, String, Bool, true, false, List, [], ◌∷◌, Option, none, some, append,
}
use device_manager.Core.Types.{ParameterMap, ParameterValue, int_value, double_value}
use device_manager.Core.Runtime.{Call}
use device_manager.Drivers.Parameters.{
  Parameter, absent, invalid, present, as_string, as_integer, as_bool, parameter_as, Configured,
}

-- `ord_sdk::error_t`.
pub data Error : Type 0 where
  no_error operation_failure timed_out address_in_use : Error

abbrev pub is_ok : Error → Bool
is_ok no_error = true
is_ok _ = false

abbrev pub error_name : Error → String
error_name no_error = "no_error"
error_name operation_failure = "operation_failure"
error_name timed_out = "timed_out"
error_name address_in_use = "address_in_use"

-- `int` fields are bit patterns, and `D` is `double`.
pub record OradarLidarConfig (D : Type 0) : Type 0 where
  pub ip_address : String
  pub network_interface : String
  pub udp_port : ℕ
  pub motor_speed : ℕ
  pub filter_size : ℕ
  pub motor_dir : ℕ
  pub timeout_ms : ℕ
  pub reconnect_backoff_ms : ℕ
  pub angle_min_deg : D
  pub angle_max_deg : D
  pub range_min_m : D
  pub range_max_m : D
  pub inverted : Bool

-- The values that the configuration starts from, and the conversions to `double`, of its own bit
-- pattern and of an integer's.
pub record Doubles (D : Type 0) : Type 0 where
  pub of_bits : ℕ → D
  pub of_integer : ℕ → D
  pub minus_135 : D
  pub plus_135 : D
  pub range_005 : D
  pub range_30 : D

-- `ScanFrameData`; a layer is its ranges and its intensities.
pub record Layer : Type 0 where
  pub ranges : List ℕ
  pub intensities : List ℕ

abbrev pub ScanFrame : Type 0
ScanFrame = List Layer

-- `create` is the factory, which may throw; a read returns the error with the value; and `spawn` is
-- the constructor of `std::thread` for the read thread, which may throw too.
pub record Client (D W : Type 0) : Type 0 where
  pub create : OradarLidarConfig D → W → Configured (Unit {0}) × W
  pub open_port : W → Error × W
  pub is_open : W → Bool
  pub close : W → W
  pub set_timeout : ℕ → W → W
  pub track_connect : W → Error × W
  pub enable_measure : W → Error × W
  pub disable_measure : W → Error × W
  pub enable_data_stream : W → Error × W
  pub disable_data_stream : W → Error × W
  pub get_scan_speed : W → Error × ℕ × W
  pub set_scan_speed : ℕ → W → Error × W
  pub get_tail_filter_level : W → Error × ℕ × W
  pub set_tail_filter_level : ℕ → W → Error × W
  pub get_scan_direction : W → Error × ℕ × W
  pub set_scan_direction : ℕ → W → Error × W
  pub apply_configs : W → Error × W
  pub get_scan_frame_data : W → Error × ScanFrame × W
  pub spawn : W → Call (Unit {0}) × W

-- A block of `config_from`, of which there is one for each list of names: the first name that is
-- there, or has the wrong type, decides. The text is that of the first error.
unfoldable pub first_into :
    {A C : Type 0}
    → (ParameterValue → Parameter A)
    → (A → C → C)
    → ParameterMap
    → List String
    → Option String × C
    → Option String × C
unfolding parameter_as
first_into f store ps [] r = r
first_into f store ps (name ∷ names) (some m, c) = (some m, c)
first_into f store ps (name ∷ names) (none, c) = elim (parameter_as f ps name) [
  | absent ↦ first_into f store ps names (none, c)
  | present v ↦ (none, store v c)
  | invalid ↦ (some (append "invalid parameter type: " name), c)
]

module _ {D : Type 0} (doubles : Doubles D) where
  -- `number_parameter` takes an integer as well.
  abbrev pub as_number : ParameterValue → Parameter D
  as_number (double_value n) = present (doubles.of_bits n)
  as_number (int_value n) = present (doubles.of_integer n)
  as_number _ = invalid

  abbrev pub default_config : OradarLidarConfig D
  default_config = record {
    ip_address = "192.168.1.100";
    network_interface = "";
    udp_port = 2007;
    motor_speed = 15;
    filter_size = 0;
    motor_dir = 0;
    timeout_ms = 3000;
    reconnect_backoff_ms = 1000;
    angle_min_deg = doubles.minus_135;
    angle_max_deg = doubles.plus_135;
    range_min_m = doubles.range_005;
    range_max_m = doubles.range_30;
    inverted = false;
  }

  -- The network's parameters.
  abbrev pub network_from : ParameterMap → Option String × OradarLidarConfig D
  network_from ps =
      let c1 =
        first_into as_string (λ v c. record c { ip_address = v }) ps
          ("device.interface.ip_address" ∷ "device.interface.ethernet_ip" ∷ [])
          (none, default_config) in
      let c2 =
        first_into as_string (λ v c. record c { network_interface = v }) ps
          ("device.interface.name" ∷ "device.interface.network_interface"
            ∷ "device.interface.ethernet_name" ∷ [])
          c1 in
      first_into as_integer (λ v c. record c { udp_port = v % 2 ^ 32 }) ps
        ("device.interface.udp_port" ∷ "device.interface.ethernet_port" ∷ []) c2

  -- An error ends the chain of the parameters.
  unfoldable pub config_from : ParameterMap → Option String × OradarLidarConfig D
  unfolding first_into
  config_from ps =
      let c3 = network_from ps in
      let c4 =
        first_into as_integer (λ v c. record c { motor_speed = v % 2 ^ 32 }) ps
          ("lidar.scan_frequency" ∷ []) c3 in
      let c5 =
        first_into as_integer (λ v c. record c { filter_size = v % 2 ^ 32 }) ps
          ("lidar.filter_size" ∷ []) c4 in
      let c6 =
        first_into as_integer (λ v c. record c { motor_dir = v % 2 ^ 32 }) ps
          ("lidar.motor_dir" ∷ []) c5 in
      let c7 =
        first_into as_number (λ v c. record c { angle_min_deg = v }) ps
          ("lidar.scan_angle_min" ∷ []) c6 in
      let c8 =
        first_into as_number (λ v c. record c { angle_max_deg = v }) ps
          ("lidar.scan_angle_max" ∷ []) c7 in
      let c9 =
        first_into as_number (λ v c. record c { range_min_m = v }) ps ("lidar.range_min" ∷ []) c8 in
      let c10 =
        first_into as_number (λ v c. record c { range_max_m = v }) ps ("lidar.range_max" ∷ []) c9 in
      let c11 =
        first_into as_bool (λ v c. record c { inverted = v }) ps ("lidar.inverted" ∷ []) c10 in
      let c12 =
        first_into as_integer (λ v c. record c { timeout_ms = v % 2 ^ 32 }) ps
          ("data_timeout_ms" ∷ []) c11 in
      first_into as_integer (λ v c. record c { reconnect_backoff_ms = v % 2 ^ 32 }) ps
        ("reconnect_backoff_ms" ∷ []) c12
