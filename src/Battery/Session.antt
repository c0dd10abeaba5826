-- ===== src/Battery/Session.antt =====
-- The state of `TwsBatteryRuntime` of drivers/tws_battery_driver_ros2/src/tws_battery_runtime.cpp,
-- its configuration, its poll thread and its events. The ROS node, its publishers and the waiting
-- of the poll thread are not modelled.
use device_manager.Common.{
  ℕ, ◌%◌, ◌^◌, String, Bool, true, false, not, List, [], ◌∷◌, ◌++◌, Option, none, some,
  if◌then◌else◌,
}
use device_manager.Core.Types.{
  LifecycleState, unknown, finalized, ok_level, error_level, ParameterMap, DeviceEvent,
}
use device_manager.Core.Runtime.{Call, returns, throws, throws_unknown}
use device_manager.Drivers.Parameters.{as_string, as_integer, as_bool, Configured, valid, read_into}
use device_manager.Battery.Status.{BatteryStatusLogRecord}
use device_manager.Battery.Driver.{BatteryDriverConfig, TwsBatteryDriver}

-- The integers are the 64-bit patterns of the parameters, and a narrower one keeps the low bits.
unfoldable pub config_from : ParameterMap → BatteryDriverConfig → Configured BatteryDriverConfig
unfolding read_into
config_from ps c0 =
    let c1 =
      read_into as_string (λ v c. record c { can_interface = v }) ps "device.interface.can_name"
        (valid c0) in
    let c2 =
      read_into as_integer (λ v c. record c { can_id = v % 2 ^ 32 }) ps "battery.can_id" c1 in
    let c3 =
      read_into as_bool (λ v c. record c { use_extended_frame = v }) ps "battery.use_extended_frame"
        c2 in
    let c4 =
      read_into as_integer (λ v c. record c { timeout_ms = v % 2 ^ 32 }) ps "request_timeout_ms"
        c3 in
    let c5 =
      read_into as_integer (λ v c. record c { poll_interval_ms = v % 2 ^ 32 }) ps "poll_interval_ms"
        c4 in
    let c6 =
      read_into as_integer (λ v c. record c { identity_poll_divider = v % 2 ^ 32 }) ps
        "identity_poll_divider" c5 in
    read_into as_integer (λ v c. record c { device_address = v % 2 ^ 8 }) ps
      "battery.device_address" c6

-- The runtime with the world of its transport. `polling` is that the poll thread is joinable;
-- `events` and `logs` are what was handed to the event handler and the log handler.
pub record TwsBatteryRuntime (F W : Type 0) : Type 0 where
  pub config : BatteryDriverConfig
  pub state : LifecycleState
  pub has_handler : Bool
  pub has_log_handler : Bool
  pub has_output_node : Bool
  pub last_poll_error : String
  pub polling : Bool
  pub driver : Option (TwsBatteryDriver F)
  pub events : List DeviceEvent
  pub logs : List BatteryStatusLogRecord
  pub can : W
  pub handled_event_revision : ℕ

-- The constructor.
abbrev pub make_battery_runtime : {F W : Type 0} → BatteryDriverConfig → W → TwsBatteryRuntime F W
make_battery_runtime c w = record {
  config = c;
  state = finalized;
  has_handler = false;
  has_log_handler = false;
  has_output_node = false;
  last_poll_error = "";
  polling = false;
  driver = none;
  events = [];
  logs = [];
  can = w;
  handled_event_revision = 0;
}

module _ {F W : Type 0} where
  -- Without an output node nothing is started; a thread that is there stays the only one. `spawn`
  -- is the constructor of `std::thread`, which may throw.
  abbrev pub spawned :
      Call (Unit {0}) × W → TwsBatteryRuntime F W → Call (Unit {0}) × TwsBatteryRuntime F W
  spawned (returns _, w) r = (returns tt, record r { polling = true; can = w })
  spawned (throws m, w) r = (throws m, record r { can = w })
  spawned (throws_unknown, w) r = (throws_unknown, record r { can = w })

  unfoldable pub start_polling :
      (W → Call (Unit {0}) × W) → TwsBatteryRuntime F W → Call (Unit {0}) × TwsBatteryRuntime F W
  start_polling spawn r =
      if not r.has_output_node
      then (returns tt, r)
      else if r.polling
      then (returns tt, r)
      else spawned (spawn r.can) r

  -- The thread ends before `join` returns.
  unfoldable pub stop_polling : TwsBatteryRuntime F W → TwsBatteryRuntime F W
  stop_polling r = record r { polling = false }

  -- `poll_interval_ms`, which the poll thread waits.
  pub poll_interval_ms : TwsBatteryRuntime F W → ℕ
  poll_interval_ms r = elim r.driver [
    | some d ↦ d.config.poll_interval_ms
    | none ↦ r.config.poll_interval_ms
  ]

  pub set_log_handler : Bool → TwsBatteryRuntime F W → TwsBatteryRuntime F W
  set_log_handler installed r = record r { has_log_handler = installed }

  module _ (clock : W → ℕ × W) where
    -- `emit_event` and the two operations that call it.
    unfoldable pub emit_event :
        Bool → String → String → LifecycleState → TwsBatteryRuntime F W → TwsBatteryRuntime F W
    emit_event ok code message target r =
        let (t, w) = clock r.can in
        let event : DeviceEvent = record {
          timestamp = t;
          level = if ok then ok_level else error_level;
          code = code;
          message = message;
          source = "tws_battery_driver";
          target_state = target;
          values = [];
        } in
        record r { events = if r.has_handler then r.events ++ event ∷ [] else r.events; can = w }

    abbrev pub emit_error_event :
        String → String → LifecycleState → TwsBatteryRuntime F W → TwsBatteryRuntime F W
    emit_error_event = emit_event false

    abbrev pub emit_ok_event : String → String → TwsBatteryRuntime F W → TwsBatteryRuntime F W
    emit_ok_event code message = emit_event true code message unknown
