-- ===== src/Battery/Driver.antt =====
-- `TwsBatteryDriver` of drivers/tws_battery_driver_ros2/src/tws_battery_driver.cpp. The CAN
-- transport is a parameter, with a world `W` that its calls take along, and so is `float`.
use device_manager.Common.{
  ℕ, String, Bool, true, false, List, [], Option, none, some, if◌then◌else◌,
}
use device_manager.Battery.Soc.{SocOps, SocSpikeFilter}
use device_manager.Battery.Snapshot.{BatterySnapshot}
use device_manager.Battery.Status.{
  BatteryStatusTransitionEvent, BatteryStatusTransitionTracker, BatteryStatusLogRecord, info, warn,
  observe_online, observe_offline, make_battery_status_log_record, make_battery_soc_log_record,
}
use device_manager.Battery.Status as Status

-- `int` fields are their bit patterns.
pub record BatteryDriverConfig : Type 0 where
  pub can_interface : String
  pub can_id : ℕ
  pub use_extended_frame : Bool
  pub timeout_ms : ℕ
  pub poll_interval_ms : ℕ
  pub identity_poll_divider : ℕ
  pub device_address : ℕ

-- What `read_holding_registers` returns: the bytes, or the text of the error.
pub data Answer : Type 0 where
  bytes : List ℕ → Answer
  no_answer : String → Answer

-- No call throws: `create` tells whether the factory returned a transport, and `connect` returns
-- the text of the error, if it fails.
pub record Transport (W : Type 0) : Type 0 where
  pub create : BatteryDriverConfig → W → Bool × W
  pub connect : W → Option String × W
  pub disconnect : W → W
  pub is_connected : W → Bool
  pub read_holding_registers : ℕ → ℕ → ℕ → W → Answer × W

-- The machine's `float`: the conversions of the integers' bit patterns, the operations and the
-- constants 1000.0F, 40.0F and 0.0F; `print_fixed` prints one digit behind the point.
pub record FloatOps (F : Type 0) : Type 0 where
  pub soc_ops : SocOps F
  pub from_unsigned : ℕ → F
  pub from_signed : ℕ → F
  pub div : F → F → F
  pub sub : F → F → F
  pub thousand : F
  pub forty : F
  pub null : F
  pub print_fixed : F → String

-- `has_transport` is that the pointer is set. `current_soc` is the value of the soc tracker.
pub record TwsBatteryDriver (F : Type 0) : Type 0 where
  pub config : BatteryDriverConfig
  pub has_transport : Bool
  pub status_transition_tracker : BatteryStatusTransitionTracker
  pub current_soc : Option F
  pub soc_filter : SocSpikeFilter F
  pub last_snapshot : BatterySnapshot F
  pub has_successful_poll : Bool
  pub consecutive_poll_failures : ℕ
  pub poll_counter : ℕ

-- The constructor.
abbrev pub make_driver : {F : Type 0} → FloatOps F → BatteryDriverConfig → TwsBatteryDriver F
make_driver float c = record {
  config = c;
  has_transport = false;
  status_transition_tracker = Status.initial;
  current_soc = none;
  soc_filter = record {
    has_accepted_soc = false;
    accepted_soc = float.null;
    pending_full_soc_count = 0;
  };
  last_snapshot = record {
    connected = false;
    last_error = "";
    device_address = c.device_address;
    work_state = 0;
    pack_voltage_v = float.null;
    pack_current_a = float.null;
    max_cell_voltage_v = float.null;
    min_cell_voltage_v = float.null;
    max_cell_temperature_c = float.null;
    min_cell_temperature_c = float.null;
    max_board_temperature_c = float.null;
    min_board_temperature_c = float.null;
    soc = float.null;
    soh = float.null;
    remain_capacity_mah = float.null;
    cycle_count = 0;
    protect_status = 0;
    io_status = 0;
    serial_number = [];
    software_version = "";
    hardware_version = "";
  };
  has_successful_poll = false;
  consecutive_poll_failures = 0;
  poll_counter = 0;
}

module _ {F W : Type 0} (transport : Transport W) where
  open transport use {create, connect, disconnect, is_connected, read_holding_registers}

  -- `last_snapshot_.connected = false; last_snapshot_.last_error = error_message`.
  abbrev pub mark_lost : String → TwsBatteryDriver F → TwsBatteryDriver F
  mark_lost m d = record d {
    last_snapshot = record (d.last_snapshot) { connected = false; last_error = m };
  }

  abbrev pub connected_with :
      Option String × W → TwsBatteryDriver F → Option String × TwsBatteryDriver F × W
  connected_with (none, w) d = (none, d, w)
  connected_with (some e, w) d = (some e, mark_lost e d, w)

  -- The second half of `ensure_connected`.
  abbrev pub connect_transport : TwsBatteryDriver F → W → Option String × TwsBatteryDriver F × W
  connect_transport d w = if is_connected w then (none, d, w) else connected_with (connect w) d

  -- `ensure_connected`: the text of the error, if there is one.
  unfoldable pub ensure_connected : TwsBatteryDriver F → W → Option String × TwsBatteryDriver F × W
  ensure_connected d w =
      if d.has_transport
      then connect_transport d w
      else (let (made, w') = create d.config w in
          if made
          then connect_transport (record d { has_transport = true }) w'
          else (let m : String = "battery transport factory returned null" in
              (some m, mark_lost m d, w')))

  unfoldable pub cleanup : TwsBatteryDriver F → W → TwsBatteryDriver F × W
  cleanup d w = (
    record d {
      has_transport = false;
      has_successful_poll = false;
      consecutive_poll_failures = 0;
      poll_counter = 0;
    },
    if d.has_transport then disconnect w else w,
  )

  unfoldable pub configure :
      BatteryDriverConfig → TwsBatteryDriver F → W → Option String × TwsBatteryDriver F × W
  unfolding cleanup ensure_connected
  configure c d w =
      let (d', w') = cleanup d w in
      let (made, w'') = create c w' in
      let d'' : TwsBatteryDriver F = record d' {
        config = c;
        last_snapshot = record (d'.last_snapshot) { device_address = c.device_address };
        has_transport = made;
      } in
      if made
      then ensure_connected d'' w''
      else (let m : String = "battery transport factory returned null" in
          (some m, mark_lost m d'', w''))
