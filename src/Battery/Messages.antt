-- ===== src/Battery/Messages.antt =====
-- What the battery's runtime publishes after a poll: the messages of
-- drivers/tws_battery_driver_ros2/src/tws_battery_runtime.cpp, and a round of its poll thread. The
-- clock of the node is a parameter, and what is published is returned.
use device_manager.Common.{
  ℕ, String, Bool, not, List, Option, none, some, bit_and, ◌==◌, if◌then◌else◌,
}
use device_manager.Battery.Snapshot.{BatterySnapshot, decode_protection_bits}
use device_manager.Battery.Status.{
  PowerSupplyStatus, project_battery_state, battery_work_state_to_text,
}
use device_manager.Battery.Driver.{Transport, FloatOps}
use device_manager.Battery.Session.{TwsBatteryRuntime}
use device_manager.Battery.Watch.{poll_once}

-- The operations on `float` that the messages add, with the constants 100.0F, 2.0F and NaN;
-- `is_near_full` is the comparison `>= 99.0F`.
pub record MessageOps (F : Type 0) : Type 0 where
  pub is_near_full : F → Bool
  pub add : F → F → F
  pub hundred : F
  pub two : F
  pub nan : F

pub data PowerSupplyHealth : Type 0 where
  good unspec_failure : PowerSupplyHealth

pub record BatteryState (F : Type 0) : Type 0 where
  pub stamp : ℕ
  pub frame_id : String
  pub present : Bool
  pub voltage : F
  pub current : F
  pub percentage : F
  pub charge : F
  pub capacity : F
  pub design_capacity : F
  pub temperature : F
  pub power_supply_status : PowerSupplyStatus
  pub power_supply_health : PowerSupplyHealth

pub record BmsStatus (F : Type 0) : Type 0 where
  pub stamp : ℕ
  pub frame_id : String
  pub connected : Bool
  pub last_error : String
  pub device_address : ℕ
  pub work_state : ℕ
  pub work_state_text : String
  pub pack_voltage_v : F
  pub pack_current_a : F
  pub max_cell_voltage_v : F
  pub min_cell_voltage_v : F
  pub max_cell_temperature_c : F
  pub min_cell_temperature_c : F
  pub max_board_temperature_c : F
  pub min_board_temperature_c : F
  pub soc : F
  pub soh : F
  pub remain_capacity_mah : F
  pub cycle_count : ℕ
  pub protect_status : ℕ
  pub active_protections : List String
  pub io_status : ℕ
  pub charge_mos_control : Bool
  pub discharge_mos_control : Bool
  pub charge_mos_state : Bool
  pub discharge_mos_state : Bool
  pub serial_number : List ℕ
  pub software_version : String
  pub hardware_version : String

module _ {F : Type 0} (float : FloatOps F) (ops : MessageOps F) where
  unfoldable pub build_battery_state_msg : ℕ → BatterySnapshot F → BatteryState F
  build_battery_state_msg now s =
      let projection = project_battery_state ops.is_near_full s.connected s.work_state s.soc in
      record {
        stamp = now;
        frame_id = "battery";
        present = s.connected;
        voltage = s.pack_voltage_v;
        current = s.pack_current_a;
        percentage = float.div s.soc ops.hundred;
        charge = float.div s.remain_capacity_mah float.thousand;
        capacity = float.div s.remain_capacity_mah float.thousand;
        design_capacity = ops.nan;
        temperature = float.div (ops.add s.max_cell_temperature_c s.min_cell_temperature_c) ops.two;
        power_supply_status = projection.power_supply_status;
        power_supply_health = if s.protect_status == 0 then good else unspec_failure;
      }

  abbrev has_bit : ℕ → ℕ → Bool
  has_bit n mask = not (bit_and n mask == 0)

  unfoldable pub build_bms_status_msg : ℕ → BatterySnapshot F → BmsStatus F
  build_bms_status_msg now s =
      let projection = project_battery_state ops.is_near_full s.connected s.work_state s.soc in
      record {
        stamp = now;
        frame_id = "battery";
        connected = s.connected;
        last_error = s.last_error;
        device_address = s.device_address;
        work_state = projection.work_state;
        work_state_text = battery_work_state_to_text projection.work_state;
        pack_voltage_v = s.pack_voltage_v;
        pack_current_a = s.pack_current_a;
        max_cell_voltage_v = s.max_cell_voltage_v;
        min_cell_voltage_v = s.min_cell_voltage_v;
        max_cell_temperature_c = s.max_cell_temperature_c;
        min_cell_temperature_c = s.min_cell_temperature_c;
        max_board_temperature_c = s.max_board_temperature_c;
        min_board_temperature_c = s.min_board_temperature_c;
        soc = s.soc;
        soh = s.soh;
        remain_capacity_mah = s.remain_capacity_mah;
        cycle_count = s.cycle_count;
        protect_status = s.protect_status;
        active_protections = decode_protection_bits s.protect_status;
        io_status = s.io_status;
        charge_mos_control = has_bit s.io_status 1;
        discharge_mos_control = has_bit s.io_status 2;
        charge_mos_state = has_bit s.io_status 4;
        discharge_mos_state = has_bit s.io_status 8;
        serial_number = s.serial_number;
        software_version = s.software_version;
        hardware_version = s.hardware_version;
      }

  -- `snapshot`, while there is a driver.
  abbrev pub snapshot : {W : Type 0} → TwsBatteryRuntime F W → Option (BatterySnapshot F)
  snapshot r = elim r.driver [ none ↦ none | some d ↦ some (d.last_snapshot) ]

  abbrev pub publish_snapshot :
      ℕ → Option (BatterySnapshot F) → Option (BatteryState F × BmsStatus F)
  publish_snapshot now none = none
  publish_snapshot now (some s) = some (build_battery_state_msg now s, build_bms_status_msg now s)

  -- A round of `poll_loop` after its wait, unless it was woken up to stop.
  unfoldable pub poll_round :
      {W : Type 0}
      → Transport W
      → (W → ℕ × W)
      → ℕ
      → TwsBatteryRuntime F W
      → Option (BatteryState F × BmsStatus F) × TwsBatteryRuntime F W
  unfolding poll_once build_battery_state_msg build_bms_status_msg
  poll_round transport clock now r =
      if not r.polling
      then (none, r)
      else (let (ok, r') = poll_once float transport clock r in
          (publish_snapshot now (snapshot r'), r'))
