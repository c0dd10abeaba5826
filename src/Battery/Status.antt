-- ===== src/Battery/Status.antt =====
-- The online status of the battery: battery_status_transition_tracker.hpp,
-- battery_status_transition_log.hpp and battery_state_projection.hpp of
-- drivers/tws_battery_driver_ros2.
use device_manager.Common.{
  ℕ, String, append, Bool, true, false, not, Option, none, some, ◌==◌, to_string, if◌then◌else◌,
}
use device_manager.Battery.Soc.{BatterySocTransitionEvent}

pub data BatteryStatusTransitionType : Type 0 where
  online offline work_state_changed : BatteryStatusTransitionType

pub record BatteryStatusTransitionEvent : Type 0 where
  pub type : BatteryStatusTransitionType
  pub previous_work_state : ℕ
  pub current_work_state : ℕ
  pub error_message : String

pub record BatteryStatusTransitionTracker : Type 0 where
  pub online : Bool
  pub current_work_state : ℕ

abbrev pub initial : BatteryStatusTransitionTracker
initial = record { online = false; current_work_state = 0 }

unfoldable pub observe_online :
    ℕ
    → BatteryStatusTransitionTracker
    → Option BatteryStatusTransitionEvent × BatteryStatusTransitionTracker
observe_online state t =
    if not t.online
    then (
      some (record {
        type = online;
        previous_work_state = state;
        current_work_state = state;
        error_message = "";
      }),
      record { online = true; current_work_state = state },
    )
    else if state == t.current_work_state
    then (none, t)
    else (
      some (record {
        type = work_state_changed;
        previous_work_state = t.current_work_state;
        current_work_state = state;
        error_message = "";
      }),
      record t { current_work_state = state },
    )

unfoldable pub observe_offline :
    String
    → BatteryStatusTransitionTracker
    → Option BatteryStatusTransitionEvent × BatteryStatusTransitionTracker
observe_offline message t = if not t.online then (none, t) else (
  some (record {
    type = offline;
    previous_work_state = t.current_work_state;
    current_work_state = t.current_work_state;
    error_message = message;
  }),
  record t { online = false },
)

pub data BatteryStatusLogLevel : Type 0 where
  info warn : BatteryStatusLogLevel

pub record BatteryStatusLogRecord : Type 0 where
  pub level : BatteryStatusLogLevel
  pub message : String

pub battery_work_state_to_text : ℕ → String
battery_work_state_to_text state =
    if state == 0
    then "EM_IDLE"
    else if state == 1
    then "EM_CHARGE"
    else if state == 2
    then "EM_DISCHARGE"
    else if state == 3
    then "EM_SLEEP"
    else if state == 4
    then "EM_PROTECT"
    else if state == 5
    then "EM_SHUTDOWN"
    else "UNKNOWN"

pub format_work_state : ℕ → String
unfolding to_string
format_work_state state =
    append (battery_work_state_to_text state) (append "(" (append (to_string state) ")"))

pub make_battery_status_log_record : BatteryStatusTransitionEvent → BatteryStatusLogRecord
unfolding format_work_state
make_battery_status_log_record e = elim e.type [
  | online ↦ record {
    level = info;
    message = append "电池上线: work_state=" (format_work_state e.current_work_state);
  }
  | offline ↦ record { level = warn; message = append "电池掉线: " e.error_message }
  | work_state_changed ↦ record {
    level = info;
    message = append "电池工作状态变化: " (
        append (format_work_state e.previous_work_state)
          (append " -> " (format_work_state e.current_work_state)));
  }
]

-- `print_fixed` prints a float with one digit behind the point.
pub format_soc : {F : Type 0} → (F → String) → F → String
format_soc print_fixed soc = append (print_fixed soc) "%"

pub make_battery_soc_log_record :
    {F : Type 0} → (F → String) → BatterySocTransitionEvent F → BatteryStatusLogRecord
unfolding format_soc
make_battery_soc_log_record print_fixed e = record {
  level = info;
  message = append "电池电量变化: " (
      append (format_soc print_fixed e.previous_soc)
        (append " -> " (format_soc print_fixed e.current_soc)));
}

-- The constants of `sensor_msgs::msg::BatteryState`.
pub data PowerSupplyStatus : Type 0 where
  unknown charging discharging not_charging full : PowerSupplyStatus

pub record BatteryStateProjection : Type 0 where
  pub work_state : ℕ
  pub power_supply_status : PowerSupplyStatus

-- `is_near_full` is the comparison `>= 99.0F`.
pub project_battery_state : {F : Type 0} → (F → Bool) → Bool → ℕ → F → BatteryStateProjection
project_battery_state is_near_full connected state soc =
    if not connected
    then record { work_state = 0; power_supply_status = not_charging }
    else record {
      work_state = state;
      power_supply_status =
          if state == 1
          then charging
          else if state == 2
          then discharging
          else if is_near_full soc
          then full
          else unknown;
    }
