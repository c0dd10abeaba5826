-- ===== src/Battery/Watch.antt =====
-- `TwsBatteryRuntime::poll_once` of drivers/tws_battery_driver_ros2/src/tws_battery_runtime.cpp.
use text.Mathlib.Text.{◌==◌ as str_eq}
use device_manager.Common.{
  ℕ, Bool, true, false, not, List, [], ◌∷◌, ◌++◌, none, some, if◌then◌else◌,
}
use device_manager.Core.Types.{unconfigured, active, state_eq}
use device_manager.Battery.Status.{BatteryStatusLogRecord}
use device_manager.Battery.Driver.{Transport, FloatOps, TwsBatteryDriver}
use device_manager.Battery.Poll.{BatteryPollResult}
use device_manager.Battery.Poll as Poll
use device_manager.Battery.Session.{TwsBatteryRuntime, emit_event, emit_error_event, emit_ok_event}

module _ {F W : Type 0} (float : FloatOps F) (transport : Transport W) (clock : W → ℕ × W) where
  abbrev pub announce : List BatteryStatusLogRecord → TwsBatteryRuntime F W → TwsBatteryRuntime F W
  announce [] r = r
  announce (_ ∷ _) r = emit_ok_event clock "tws_battery.online" "battery online" r

  -- The end of `poll_once`, from the test of the result on.
  unfoldable pub report : BatteryPollResult F → TwsBatteryRuntime F W → Bool × TwsBatteryRuntime F W
  unfolding emit_event
  report result r =
      if not result.ok
      then (
        false,
        if result.report_failure_event
            then emit_error_event clock "tws_battery.poll_failed"
                (if str_eq result.error_message ""
                  then result.snapshot.last_error
                  else result.error_message)
                unconfigured r
            else r,
      )
      else (true, announce result.log_records r)

  abbrev pub keep_result :
      BatteryPollResult F × TwsBatteryDriver F × W → TwsBatteryRuntime F W → TwsBatteryRuntime F W
  keep_result (result, d, w) r = record r {
    driver = some d;
    can = w;
    last_poll_error = if result.ok then "" else result.error_message;
    logs = if r.has_log_handler then r.logs ++ result.log_records else r.logs;
  }

  -- An active runtime has a driver.
  unfoldable pub poll_once : TwsBatteryRuntime F W → Bool × TwsBatteryRuntime F W
  unfolding report Poll.poll_once
  poll_once r = elim r.driver [
    | none ↦ (false, r)
    | some d ↦
        if not (state_eq r.state active)
        then (false, r)
        else (let polled = Poll.poll_once float transport d r.can in
            report polled.0 (keep_result polled r))
  ]
