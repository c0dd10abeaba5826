-- ===== src/Battery/Runtime.antt =====
-- `TwsBatteryRuntime` of drivers/tws_battery_driver_ros2/src/tws_battery_runtime.cpp: the lifecycle
-- and the calls that the device makes.
pub mod Connected
pub mod Lifecycle
pub mod Polled
use device_manager.Common.{
  ℕ, ◌%◌, ◌^◌, String, Bool, true, false, not, ◌||◌, List, [], ◌∷◌, ◌++◌, Option, none, some,
  if◌then◌else◌,
}
use device_manager.Core.Types.{
  LifecycleState, unknown, unconfigured, inactive, active, finalized, configuring, error, ok_level,
  error_level, ParameterMap, DeviceEvent, DeviceDefinition, TransitionOutcome, TransitionRequest,
  standard_parameter_transitions, state_eq,
}
use device_manager.Core.Runtime.{
  Call, returns, Runtime, LifecycleHook, LifecycleMethods, request_transition,
}
use device_manager.Drivers.Parameters.{
  as_string, as_integer, as_bool, Configured, valid, refused, read_into, succeed, succeed_if, fail,
}
use device_manager.Imu.Recovery.{hook}
use device_manager.Battery.Status.{BatteryStatusLogRecord}
use device_manager.Battery.Driver.{
  BatteryDriverConfig, Transport, FloatOps, TwsBatteryDriver, make_driver,
}
use device_manager.Battery.Driver as Driver
use device_manager.Battery.Session.{
  TwsBatteryRuntime, config_from, start_polling, stop_polling, emit_event, emit_error_event,
}

module _ {F W : Type 0} (float : FloatOps F) (transport : Transport W) (clock : W → ℕ × W)
    (spawn : W → Call (Unit {0}) × W) (ros_ok : W → Bool) where
  abbrev pub initialize : DeviceDefinition → TwsBatteryRuntime F W → TwsBatteryRuntime F W
  initialize def r = if ros_ok r.can then record r { has_output_node = true } else r

  unfoldable pub materialize :
      ParameterMap → TwsBatteryRuntime F W → Call TransitionOutcome × TwsBatteryRuntime F W
  materialize ps r = elim r.driver [
    | some d ↦ fail "runtime is already materialized" r
    | none ↦
        if not (state_eq r.state finalized)
        then fail "runtime is already materialized" r
        else succeed (record r { driver = some (make_driver float r.config); state = unconfigured })
  ]

  -- The driver is looked up once; nothing else takes it away while the thread is stopped.
  unfoldable pub dematerialize :
      TwsBatteryRuntime F W → Call TransitionOutcome × TwsBatteryRuntime F W
  unfolding stop_polling Driver.cleanup
  dematerialize r = elim r.driver [
    | none ↦ fail "runtime is not materialized" r
    | some d ↦
        if state_eq r.state finalized
        then fail "runtime is not materialized" r
        else (let r' = stop_polling r in
            let (d', w) = Driver.cleanup transport d r'.can in
            succeed (record r' { driver = none; state = finalized; can = w }))
  ]

  -- What `configure` does with the driver's answer.
  unfoldable pub settle :
      Option String × TwsBatteryDriver F × W
      → TwsBatteryRuntime F W
      → Call TransitionOutcome × TwsBatteryRuntime F W
  unfolding emit_event
  settle (none, d, w) r = succeed (record r { state = inactive; driver = some d; can = w })
  settle (some m, d, w) r = (
    returns (record { result = error; message = m }),
    emit_error_event clock "tws_battery.connect_failed" m unconfigured
        (record r { state = unconfigured; driver = some d; can = w }),
  )

  unfoldable pub configure_with :
      Configured BatteryDriverConfig
      → TwsBatteryDriver F
      → TwsBatteryRuntime F W
      → Call TransitionOutcome × TwsBatteryRuntime F W
  unfolding settle Driver.configure
  configure_with (refused m) d r = fail m r
  configure_with (valid c) d r =
      settle (Driver.configure transport c d r.can) (record r { state = configuring })

  unfoldable pub configure :
      ParameterMap → TwsBatteryRuntime F W → Call TransitionOutcome × TwsBatteryRuntime F W
  unfolding configure_with config_from
  configure ps r = elim r.driver [
    | none ↦ fail "source state does not match" r
    | some d ↦
        if not (state_eq r.state unconfigured)
        then fail "source state does not match" r
        else configure_with (config_from ps d.config) d r
  ]

  -- `is_configured` of the driver is that it has a transport.
  unfoldable pub activate : TwsBatteryRuntime F W → Call TransitionOutcome × TwsBatteryRuntime F W
  unfolding start_polling
  activate r = elim r.driver [
    | none ↦ fail "source state does not match" r
    | some d ↦
        if not (state_eq r.state inactive)
        then fail "source state does not match" r
        else if not d.has_transport
        then fail "battery driver is not configured" r
        else (let (started, r') = start_polling spawn (record r { state = active }) in
            succeed_if started r')
  ]

  unfoldable pub deactivate : TwsBatteryRuntime F W → Call TransitionOutcome × TwsBatteryRuntime F W
  unfolding stop_polling
  deactivate r = elim r.driver [
    | none ↦ fail "source state does not match" r
    | some d ↦
        if not (state_eq r.state active)
        then fail "source state does not match" r
        else succeed (stop_polling (record r { state = inactive }))
  ]

  unfoldable pub cleanup :
      ParameterMap → TwsBatteryRuntime F W → Call TransitionOutcome × TwsBatteryRuntime F W
  unfolding Driver.cleanup
  cleanup ps r = elim r.driver [
    | none ↦ fail "source state does not match" r
    | some d ↦
        if not (state_eq r.state inactive)
        then fail "source state does not match" r
        else (let (d', w) = Driver.cleanup transport d r.can in
            succeed (record r { state = unconfigured; driver = some d'; can = w }))
  ]

  abbrev pub battery_methods : LifecycleMethods (TwsBatteryRuntime F W)
  battery_methods = record {
    materialize = materialize;
    configure = configure;
    activate = activate;
    deactivate = deactivate;
    cleanup = cleanup;
    dematerialize = dematerialize;
  }

  abbrev pub set_event_handler :
      Bool → TwsBatteryRuntime F W → Call (Unit {0}) × TwsBatteryRuntime F W
  set_event_handler installed r = (returns tt, record r { has_handler = installed })

  -- The function that `register_hook` hands to the registrar, which is that of the other drivers.
  pub recover : LifecycleHook (TwsBatteryRuntime F W)
  recover c r =
      let (rs, handled) = hook c r.handled_event_revision in
      (returns rs, record r { handled_event_revision = handled })

  pub register_hook : TwsBatteryRuntime F W → Call (Unit {0}) × TwsBatteryRuntime F W
  register_hook r = (returns tt, record r { handled_event_revision = 0 })

  abbrev pub parameter_transitions :
      LifecycleState
      → ParameterMap
      → ParameterMap
      → TwsBatteryRuntime F W
      → Call (List TransitionRequest) × TwsBatteryRuntime F W
  parameter_transitions s current patch r = (returns (standard_parameter_transitions s current), r)

  unfoldable pub battery_device_runtime : Runtime (TwsBatteryRuntime F W)
  battery_device_runtime = record {
    initialize = initialize;
    state = λ r. (returns r.state, r);
    request_transition = request_transition battery_methods;
    parameter_transitions = parameter_transitions;
    set_event_handler = set_event_handler;
    hooks = λ r. recover ∷ [];
    register_hook = register_hook;
    now = λ r. let (t, w) = clock r.can in (t, record r { can = w });
  }
