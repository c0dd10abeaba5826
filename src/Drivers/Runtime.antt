-- ===== src/Drivers/Runtime.antt =====
-- The runtime of a serial driver, of which the packages under drivers/ have a copy each; the model
-- follows drivers/ch020_imu_driver/src/ch020_imu_runtime.cpp. What differs is a parameter: the
-- driver, the texts of the events and the reading of the configuration. The ROS node and its
-- publishers are not modelled.
pub mod Lifecycle
use device_manager.Common.{
  ℕ, String, Bool, true, false, not, List, [], ◌∷◌, ◌++◌, Option, none, some, if◌then◌else◌,
}
use device_manager.Core.Types.{
  LifecycleState, unknown, unconfigured, inactive, active, finalized, configuring, error, ok_level,
  error_level, ParameterMap, DeviceEvent, DeviceDefinition, TransitionOutcome, TransitionRequest,
  standard_parameter_transitions, state_eq,
}
use device_manager.Core.Runtime.{
  Call, returns, throws, throws_unknown, Runtime, LifecycleHook, LifecycleMethods,
  request_transition,
}
use device_manager.Drivers.Parameters.{Configured, valid, refused, succeed, succeed_if, fail}
use device_manager.Imu.Recovery.{hook}

-- A driver as its runtime calls it; `configure` returns the text of the error, if it fails, and
-- both `start` and `configure` may throw.
pub record Driver (C D W : Type 0) : Type 0 where
  pub make : C → D
  pub config : D → C
  pub is_configured : D → Bool
  pub start : D → W → Call (Unit {0}) × D × W
  pub stop : D → W → D × W
  pub cleanup : D → W → D × W
  pub configure : C → D → W → Call (Option String) × D × W

pub record Texts : Type 0 where
  pub source : String
  pub online : String
  pub disconnected : String
  pub connect_failed : String
  pub not_configured : String

-- The runtime with the world of its driver; `events` are those handed to the event handler, the
-- hook shares `handled_event_revision`, and `output` is what `initialize` reads for the publishers.
pub record DriverRuntime (C D O W : Type 0) : Type 0 where
  pub config : C
  pub state : LifecycleState
  pub has_handler : Bool
  pub output : O
  pub driver : Option D
  pub events : List DeviceEvent
  pub serial : W
  pub handled_event_revision : ℕ

abbrev pub make_runtime : {C D O W : Type 0} → C → O → W → DriverRuntime C D O W
make_runtime c o w = record {
  config = c;
  state = finalized;
  has_handler = false;
  output = o;
  driver = none;
  events = [];
  serial = w;
  handled_event_revision = 0;
}

module _ {C D O W : Type 0} (ops : Driver C D W) (texts : Texts)
    (config_from : ParameterMap → C → Configured C) (clock : W → ℕ × W) where
  unfoldable pub emit_event :
      Bool → String → String → LifecycleState → DriverRuntime C D O W → DriverRuntime C D O W
  emit_event ok code message target r =
      let (t, w) = clock r.serial in
      let event : DeviceEvent = record {
        timestamp = t;
        level = if ok then ok_level else error_level;
        code = code;
        message = message;
        source = texts.source;
        target_state = target;
        values = [];
      } in
      record r { events = if r.has_handler then r.events ++ event ∷ [] else r.events; serial = w }

  abbrev pub emit_error_event :
      String → String → LifecycleState → DriverRuntime C D O W → DriverRuntime C D O W
  emit_error_event = emit_event false

  abbrev pub emit_ok_event : String → String → DriverRuntime C D O W → DriverRuntime C D O W
  emit_ok_event code message = emit_event true code message unknown

  -- The connection handler that `materialize` installs in the driver.
  pub on_connection : Bool → String → DriverRuntime C D O W → DriverRuntime C D O W
  on_connection connected message r =
      if connected
      then emit_ok_event texts.online message r
      else emit_error_event texts.disconnected message active r

  unfoldable pub materialize :
      ParameterMap → DriverRuntime C D O W → Call TransitionOutcome × DriverRuntime C D O W
  materialize ps r = elim r.driver [
    | some d ↦ fail "runtime is already materialized" r
    | none ↦
        if not (state_eq r.state finalized)
        then fail "runtime is already materialized" r
        else succeed (record r { driver = some (ops.make r.config); state = unconfigured })
  ]

  -- The driver leaves the runtime, is cleaned up and destroyed, which cleans it up once more.
  unfoldable pub dematerialize :
      DriverRuntime C D O W → Call TransitionOutcome × DriverRuntime C D O W
  dematerialize r = elim r.driver [
    | none ↦ fail "runtime is not materialized" r
    | some d ↦
        if state_eq r.state finalized
        then fail "runtime is not materialized" r
        else (let (d', w) = ops.cleanup d r.serial in
            let (d'', w') = ops.cleanup d' w in
            succeed (record r { driver = none; state = finalized; serial = w' }))
  ]

  -- What `configure` does with the driver's answer; an exception leaves it where it is.
  unfoldable pub settle :
      Call (Option String) × D × W
      → DriverRuntime C D O W
      → Call TransitionOutcome × DriverRuntime C D O W
  unfolding emit_event
  settle (returns none, d, w) r =
      succeed (record r { state = inactive; driver = some d; serial = w })
  settle (throws m, d, w) r = (throws m, record r { driver = some d; serial = w })
  settle (throws_unknown, d, w) r = (throws_unknown, record r { driver = some d; serial = w })
  settle (returns (some m), d, w) r = (
    returns (record { result = error; message = m }),
    emit_error_event texts.connect_failed m unconfigured
        (record r { state = unconfigured; driver = some d; serial = w }),
  )

  unfoldable pub configure_with :
      Configured C → D → DriverRuntime C D O W → Call TransitionOutcome × DriverRuntime C D O W
  unfolding settle
  configure_with (refused m) d r = fail m r
  configure_with (valid c) d r =
      settle (ops.configure c d r.serial) (record r { state = configuring })

  unfoldable pub configure :
      ParameterMap → DriverRuntime C D O W → Call TransitionOutcome × DriverRuntime C D O W
  unfolding configure_with
  configure ps r = elim r.driver [
    | none ↦ fail "source state does not match" r
    | some d ↦
        if not (state_eq r.state unconfigured)
        then fail "source state does not match" r
        else configure_with (config_from ps (ops.config d)) d r
  ]

  unfoldable pub activate : DriverRuntime C D O W → Call TransitionOutcome × DriverRuntime C D O W
  activate r = elim r.driver [
    | none ↦ fail "source state does not match" r
    | some d ↦
        if not (state_eq r.state inactive)
        then fail "source state does not match" r
        else if not (ops.is_configured d)
        then fail texts.not_configured r
        else (let (started, d', w) = ops.start d r.serial in
            succeed_if started (record r { state = active; driver = some d'; serial = w }))
  ]

  unfoldable pub deactivate : DriverRuntime C D O W → Call TransitionOutcome × DriverRuntime C D O W
  deactivate r = elim r.driver [
    | none ↦ fail "source state does not match" r
    | some d ↦
        if not (state_eq r.state active)
        then fail "source state does not match" r
        else (let (d', w) = ops.stop d r.serial in
            succeed (record r { state = inactive; driver = some d'; serial = w }))
  ]

  unfoldable pub cleanup :
      ParameterMap → DriverRuntime C D O W → Call TransitionOutcome × DriverRuntime C D O W
  cleanup ps r = elim r.driver [
    | none ↦ fail "source state does not match" r
    | some d ↦
        if not (state_eq r.state inactive)
        then fail "source state does not match" r
        else (let (d', w) = ops.cleanup d r.serial in
            succeed (record r { state = unconfigured; driver = some d'; serial = w }))
  ]

  abbrev pub methods : LifecycleMethods (DriverRuntime C D O W)
  methods = record {
    materialize = materialize;
    configure = configure;
    activate = activate;
    deactivate = deactivate;
    cleanup = cleanup;
    dematerialize = dematerialize;
  }

  abbrev pub set_event_handler :
      Bool → DriverRuntime C D O W → Call (Unit {0}) × DriverRuntime C D O W
  set_event_handler installed r = (returns tt, record r { has_handler = installed })

  -- The function that `register_hook` hands to the registrar.
  pub recover : LifecycleHook (DriverRuntime C D O W)
  recover c r =
      let (rs, handled) = hook c r.handled_event_revision in
      (returns rs, record r { handled_event_revision = handled })

  -- Each registration starts with a new counter.
  pub register_hook : DriverRuntime C D O W → Call (Unit {0}) × DriverRuntime C D O W
  register_hook r = (returns tt, record r { handled_event_revision = 0 })

  abbrev pub parameter_transitions :
      LifecycleState
      → ParameterMap
      → ParameterMap
      → DriverRuntime C D O W
      → Call (List TransitionRequest) × DriverRuntime C D O W
  parameter_transitions s current patch r = (returns (standard_parameter_transitions s current), r)

  -- `Clock::now()`.
  abbrev pub read_clock : DriverRuntime C D O W → ℕ × DriverRuntime C D O W
  read_clock r = let (t, w) = clock r.serial in (t, record r { serial = w })

  unfoldable pub device_runtime :
      (DeviceDefinition → DriverRuntime C D O W → DriverRuntime C D O W)
      → Runtime (DriverRuntime C D O W)
  device_runtime initialize = record {
    initialize = initialize;
    state = λ r. (returns r.state, r);
    request_transition = request_transition methods;
    parameter_transitions = parameter_transitions;
    set_event_handler = set_event_handler;
    hooks = λ r. recover ∷ [];
    register_hook = register_hook;
    now = read_clock;
  }
