-- ===== src/Oradar/Runtime.antt =====
-- `OradarLidarRuntime` of drivers/oradar_ros_driver/src/oradar_lidar_runtime.cpp: the lifecycle and
-- the calls that the device makes.
pub mod Lifecycle
use device_manager.Common.{
  ℕ, String, Bool, true, false, not, ◌&&◌, ◌||◌, List, [], ◌∷◌, Option, none, some, if◌then◌else◌,
}
use device_manager.Core.Types.{
  LifecycleState, unconfigured, inactive, active, finalized, configuring, error, ParameterMap,
  TransitionOutcome, TransitionRequest, standard_parameter_transitions, state_eq,
}
use device_manager.Core.Runtime.{
  Call, returns, throws, throws_unknown, Runtime, LifecycleHook, LifecycleMethods,
  request_transition,
}
use device_manager.Drivers.Parameters.{Configured, valid, refused, succeed, fail}
use device_manager.Imu.Recovery.{hook}
use device_manager.Oradar.Client.{is_ok, OradarLidarConfig, Doubles, Client, config_from}
use device_manager.Oradar.Settings.{connect_client, apply_device_settings}
use device_manager.Oradar.Session.{
  OradarLidarRuntime, initialize, stop_reader, emit_event, emit_error_event,
}

module _ {D W : Type 0} (doubles : Doubles D) (client : Client D W) (clock : W → ℕ × W) where
  unfoldable pub materialize :
      ParameterMap → OradarLidarRuntime D W → Call TransitionOutcome × OradarLidarRuntime D W
  materialize ps r =
      if not (state_eq r.state finalized)
      then fail "runtime is already materialized" r
      else succeed (record r { state = unconfigured })

  -- The client leaves the runtime and is closed, if there is one.
  abbrev pub close_client : OradarLidarRuntime D W → OradarLidarRuntime D W
  close_client r = record r {
    has_client = false;
    lidar = if r.has_client then client.close r.lidar else r.lidar;
  }

  unfoldable pub dematerialize :
      OradarLidarRuntime D W → Call TransitionOutcome × OradarLidarRuntime D W
  unfolding stop_reader
  dematerialize r =
      let r' = stop_reader r in
      if state_eq r'.state finalized
      then fail "runtime is not materialized" r'
      else succeed (record (close_client r') { state = finalized })

  abbrev pub apply_settings : OradarLidarConfig D → Option String × W → Option String × W
  apply_settings c (some e, w) = (some e, w)
  apply_settings c (none, w) = apply_device_settings client c w

  -- `connect_client` and, if it succeeds, `apply_device_settings`.
  unfoldable pub bring_up : OradarLidarConfig D → W → Option String × W
  unfolding connect_client apply_device_settings
  bring_up c w = apply_settings c (connect_client client w)

  abbrev pub settle :
      Option String × W → OradarLidarRuntime D W → Call TransitionOutcome × OradarLidarRuntime D W
  settle (none, w) r = succeed (record r { state = inactive; lidar = w })
  settle (some m, w) r = (
    returns (record { result = error; message = m }),
    emit_error_event clock "oradar_lidar.connect_failed" m unconfigured
        (record r { state = unconfigured; lidar = w }),
  )

  -- `configure` from the factory on.
  abbrev pub made :
      Configured (Unit {0}) × W
      → OradarLidarRuntime D W
      → Call TransitionOutcome × OradarLidarRuntime D W
  made (refused m, w) r = fail m (record r { state = unconfigured; lidar = w })
  made (valid _, w) r =
      settle (bring_up r.config (client.set_timeout r.config.timeout_ms w))
        (record r { has_client = true; state = configuring })

  -- What was read so far is kept on an error too.
  abbrev pub configure_with :
      Option String × OradarLidarConfig D
      → OradarLidarRuntime D W
      → Call TransitionOutcome × OradarLidarRuntime D W
  configure_with (some m, c) r = fail m (record r { config = c })
  configure_with (none, c) r = made (client.create c r.lidar) (record r { config = c })

  unfoldable pub configure :
      ParameterMap → OradarLidarRuntime D W → Call TransitionOutcome × OradarLidarRuntime D W
  unfolding bring_up config_from emit_event
  configure ps r =
      if not (state_eq r.state unconfigured)
      then fail "source state does not match" r
      else configure_with (config_from doubles ps) r

  -- The two calls that start the stream; the second one is made if the first one succeeds.
  unfoldable pub enable : W → Bool × W
  enable w =
      let (measured, w1) = client.enable_measure w in
      let (streamed, w2) = client.enable_data_stream w1 in
      if not (is_ok measured) then (false, w1) else (is_ok streamed, w2)

  -- The end of `activate`: an exception of the thread's constructor leaves what was set before it.
  abbrev pub spawned :
      Call (Unit {0}) → OradarLidarRuntime D W → Call TransitionOutcome × OradarLidarRuntime D W
  spawned (returns _) r = succeed (record r { joinable = true })
  spawned (throws m) r = (throws m, r)
  spawned throws_unknown r = (throws_unknown, r)

  unfoldable pub activate : OradarLidarRuntime D W → Call TransitionOutcome × OradarLidarRuntime D W
  unfolding enable
  activate r =
      let (enabled, w) = enable r.lidar in
      if not (state_eq r.state inactive) || not r.has_client
      then fail "source state does not match" r
      else if not enabled
      then (
        returns (record { result = error; message = "failed to enable MS500 measurement stream" }),
        record r { lidar = w },
      )
      else (let (c, w') = client.spawn w in
          spawned c (record r {
            state = active;
            reading = true;
            connected_event_emitted = false;
            lidar = w';
          }))

  unfoldable pub deactivate :
      OradarLidarRuntime D W → Call TransitionOutcome × OradarLidarRuntime D W
  unfolding stop_reader
  deactivate r =
      if not (state_eq r.state active) || not r.has_client
      then fail "source state does not match" r
      else (let r' = stop_reader (record r { state = inactive }) in
          let (_, w) = client.disable_data_stream r'.lidar in
          let (_, w') = client.disable_measure w in succeed (record r' { lidar = w' }))

  unfoldable pub cleanup :
      ParameterMap → OradarLidarRuntime D W → Call TransitionOutcome × OradarLidarRuntime D W
  cleanup ps r =
      if not (state_eq r.state inactive)
      then fail "source state does not match" r
      else succeed (record (close_client r) { state = unconfigured })

  abbrev pub oradar_methods : LifecycleMethods (OradarLidarRuntime D W)
  oradar_methods = record {
    materialize = materialize;
    configure = configure;
    activate = activate;
    deactivate = deactivate;
    cleanup = cleanup;
    dematerialize = dematerialize;
  }

  abbrev pub set_event_handler :
      Bool → OradarLidarRuntime D W → Call (Unit {0}) × OradarLidarRuntime D W
  set_event_handler installed r = (returns tt, record r { has_handler = installed })

  -- The function that `register_hook` hands to the registrar, which is that of the other drivers.
  pub recover : LifecycleHook (OradarLidarRuntime D W)
  recover c r =
      let (rs, handled) = hook c r.handled_event_revision in
      (returns rs, record r { handled_event_revision = handled })

  pub register_hook : OradarLidarRuntime D W → Call (Unit {0}) × OradarLidarRuntime D W
  register_hook r = (returns tt, record r { handled_event_revision = 0 })

  abbrev pub parameter_transitions :
      LifecycleState
      → ParameterMap
      → ParameterMap
      → OradarLidarRuntime D W
      → Call (List TransitionRequest) × OradarLidarRuntime D W
  parameter_transitions s current patch r = (returns (standard_parameter_transitions s current), r)

  unfoldable pub oradar_device_runtime : Runtime (OradarLidarRuntime D W)
  oradar_device_runtime = record {
    initialize = initialize;
    state = λ r. (returns r.state, r);
    request_transition = request_transition oradar_methods;
    parameter_transitions = parameter_transitions;
    set_event_handler = set_event_handler;
    hooks = λ r. recover ∷ [];
    register_hook = register_hook;
    now = λ r. let (t, w) = clock r.lidar in (t, record r { lidar = w });
  }
