-- ===== src/Imu/Tests.antt =====
-- The theorems of the inertial measurement unit on concrete inputs: a machine whose floats are bit
-- patterns, and a port that opens if its name is `ok`.
use text.Mathlib.Text.{◌==◌ as str_eq}
use device_manager.Common.{
  false, String, true, All, ℕ, true, List, [], ◌∷◌, ◌++◌, none, some, ◌≡◌, ◌≢◌, ◌≤◌, ◌+◌, refl, inl,
  inr, ◌==◌, arith, if◌then◌else◌,
}
use device_manager.Core.Types.{
  unconfigured, inactive, active, error_level, DeviceEvent, TransitionRequest, HookContext,
  is_contiguous,
}
use device_manager.Core.Types.Paths.{StartsAt, end_of}
use device_manager.Core.Runtime.{request_transition}
use device_manager.Imu.Decoder.{FloatOps, initial, sof1, feed, push_some, accept_payload}
use device_manager.Imu.Decoder.Frames.{
  frame_bytes, checksum, after, feed-frame_bytes, feed-double_sof,
}
use device_manager.Core.Runtime.{returns}
use device_manager.Drivers.Transport.{IsWilling, Serial, received}
use device_manager.Imu.Driver.{Ch020ImuConfig, make_driver}
use device_manager.Imu.Recovery.{recovery_requests, hook}
use device_manager.Imu.Recovery.Descent.{recovery_requests-descent}
use device_manager.Imu.Recovery.Handled.{hook_handled}
use device_manager.Imu.Runtime.{ImuRuntime, make_imu_runtime, driver_ops, imu_methods}
use device_manager.Imu.Runtime.Lifecycle.{running, request_transition-Ends}
use device_manager.Imu.Runtime.Lifecycle.{imu_device_runtime-lawful}
use device_manager.Imu.Runtime.{imu_device_runtime}
use device_manager.Drivers.Runtime.Lifecycle.{Ends, IsFit, state_of}
use device_manager.Imu.Stamp.{CircleMinTracker, tolerance, make_stamp, make_stamp_bounds}
use device_manager.Core.Device.{empty_queue}
use device_manager.Core.Worker.{Worker, Phase}
use device_manager.Core.Manager.{Manager, stop}
use device_manager.Core.Manager.Lawful.{IsStarted, IsDown, stop-IsDown}

abbrev bits : FloatOps ℕ
bits = record {
  of_bits = λ b. b;
  of_int8 = λ b. b;
  mul = λ x y. x;
  standard_gravity = 1;
  deg_to_rad = 1;
}

abbrev payload : List ℕ
payload = 0x91 ∷ 1 ∷ 2 ∷ []

feed-frame_bytes_example :
    let (qs, d') = feed bits (after bits 7) (3 ∷ []) in
    feed bits initial (frame_bytes 7 payload ++ 3 ∷ [])
    ≡ (push_some bits (if checksum payload == 7 then accept_payload bits payload else none) qs, d')
feed-frame_bytes_example =
    feed-frame_bytes bits payload (3 ∷ []) 7 initial refl (omega arith) (omega arith)

feed-double_sof_example :
    feed bits initial (sof1 ∷ sof1 ∷ 0xA5 ∷ 1 ∷ []) ≡ feed bits initial (0xA5 ∷ 1 ∷ [])
feed-double_sof_example = feed-double_sof bits initial (0xA5 ∷ 1 ∷ []) refl

recovery_requests-descent_example :
    let rs = recovery_requests active unconfigured in
    (is_contiguous rs ≡ true) × StartsAt active rs × (end_of active rs ≡ unconfigured)
recovery_requests-descent_example =
    recovery_requests-descent active unconfigured (inr (inl refl)) (inl (inl refl))

abbrev fault : DeviceEvent
fault = record {
  timestamp = 1;
  level = error_level;
  code = "ch020_imu.disconnected";
  message = "";
  source = "ch020_imu_driver";
  target_state = inactive;
  values = [];
}

abbrev context : HookContext
context = record {
  now = 2;
  state = active;
  enabled = true;
  parameters = [];
  latest_event = some fault;
  latest_event_revision = 1;
}

asks : (hook context 0).0 ≢ []
unfolding hook recovery_requests
asks e = cc

hook_handled_example : hook context (hook context 0).1 ≡ ([], (hook context 0).1)
hook_handled_example = hook_handled context context 0 refl refl asks refl refl (omega arith)

abbrev port : Serial Ch020ImuConfig ℕ
port = record {
  create = λ c w. (returns tt, w);
  open_port = λ name baud w. (if str_eq name "ok" then none else some "no such port", w);
  close_port = λ w. w;
  is_open = λ w. true;
  read = λ n w. (received [], w);
  now = λ w. (w, w);
  spawn = λ w. (returns tt, w);
  join_thread = λ w. w;
  sleep = λ n w. w;
}

port-IsWilling : IsWilling port
port-IsWilling = record { creates = λ c w. refl; spawns = λ w. refl }

abbrev config : Ch020ImuConfig
config = record {
  port = "gone";
  baudrate = 115200;
  read_chunk_size = 256;
  data_timeout_ms = 2000;
  reconnect_backoff_ms = 1000;
}

-- A configured port that does not open.
abbrev ready : ImuRuntime ℕ
ready = record (make_imu_runtime config 5) {
  state = unconfigured;
  driver = some (make_driver config);
}

abbrev wanted : TransitionRequest
wanted = record { from_state = unconfigured; target_state = inactive; parameters = [] }

request_transition-Ends_example :
    Ends
      (driver_ops port (λ w. (w, w)))
      running
      unconfigured
      inactive
      (request_transition (imu_methods port (λ w. (w, w))) wanted ready)
request_transition-Ends_example =
    request_transition-Ends port (λ w. (w, w)) port-IsWilling wanted ready (refl, refl)

abbrev clock : ℕ → ℕ × ℕ
clock w = (w, w)

-- A device that has come up: the port is open and the thread runs.
abbrev up : ImuRuntime ℕ
up = record (make_imu_runtime config 5) {
  state = active;
  driver =
      some (record (make_driver config) { configured = true; running = true; joinable = true });
}

abbrev started : Worker (ImuRuntime ℕ)
started = record {
  device = record {
    definition = record { id = "imu"; type = "ch020"; enabled = true; parameters = [] };
    runtime = imu_device_runtime port clock;
    world = up;
    parameters = [];
    parameter_revision = 0;
    latest_event = none;
    latest_event_revision = 0;
    last_transition = none;
    hook = none;
    hook_registered = false;
    queue = record (empty_queue) { running = true };
  };
  phase = Phase.executing (wanted ∷ []);
}

abbrev manager : Manager (ImuRuntime ℕ)
manager = record { devices = ("imu", started) ∷ []; running = true }

abbrev FitRuntime : ImuRuntime ℕ → Type 0
FitRuntime = IsFit (driver_ops port clock) running

started-IsStarted : IsStarted state_of FitRuntime started
started-IsStarted = record {
  runs = refl;
  alive = tt;
  lawful = imu_device_runtime-lawful port clock port-IsWilling;
  fits = (refl, refl);
}

stop-IsDown_example :
    All
      (λ (e : String × Worker (ImuRuntime ℕ)). IsDown state_of FitRuntime e.1)
      (stop manager).devices
stop-IsDown_example = stop-IsDown state_of FitRuntime manager refl (started-IsStarted, tt)

-- A window of 200 values, one of them tracked.
abbrev tracker : CircleMinTracker
tracker = record {
  window = 200;
  min_value = 990000000;
  backup = 990000000;
  min_index = 0;
  count = 1;
}

make_stamp_bounds_example :
    let stamp = (make_stamp true 1000000000 5 tracker).0 in
    (stamp ≤ 1000000000) × (1000000000 ≤ stamp + tolerance)
make_stamp_bounds_example = make_stamp_bounds true 1000000000 5 tracker (omega arith)
