-- ===== src/Core/Device.antt =====
-- The classes `Device` and `DeviceQueue` of device_manager_core/src/device_manager.cpp as one
-- record, and the operations of `Device` but `start` and `stop`. A method of the model runs under
-- the locks that the source takes for it, so it is one atomic step.
use device_manager.Common.{ℕ, Bool, false, List, [], Option, none, some, ◌+◌, ◌%◌, ◌^◌}
use device_manager.Core.Types.{
  LifecycleState, unknown, ParameterMap, DeviceEvent, TransitionRequest, TransitionRecord,
  HookContext, DeviceDefinition, DeviceObservation,
}
use device_manager.Core.Runtime.{Call, returns, throws, throws_unknown, LifecycleHook, Runtime}

pub record RequestBatch : Type 0 where
  pub requests : List TransitionRequest
  pub parameter_revision : Option ℕ
  pub parameter_patch : ParameterMap

-- The head of a list is the front of the deque.
pub record DeviceQueue : Type 0 where
  pub urgent_queue : List RequestBatch
  pub normal_queue : List RequestBatch
  pub pending_parameter_patch : ParameterMap
  pub running : Bool
  pub stopping : Bool

pub record Device (W : Type 0) : Type 0 where
  pub definition : DeviceDefinition
  pub runtime : Runtime W
  pub world : W
  pub parameters : ParameterMap
  pub parameter_revision : ℕ
  pub latest_event : Option DeviceEvent
  pub latest_event_revision : ℕ
  pub last_transition : Option TransitionRecord
  pub hook : Option (LifecycleHook W)
  pub hook_registered : Bool
  pub queue : DeviceQueue

abbrev pub empty_queue : DeviceQueue
empty_queue = record {
  urgent_queue = [];
  normal_queue = [];
  pending_parameter_patch = [];
  running = false;
  stopping = false;
}

-- `++` on a `std::uint64_t`.
abbrev pub next_u64 : ℕ → ℕ
next_u64 n = (n + 1) % 2 ^ 64

abbrev pub or_unknown : Call LifecycleState → LifecycleState
or_unknown (returns s) = s
or_unknown (throws m) = unknown
or_unknown throws_unknown = unknown

module _ {W : Type 0} where
  -- The constructor.
  unfoldable pub make_device : DeviceDefinition → Runtime W → W → Device W
  make_device def runtime w = record {
    definition = def;
    runtime = runtime;
    world = runtime.initialize def w;
    parameters = def.parameters;
    parameter_revision = 0;
    latest_event = none;
    latest_event_revision = 0;
    last_transition = none;
    hook = none;
    hook_registered = false;
    queue = empty_queue;
  }

  -- The event handler that `Device::start` installs.
  unfoldable pub on_event : DeviceEvent → Device W → Device W
  on_event e d = record d {
    latest_event = some e;
    latest_event_revision = next_u64 d.latest_event_revision;
  }

  -- `runtime->state()`.
  abbrev pub query_state : Device W → Call LifecycleState × Device W
  query_state d = ((d.runtime.state d.world).0, record d { world = (d.runtime.state d.world).1 })

  unfoldable pub safe_state : Device W → LifecycleState × Device W
  safe_state d = (or_unknown (query_state d).0, (query_state d).1)

  -- `Clock::now()`.
  abbrev pub read_clock : Device W → ℕ × Device W
  read_clock d = ((d.runtime.now d.world).0, record d { world = (d.runtime.now d.world).1 })

  unfoldable pub hook_context : Device W → HookContext × Device W
  unfolding safe_state
  hook_context d =
      let (t, d') = read_clock d in
      let (s, d'') = safe_state d' in
      (
        record {
          now = t;
          state = s;
          enabled = d.definition.enabled;
          parameters = d.parameters;
          latest_event = d.latest_event;
          latest_event_revision = d.latest_event_revision;
        },
        d'',
      )

  unfoldable pub observation : Device W → DeviceObservation × Device W
  unfolding safe_state
  observation d =
      let (s, d') = safe_state d in
      (
        record {
          id = d.definition.id;
          type = d.definition.type;
          enabled = d.definition.enabled;
          state = s;
          parameters = d.parameters;
          latest_event = d.latest_event;
          last_transition = d.last_transition;
        },
        d',
      )
