-- ===== src/Core/Manager.antt =====
-- `Device::start`, `Device::stop` and the class `DeviceManager` in
-- device_manager_core/src/device_manager.cpp. The devices are a map by their ids; its order stands
-- for the order of iteration, which the source leaves open.
pub mod Submissions
pub mod Lifecycle
pub mod Lawful
use text.Mathlib.Text.{◌==◌ as str_eq}
use device_manager.Common.{
  String, Bool, true, false, not, List, [], ◌∷◌, Option, none, some, empty, if◌then◌else◌, find,
  insert_or_assign,
}
use device_manager.Core.Types.{
  RequestPriority, normal, ParameterMap, TransitionRequest, DeviceDefinition, DeviceObservation,
  SubmissionResult, refuse, is_contiguous,
}
use device_manager.Core.Runtime.{Call, returns, throws, throws_unknown, LifecycleHook, Runtime}
use device_manager.Core.Device.{Device, make_device, hook_context, observation}
use device_manager.Core.Queue
use device_manager.Core.Worker.{Worker, Phase}
use device_manager.Core.Worker

pub record Manager (W : Type 0) : Type 0 where
  pub devices : List (String × Worker W)
  pub running : Bool

-- The map of the devices.
abbrev pub Devices : Type 0 → Type 0
Devices W = List (String × Worker W)

module _ {W : Type 0} where
  -- The registrar that `Device::start` passes to `register_hook`.
  pub register : LifecycleHook W → Device W → Call (Unit {0}) × Device W
  register h d = elim d.hook [
    | none ↦ (returns tt, record d { hook = some h })
    | some _ ↦ (throws "a device may register only one lifecycle hook", d)
  ]

  abbrev pub then_rest :
      Call (Unit {0}) × Device W → Call (Unit {0}) × Device W → Call (Unit {0}) × Device W
  then_rest (returns _, d) rest = rest
  then_rest (throws m, d) rest = (throws m, d)
  then_rest (throws_unknown, d) rest = (throws_unknown, d)

  -- The runtime calls the registrar with each of its hooks, and lets its exception through.
  pub register_all : List (LifecycleHook W) → Device W → Call (Unit {0}) × Device W
  unfolding register
  register_all [] d = let (c, w) = d.runtime.register_hook d.world in (c, record d { world = w })
  register_all (h ∷ hs) d = then_rest (register h d) (register_all hs (register h d).1)

  abbrev pub registered : Call (Unit {0}) × Device W → Call (Unit {0}) × Device W
  registered (returns _, d) = (returns tt, record d { hook_registered = true })
  registered (throws m, d) = (throws m, record d { hook = none })
  registered (throws_unknown, d) = (throws_unknown, record d { hook = none })

  -- The `try` block of `Device::start`: a failed registration clears the hook.
  pub register_hooks : Device W → Call (Unit {0}) × Device W
  unfolding register_all
  register_hooks d = registered (register_all (d.runtime.hooks d.world) d)

  pub set_event_handler : Bool → Device W → Call (Unit {0}) × Device W
  set_event_handler installed d =
      let (c, w) = d.runtime.set_event_handler installed d.world in (c, record d { world = w })

  abbrev then_start :
      Call (Unit {0}) → Call (Unit {0}) × Device W → Phase → Call (Unit {0}) × Worker W
  then_start thread (returns _, d) p = Worker.start thread (record { device = d; phase = p })
  then_start thread (throws m, d) p = (throws m, record { device = d; phase = p })
  then_start thread (throws_unknown, d) p = (throws_unknown, record { device = d; phase = p })

  abbrev then_register :
      Call (Unit {0}) → Call (Unit {0}) × Device W → Phase → Call (Unit {0}) × Worker W
  then_register thread (returns _, d) p =
      then_start thread (if d.hook_registered then (returns tt, d) else register_hooks d) p
  then_register thread (throws m, d) p = (throws m, record { device = d; phase = p })
  then_register thread (throws_unknown, d) p = (throws_unknown, record { device = d; phase = p })

  -- `Device::start`; `thread` is how the constructor of the worker's `std::thread` ends.
  unfoldable pub start_device : Call (Unit {0}) → Worker W → Call (Unit {0}) × Worker W
  unfolding register_hooks set_event_handler
  start_device thread w = then_register thread (set_event_handler true w.device) w.phase

  -- `Device::stop`: what `set_event_handler` throws is dropped.
  unfoldable pub stop_device : Worker W → Worker W
  unfolding set_event_handler
  stop_device w =
      let w' = Worker.stop w in record w' { device = (set_event_handler false w'.device).1 }

  -- The constructor; the text is that of the `std::invalid_argument`. A null runtime has no
  -- counterpart.
  unfoldable pub construct : List (DeviceDefinition × Runtime W × W) → Devices W → Call (Devices W)
  construct [] ds = returns ds
  construct ((def, runtime, w) ∷ rest) ds =
      let device : Worker W = record {
        device = make_device def runtime w;
        phase = Phase.no_thread;
      } in
      let more = construct rest (insert_or_assign def.id device ds) in
      if str_eq def.id ""
      then throws "device id must not be empty"
      else elim (find def.id ds) [ some _ ↦ throws "duplicate device id" | none ↦ more ]

  -- One round of the loop in `start`: an exception ends it.
  abbrev pub then_others :
      String
      → Call (Unit {0}) × Worker W
      → Devices W
      → Call (Unit {0}) × Devices W
      → Call (Unit {0}) × Devices W
  then_others id (returns _, w) ds (c, ds') = (c, (id, w) ∷ ds')
  then_others id (throws m, w) ds rest = (throws m, (id, w) ∷ ds)
  then_others id (throws_unknown, w) ds rest = (throws_unknown, (id, w) ∷ ds)

  pub start_all : (String → Call (Unit {0})) → Devices W → Call (Unit {0}) × Devices W
  unfolding start_device
  start_all threads [] = (returns tt, [])
  start_all threads ((id, w) ∷ ds) =
      then_others id (start_device (threads id) w) ds (start_all threads ds)

  pub stop_all : Devices W → Devices W
  unfolding stop_device
  stop_all [] = []
  stop_all ((id, w) ∷ ds) = (id, stop_device w) ∷ stop_all ds

  abbrev after_start : Call (Unit {0}) × Devices W → Call (Unit {0}) × Manager W
  after_start (returns _, ds) = (returns tt, record { devices = ds; running = true })
  after_start (throws m, ds) = (throws m, record { devices = stop_all ds; running = false })
  after_start (throws_unknown, ds) =
      (throws_unknown, record { devices = stop_all ds; running = false })

  -- `threads` is how the constructor of each worker's thread ends.
  unfoldable pub start : (String → Call (Unit {0})) → Manager W → Call (Unit {0}) × Manager W
  unfolding start_all stop_all
  start threads m = if m.running then (returns tt, m) else after_start (start_all threads m.devices)

  unfoldable pub stop : Manager W → Manager W
  unfolding stop_all
  stop m = if m.running then record { devices = stop_all m.devices; running = false } else m

  abbrev pub store : String → Worker W → Manager W → Device W → Manager W
  store id w m d = record m { devices = insert_or_assign id (record w { device = d }) m.devices }

  abbrev pub put :
      String → Worker W → Manager W → SubmissionResult × Device W → SubmissionResult × Manager W
  put id w m (r, d) = (r, store id w m d)

  unfoldable pub enqueue :
      String → List TransitionRequest → RequestPriority → Manager W → SubmissionResult × Manager W
  enqueue id requests priority m =
      if not m.running
      then (refuse "device manager is not running", m)
      else elim (find id m.devices) [
        | none ↦ (refuse "unknown device", m)
        | some w ↦
            if empty requests
            then (refuse "transition request batch must not be empty", m)
            else if not (is_contiguous requests)
            then (refuse "transition request batch is not contiguous", m)
            else put id w m (Queue.enqueue requests priority w.device)
      ]

  unfoldable pub patch_parameters :
      String → ParameterMap → RequestPriority → Manager W → SubmissionResult × Manager W
  patch_parameters id patch priority m =
      if not m.running
      then (refuse "device manager is not running", m)
      else elim (find id m.devices) [
        | none ↦ (refuse "unknown device", m)
        | some w ↦
            if empty patch
            then (refuse "parameter patch must not be empty", m)
            else put id w m (Queue.enqueue_parameter_patch patch priority w.device)
      ]

  -- The hook's requests are submitted under the id of the device's definition.
  abbrev submit_hook :
      String → Worker W → Manager W → Call (List TransitionRequest) × Device W → Manager W
  submit_hook id w m (returns requests, d) =
      if empty requests
      then store id w m d
      else (enqueue d.definition.id requests normal (store id w m d)).1
  submit_hook id w m (throws _, d) = store id w m d
  submit_hook id w m (throws_unknown, d) = store id w m d

  abbrev call_hook : LifecycleHook W → Device W → Call (List TransitionRequest) × Device W
  call_hook h d =
      let (context, d') = hook_context d in
      let (c, world) = h context d'.world in (c, record d' { world = world })

  abbrev tick_worker : String → Option (Worker W) → Manager W → Manager W
  tick_worker id none m = m
  tick_worker id (some w) m = elim w.device.hook [
    | none ↦ m
    | some h ↦ submit_hook id w m (call_hook h w.device)
  ]

  -- The loop of `tick` over the entries, by their keys. What a hook throws is only logged.
  pub tick_entries : List String → Manager W → Manager W
  unfolding enqueue
  tick_entries [] m = m
  tick_entries (id ∷ ids) m = tick_entries ids (tick_worker id (find id m.devices) m)

  abbrev pub ids : Devices W → List String
  ids [] = []
  ids ((id, _) ∷ ds) = id ∷ ids ds

  unfoldable pub tick : Manager W → Manager W
  unfolding tick_entries
  tick m = if m.running then tick_entries (ids m.devices) m else m

  -- `DeviceManager::device`.
  pub device : String → Manager W → Option DeviceObservation × Manager W
  device id m = elim (find id m.devices) [
    | none ↦ (none, m)
    | some w ↦ let (o, d) = observation w.device in (some o, store id w m d)
  ]

  -- `DeviceManager::devices`.
  pub observe_all : Devices W → List DeviceObservation × Devices W
  observe_all [] = ([], [])
  observe_all ((id, w) ∷ ds) =
      let (o, d) = observation w.device in
      let (os, ds') = observe_all ds in (o ∷ os, (id, record w { device = d }) ∷ ds')

  pub all_devices : Manager W → List DeviceObservation × Manager W
  unfolding observe_all
  all_devices m = let (os, ds) = observe_all m.devices in (os, record m { devices = ds })
