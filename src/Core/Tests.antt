-- ===== src/Core/Tests.antt =====
-- A runtime that is its own lifecycle state, and the theorems of the core on it.
use text.Mathlib.Text.{◌==◌ as str_eq}
use device_manager.Common.{
  String, if◌then◌else◌, true, false, List, [], ◌∷◌, ◌++◌, ◌≡◌, ◌≢◌, ◌↔◌, refl, length, Agrees, inl,
  inr, find, merge, insert_or_assign, arith,
}
use device_manager.Core.Types.{
  LifecycleState, inactive, active, success, RequestPriority, state_eq, normal, urgent,
  ParameterMap, int_value, DeviceDefinition, TransitionRequest, standard_parameter_transitions,
  is_contiguous,
}
use device_manager.Core.Types.Paths.{
  standard_parameter_transitions-IsChain, StartsAt, end_of, configured_with,
}
use device_manager.Core.Runtime.{Runtime, Call, returns, throws}
use device_manager.Core.Device.{Device, RequestBatch, make_device, empty_queue}
use device_manager.Core.Queue.{plain_batch, next_batch, enqueue_parameter_patch}
use device_manager.Core.Queue.Order.{drain, push_all, urgent_ones, normal_ones, drain-push_all}
use device_manager.Core.Queue.Patches as Patches
use device_manager.Core.Execute.{execute, take_patch}
use device_manager.Core.Execute.Records.{Reports, execute-Reports}
use device_manager.Core.Execute.Success.{Carried, execute-true_iff}
use device_manager.Core.Execute.Interleaving.{patches, client, execute-client_comm}
use device_manager.Core.Worker.{Worker, no_thread, planning, start, step, stop, request_stop}
use device_manager.Core.Worker.Coherence.{EnableIsTrue}
use device_manager.Core.Worker.Submissions.{IsAdmissible}
use device_manager.Core.Worker.Reachable.{
  works, calls, starts, Reach, here, next, fresh, Reach-planning,
}
use device_manager.Core.Worker.Shutdown.{Comes, stop-Comes}
use device_manager.Core.Manager.{Manager, enqueue}
use device_manager.Core.Manager
use device_manager.Core.Manager.Lifecycle.{Settles, AllIdle, start-Settles, stop-AllIdle}
use device_manager.Core.Manager.Submissions.{CanSubmit, accepted_of, enqueue-accepted_iff}

abbrev toy : Runtime LifecycleState
toy = record {
  initialize = λ d w. w;
  state = λ w. (returns w, w);
  request_transition = λ r w. (returns (record { result = success; message = "" }), r.target_state);
  parameter_transitions = λ s m p w. (returns (standard_parameter_transitions s m), w);
  set_event_handler = λ b w. (returns tt, w);
  hooks = λ w. [];
  register_hook = λ w. (returns tt, w);
  now = λ w. (7, w);
}

abbrev lidar : DeviceDefinition
lidar = record { id = "lidar"; type = "smit"; enabled = true; parameters = [] }

abbrev idle : Device LifecycleState
idle = make_device lidar toy inactive

abbrev waiting_worker : Worker LifecycleState
waiting_worker = (start (returns tt) (record { device = idle; phase = no_thread })).1

abbrev edge : LifecycleState → LifecycleState → TransitionRequest
edge f t = record { from_state = f; target_state = t; parameters = [] }

abbrev up : TransitionRequest
up = edge inactive active

abbrev down : TransitionRequest
down = edge active inactive

abbrev rate : ParameterMap
rate = ("rate", int_value 5) ∷ []

abbrev manager : Manager LifecycleState
manager = record { devices = ("lidar", waiting_worker) ∷ []; running = true }

standard_parameter_transitions-IsChain_example :
    let rs = standard_parameter_transitions active rate in
    (is_contiguous rs ≡ true)
    × StartsAt active rs
    × (end_of active rs ≡ active)
    × (configured_with rs ≡ rate ∷ [])
standard_parameter_transitions-IsChain_example =
    standard_parameter_transitions-IsChain active rate (inr (inl refl))

execute-true_iff_example : ((execute up idle).0 ≡ true) ↔ Carried up idle
execute-true_iff_example = execute-true_iff up idle

execute-Reports_example : Reports down (execute down idle)
execute-Reports_example = execute-Reports down idle

abbrev submissions : List (RequestPriority × RequestBatch)
submissions = (normal, plain_batch (up ∷ [])) ∷ (urgent, plain_batch (down ∷ [])) ∷ []

drain-push_all_example :
    drain (length submissions) (push_all submissions empty_queue)
    ≡ urgent_ones submissions ++ normal_ones submissions
drain-push_all_example = drain-push_all submissions

execute-client_comm_example :
    let before = client (patches rate urgent) waiting_worker.device in
    let after = execute up waiting_worker.device in
    (execute up before.1 ≡ (after.0, (client (patches rate urgent) after.1).1))
    × ((client (patches rate urgent) after.1).0 ≡ before.0)
execute-client_comm_example = execute-client_comm up (patches rate urgent) waiting_worker.device

abbrev bad : ParameterMap
bad = ("device.enable", int_value 1) ∷ []

refused_patch :
    Patches.accepted_of (enqueue_parameter_patch bad urgent waiting_worker.device) ≡ false
unfolding enqueue_parameter_patch start make_device find
refused_patch = refl

started : waiting_worker.device.queue.running ≡ true
unfolding start make_device
started = refl

stop-Comes_example :
    Comes
      (record { device = request_stop waiting_worker.device; phase = waiting_worker.phase })
      (stop waiting_worker)
stop-Comes_example = stop-Comes waiting_worker started

enqueue-accepted_iff_example :
    (accepted_of (enqueue "lidar" (up ∷ down ∷ []) normal manager) ≡ true) ↔ (
      CanSubmit "lidar" manager × ((up ∷ down ∷ []) ≢ []) × (is_contiguous (up ∷ down ∷ []) ≡ true))
enqueue-accepted_iff_example = enqueue-accepted_iff "lidar" (up ∷ down ∷ []) normal manager

gap : accepted_of (enqueue "lidar" (up ∷ up ∷ []) normal manager) ≡ false
unfolding enqueue is_contiguous find state_eq
gap = refl

-- The worker has been started, has taken the patch off its queue and found it the latest.
abbrev patched : Worker LifecycleState
patched =
    let w = (start (returns tt) (fresh lidar toy inactive)).1 in
    step (step (record w { device = (client (patches rate urgent) w.device).1 }))

admissible :
    IsAdmissible (patches rate urgent) (start (returns tt) (fresh lidar toy inactive)).1.device
unfolding start make_device find
admissible = ((refl, tt), omega arith)

path : Reach (fresh lidar toy inactive) patched
path =
    let w = (start (returns tt) (fresh lidar toy inactive)).1 in
    next
      (next (next (next here (starts (returns tt) _)) (calls (patches rate urgent) w admissible))
        (works _))
      (works _)

plans : patched.phase ≡ planning rate rate
unfolding step start make_device client find enqueue_parameter_patch next_batch take_patch merge
    insert_or_assign
plans = refl

Reach-planning_example : Agrees rate rate × EnableIsTrue rate
Reach-planning_example = Reach-planning lidar toy inactive path rate rate plans

abbrev stopped : Manager LifecycleState
stopped = record {
  devices = ("lidar", fresh lidar toy inactive) ∷ ("imu", fresh lidar toy inactive) ∷ [];
  running = false;
}

-- The thread of the second device cannot be created, that of the first one can.
abbrev threads : String → Call (Unit {0})
threads id = if str_eq id "lidar" then returns tt else throws "Resource temporarily unavailable"

start-Settles_example : Settles (Manager.start threads stopped)
unfolding make_device
start-Settles_example = start-Settles threads stopped refl ((refl, tt), ((refl, tt), tt))

stop-AllIdle_example :
    ((Manager.stop manager).running ≡ false) × AllIdle (Manager.stop manager).devices
stop-AllIdle_example = stop-AllIdle manager refl ((λ e. absurd (cc (started, e))), tt)
