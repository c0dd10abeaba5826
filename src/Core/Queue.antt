-- ===== src/Core/Queue.antt =====
-- The submission side of `DeviceQueue` in device_manager_core/src/device_manager.cpp.
pub mod Order
pub mod Patches
use device_manager.Common.{
  ℕ, String, Bool, false, not, List, [], ◌∷◌, ◌++◌, Option, none, some, length, ◌==◌, ◌&&◌,
  if◌then◌else◌, find, merge,
}
use device_manager.Core.Types.{
  RequestPriority, normal, urgent, ParameterMap, ParameterValue, bool_value, TransitionRequest,
  SubmissionResult, accept, refuse,
}
use device_manager.Core.Device.{RequestBatch, DeviceQueue, Device, next_u64}

-- `queue.push_back(batch)` on the queue that the priority selects.
unfoldable pub push_back : RequestPriority → RequestBatch → DeviceQueue → DeviceQueue
push_back urgent b q = record q { urgent_queue = q.urgent_queue ++ b ∷ [] }
push_back normal b q = record q { normal_queue = q.normal_queue ++ b ∷ [] }

abbrev pub plain_batch : List TransitionRequest → RequestBatch
plain_batch rs = record { requests = rs; parameter_revision = none; parameter_patch = [] }

abbrev pub patch_batch : ℕ → ParameterMap → RequestBatch
patch_batch n p = record { requests = []; parameter_revision = some n; parameter_patch = p }

abbrev pub enable_key : String
enable_key = "device.enable"

-- `holds_alternative<bool>` on the patch's entry for the key, if it has one.
pub data EnablePatch : Type 0 where
  absent ill_typed : EnablePatch
  present : Bool → EnablePatch

unfoldable pub classify : Option ParameterValue → EnablePatch
classify none = absent
classify (some (bool_value b)) = present b
classify (some _) = ill_typed

abbrev pub enable_patch : ParameterMap → EnablePatch
enable_patch p = classify (find enable_key p)

-- What `run` takes next: the front of the urgent queue, or of the normal queue if that is empty.
unfoldable pub next_batch : DeviceQueue → Option (RequestBatch × DeviceQueue)
next_batch q = elim q.urgent_queue [
  | b ∷ rest ↦ some (b, record q { urgent_queue = rest })
  | [] ↦ elim q.normal_queue [ b ∷ rest ↦ some (b, record q { normal_queue = rest }) | [] ↦ none ]
]

module _ {W : Type 0} where
  abbrev pub is_open : Device W → Bool
  is_open d = d.queue.running && not d.queue.stopping

  unfoldable pub enqueue :
      List TransitionRequest → RequestPriority → Device W → SubmissionResult × Device W
  unfolding push_back
  enqueue rs priority d =
      if is_open d
      then (accept, record d { queue = push_back priority (plain_batch rs) d.queue })
      else (refuse "device manager is not running", d)

  -- The body under the observation lock, once `enabled` is known. `only_enable` is
  -- `patch.size() == 1U && enable_patch != patch.end()`.
  unfoldable pub submit_patch :
      Bool → Bool → ParameterMap → RequestPriority → Device W → SubmissionResult × Device W
  unfolding push_back
  submit_patch enabled only_enable patch priority d =
      let revision = next_u64 d.parameter_revision in
      let pending = merge d.queue.pending_parameter_patch patch in
      let merged = record d {
        parameters = merge d.parameters patch;
        definition = record (d.definition) { enabled = enabled };
      } in
      if not enabled
      then (
        accept,
        record merged {
          parameter_revision = revision;
          queue = record (d.queue) { pending_parameter_patch = [] };
        },
      )
      else if only_enable
      then (accept, merged)
      else (
        accept,
        record merged {
          parameter_revision = revision;
          queue =
              push_back priority (patch_batch revision pending)
                (record (d.queue) { pending_parameter_patch = pending });
        },
      )

  abbrev pub dispatch_patch :
      EnablePatch → ParameterMap → RequestPriority → Device W → SubmissionResult × Device W
  dispatch_patch ill_typed patch priority d = (refuse "device.enable must be a boolean", d)
  dispatch_patch absent patch priority d = submit_patch d.definition.enabled false patch priority d
  dispatch_patch (present b) patch priority d = submit_patch b (length patch == 1) patch priority d

  unfoldable pub enqueue_parameter_patch :
      ParameterMap → RequestPriority → Device W → SubmissionResult × Device W
  unfolding submit_patch classify
  enqueue_parameter_patch patch priority d =
      if is_open d
      then dispatch_patch (enable_patch patch) patch priority d
      else (refuse "device manager is not running", d)
