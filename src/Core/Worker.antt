-- ===== src/Core/Worker.antt =====
-- `DeviceQueue::start`, `stop` and `run` in device_manager_core/src/device_manager.cpp: the worker
-- thread as a machine that takes one step for each critical section or runtime call, so that the
-- calls of other threads fall between its steps.
pub mod Coherence
pub mod Submissions
pub mod Kept
pub mod Reachable
pub mod Shutdown
pub mod Stopped
pub mod Lawful
use device_manager.Common.{
  ℕ, zero, suc, true, false, List, [], ◌∷◌, Option, none, some, if◌then◌else◌,
}
use device_manager.Core.Types.{ParameterMap, TransitionRequest, empty_request}
use device_manager.Core.Runtime.{Call, returns, throws, throws_unknown}
use device_manager.Core.Device.{RequestBatch, DeviceQueue, Device}
use device_manager.Core.Queue.{next_batch}
use device_manager.Core.Execute.{
  execute, execute_all, finalize, take_patch, plan, record_discarded, execute_parameter_patch,
}

-- Where the worker stands. `executing` holds the requests of the batch that are still to run, and
-- `planning` the parameters that were read with the queue's lock held.
pub data Phase : Type 0 where
  no_thread waiting finalizing exited : Phase
  executing : List TransitionRequest → Phase
  patching : ℕ → ParameterMap → Phase
  discarding : Phase
  planning : ParameterMap → ParameterMap → Phase

pub record Worker (W : Type 0) : Type 0 where
  pub device : Device W
  pub phase : Phase

-- The batch that `run` took decides what it does next.
abbrev pub phase_of : RequestBatch → Option ℕ → Phase
phase_of b (some revision) = patching revision b.parameter_patch
phase_of b none = executing b.requests

module _ {W : Type 0} where
  abbrev at : Device W → Phase → Worker W
  at d p = record { device = d; phase = p }

  abbrev taken : Device W → Option (RequestBatch × DeviceQueue) → Worker W
  taken d none = at d waiting
  taken d (some (b, q)) = at (record d { queue = q }) (phase_of b b.parameter_revision)

  -- The wait on the condition and the block behind it.
  unfoldable pub wake : Device W → Worker W
  wake d = if d.queue.stopping then at d finalizing else taken d (next_batch d.queue)

  unfoldable pub step_in : Phase → Device W → Worker W
  unfolding wake
  step_in no_thread d = at d no_thread
  step_in waiting d = wake d
  step_in (executing []) d = at d waiting
  step_in (executing (r ∷ rs)) d =
      let (going, d') = execute r d in at d' (if going then executing rs else waiting)
  step_in (patching revision patch) d =
      let (superseded, d') = take_patch revision d in
      at d' (if superseded then discarding else planning d.parameters patch)
  step_in discarding d = at (record_discarded empty_request "superseded parameter patch" d) waiting
  step_in (planning current patch) d = let (rs, d') = plan current patch d in at d' (executing rs)
  step_in finalizing d = at (finalize d) exited
  step_in exited d = at d exited

  unfoldable pub step : Worker W → Worker W
  unfolding step_in
  step w = step_in w.phase w.device

  unfoldable pub steps : ℕ → Worker W → Worker W
  steps zero w = w
  steps (suc n) w = steps n (step w)

  -- What is left of the current batch, run to its end with no other thread in between.
  unfoldable pub finish_batch : Phase → Device W → Device W
  finish_batch (executing rs) d = execute_all rs d
  finish_batch (patching revision patch) d = execute_parameter_patch revision patch d
  finish_batch discarding d = record_discarded empty_request "superseded parameter patch" d
  finish_batch (planning current patch) d = let (rs, d') = plan current patch d in execute_all rs d'
  finish_batch _ d = d

  -- The constructor of `std::thread`, which may throw: then there is no new thread.
  abbrev pub launch : Call (Unit {0}) → Worker W → Call (Unit {0}) × Worker W
  launch (returns _) w = (returns tt, at w.device waiting)
  launch (throws m) w = (throws m, w)
  launch throws_unknown w = (throws_unknown, w)

  -- The block of `DeviceQueue::start` under the lock.
  abbrev pub set_running : Worker W → Worker W
  set_running w = record w {
    device = record (w.device) {
      queue = record (w.device.queue) { running = true; stopping = false };
    };
  }

  -- `DeviceQueue::start`. The thread is created only if the queue was not running; `thread` is how
  -- its constructor ends.
  unfoldable pub start : Call (Unit {0}) → Worker W → Call (Unit {0}) × Worker W
  start thread w = if w.device.queue.running then (returns tt, w) else launch thread (set_running w)

  -- The block of `DeviceQueue::stop` under the lock.
  unfoldable pub request_stop : Device W → Device W
  request_stop d = record d {
    queue = record {
      urgent_queue = [];
      normal_queue = [];
      pending_parameter_patch = [];
      running = false;
      stopping = true;
    };
  }

  -- `worker_.join()`: the worker ends its batch and finalizes the device. With no thread there is
  -- nothing to join.
  abbrev pub join : Phase → Device W → Worker W
  join no_thread d = at d no_thread
  join exited d = at d exited
  join finalizing d = at (finalize d) exited
  join p d = at (finalize (finish_batch p d)) exited

  -- `DeviceQueue::stop`.
  unfoldable pub stop : Worker W → Worker W
  unfolding request_stop finish_batch
  stop w = if w.device.queue.running then join w.phase (request_stop w.device) else w
