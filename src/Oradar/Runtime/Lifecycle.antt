-- ===== src/Oradar/Runtime/Lifecycle.antt =====
-- The Oradar lidar's runtime is lawful: its client and its read thread go with its state.
use device_manager.Common.{Bool, true, ◌≡◌}
use device_manager.Core.Types.{
  LifecycleState, unconfigured, inactive, active, finalized, TransitionOutcome,
}
use device_manager.Core.Runtime.{Call}
use device_manager.Core.Runtime.Dispatch as Dispatch
use device_manager.Drivers.Runtime.Lifecycle.{Thread, off, on}
use device_manager.Oradar.Client.{Client}
use device_manager.Oradar.Session.{OradarLidarRuntime}

abbrev pub state_of : {D W : Type 0} → OradarLidarRuntime D W → LifecycleState
state_of r = r.state

-- There is a client from inactive on, and the read thread runs in active alone.
abbrev pub Fits : LifecycleState → Bool → Thread → Type 0
Fits finalized has_client thread = thread ≡ off
Fits unconfigured has_client thread = thread ≡ off
Fits inactive has_client thread = (has_client ≡ true) × (thread ≡ off)
Fits active has_client thread = (has_client ≡ true) × (thread ≡ on)
Fits _ has_client thread = ⊥

abbrev pub thread_of : {D W : Type 0} → OradarLidarRuntime D W → Thread
thread_of r = (r.reading, r.joinable)

abbrev pub IsFit : {D W : Type 0} → OradarLidarRuntime D W → Type 0
IsFit r = Fits r.state r.has_client (thread_of r)

abbrev End :
    {D W : Type 0}
    → LifecycleState
    → LifecycleState
    → Call TransitionOutcome × OradarLidarRuntime D W
    → Type 0
End = Dispatch.Ends state_of IsFit

abbrev pub with_state :
    {D W : Type 0} → OradarLidarRuntime D W → LifecycleState → OradarLidarRuntime D W
with_state r s = record r { state = s }
