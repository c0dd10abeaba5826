-- ===== src/Imu/Recovery.antt =====
-- The hook of drivers/ch020_imu_driver/src/ch020_imu_runtime.cpp, which leads the device up to
-- active and answers errors.
pub mod Descent
pub mod Handled
use device_manager.Common.{
  ℕ, Bool, true, false, not, List, [], ◌∷◌, Option, none, some, ltb, if◌then◌else◌,
}
use device_manager.Core.Types.{
  LifecycleState, unconfigured, inactive, active, finalized, error_level, stale_level, DeviceEvent,
  TransitionRequest, HookContext, ParameterMap, state_eq,
}

abbrev pub event_needs_recovery : DeviceEvent → Bool
event_needs_recovery e = elim e.level [ error_level ↦ true | stale_level ↦ true | _ ↦ false ]

abbrev edge : LifecycleState → LifecycleState → ParameterMap → TransitionRequest
edge f t p = record { from_state = f; target_state = t; parameters = p }

unfoldable pub recovery_requests : LifecycleState → LifecycleState → List TransitionRequest
recovery_requests active finalized =
    edge active inactive [] ∷ edge inactive unconfigured [] ∷ edge unconfigured finalized [] ∷ []
recovery_requests inactive finalized =
    edge inactive unconfigured [] ∷ edge unconfigured finalized [] ∷ []
recovery_requests unconfigured finalized = edge unconfigured finalized [] ∷ []
recovery_requests active inactive = edge active inactive [] ∷ []
recovery_requests active unconfigured = edge active inactive [] ∷ edge inactive unconfigured [] ∷ []
recovery_requests inactive unconfigured = edge inactive unconfigured [] ∷ []
recovery_requests _ _ = []

-- The hook in the state active: `handled` is `*handled_event_revision`, before and after.
unfoldable pub answer_event : Option DeviceEvent → ℕ → ℕ → List TransitionRequest × ℕ
unfolding recovery_requests
answer_event none revision handled = ([], handled)
answer_event (some e) revision handled =
    if not (event_needs_recovery e)
    then ([], handled)
    else if not (ltb handled revision)
    then ([], handled)
    else (recovery_requests active e.target_state, revision)

unfoldable pub hook : HookContext → ℕ → List TransitionRequest × ℕ
unfolding recovery_requests answer_event
hook c handled =
    if not c.enabled then (recovery_requests c.state finalized, handled) else elim c.state [
      | finalized ↦ (edge finalized unconfigured c.parameters ∷ [], handled)
      | unconfigured ↦ (edge unconfigured inactive c.parameters ∷ [], handled)
      | inactive ↦ (edge inactive active [] ∷ [], handled)
      | active ↦ answer_event c.latest_event c.latest_event_revision handled
      | _ ↦ ([], handled)
    ]
