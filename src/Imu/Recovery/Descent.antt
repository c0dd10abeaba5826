-- ===== src/Imu/Recovery/Descent.antt =====
-- Where the requests of the hook lead.
use device_manager.Common.{ℕ, true, ◌≡◌, refl, ltb, arith, if◌then◌else◌}
use device_manager.Core.Types.{
  LifecycleState, unconfigured, inactive, active, finalized, is_contiguous, state_eq,
}
use device_manager.Core.Types.Paths.{StartsAt, end_of, IsStable}
use device_manager.Imu.Recovery.{recovery_requests}

-- How far the device is from `finalized`; the states in between count as the lowest.
abbrev rank : LifecycleState → ℕ
rank active = 3
rank inactive = 2
rank unconfigured = 1
rank _ = 0

-- Where the recovery of a device in `from` for `target` ends.
abbrev pub descent : LifecycleState → LifecycleState → LifecycleState
descent from target = if ltb (rank target) (rank from) then target else from

-- Between stable states, the recovery requests form a batch that the manager accepts as
-- contiguous. It starts in the device's state and leads down to the target if the target is below
-- that state, and it is empty otherwise.
pub recovery_requests-descent :
    (from target : LifecycleState)
    → IsStable from
    → IsStable target
    → let rs = recovery_requests from target in
      (is_contiguous rs ≡ true) × StartsAt from rs × (end_of from rs ≡ descent from target)
unfolding recovery_requests is_contiguous state_eq
recovery_requests-descent active active h k = (refl, tt, refl)
recovery_requests-descent active inactive h k = (refl, refl, refl)
recovery_requests-descent active unconfigured h k = (refl, refl, refl)
recovery_requests-descent active finalized h k = (refl, refl, refl)
recovery_requests-descent inactive active h k = (refl, tt, refl)
recovery_requests-descent inactive inactive h k = (refl, tt, refl)
recovery_requests-descent inactive unconfigured h k = (refl, refl, refl)
recovery_requests-descent inactive finalized h k = (refl, refl, refl)
recovery_requests-descent unconfigured active h k = (refl, tt, refl)
recovery_requests-descent unconfigured inactive h k = (refl, tt, refl)
recovery_requests-descent unconfigured unconfigured h k = (refl, tt, refl)
recovery_requests-descent unconfigured finalized h k = (refl, refl, refl)
recovery_requests-descent finalized active h k = (refl, tt, refl)
recovery_requests-descent finalized inactive h k = (refl, tt, refl)
recovery_requests-descent finalized unconfigured h k = (refl, tt, refl)
recovery_requests-descent finalized finalized h k = (refl, tt, refl)
recovery_requests-descent from target h k = ground arith
