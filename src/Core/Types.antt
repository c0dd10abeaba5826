-- ===== src/Core/Types.antt =====
-- The domain types of device_manager_core/include/device_manager_core/device_manager.hpp.
-- A `double` is its bit pattern and an `int64_t` its two's complement pattern: the core only
-- copies them. A point in time is a number of clock ticks.
pub mod Paths
use device_manager.Common.{
  ℕ, String, Bool, true, false, List, [], ◌∷◌, Option, ◌==◌, ◌≡◌, ◌↔◌, ◌&&◌, arith,
}

pub data LifecycleState : Type 0 where
  unknown unconfigured inactive active finalized : LifecycleState
  configuring cleaning_up shutting_down activating deactivating error_processing : LifecycleState

pub data TransitionResult : Type 0 where
  success failure error : TransitionResult

pub data RequestPriority : Type 0 where
  normal urgent : RequestPriority

pub data EventLevel : Type 0 where
  ok_level warn_level error_level stale_level : EventLevel

-- The underlying `std::uint8_t` of the enumerators.
abbrev pub to_u8 : LifecycleState → ℕ
to_u8 unknown = 0
to_u8 unconfigured = 1
to_u8 inactive = 2
to_u8 active = 3
to_u8 finalized = 4
to_u8 configuring = 10
to_u8 cleaning_up = 11
to_u8 shutting_down = 12
to_u8 activating = 13
to_u8 deactivating = 14
to_u8 error_processing = 15

-- `==` on the enumeration compares the underlying numbers.
unfoldable pub state_eq : LifecycleState → LifecycleState → Bool
state_eq a b = to_u8 a == to_u8 b

pub data ParameterValue : Type 0 where
  bool_value : Bool → ParameterValue
  int_value : ℕ → ParameterValue
  double_value : ℕ → ParameterValue
  string_value : String → ParameterValue
  bool_list : List Bool → ParameterValue
  int_list : List ℕ → ParameterValue
  double_list : List ℕ → ParameterValue
  string_list : List String → ParameterValue

abbrev pub ParameterMap : Type 0
ParameterMap = List (String × ParameterValue)

pub record DeviceEvent : Type 0 where
  pub timestamp : ℕ
  pub level : EventLevel
  pub code : String
  pub message : String
  pub source : String
  pub target_state : LifecycleState
  pub values : List (String × String)

pub record TransitionRequest : Type 0 where
  pub from_state : LifecycleState
  pub target_state : LifecycleState
  pub parameters : ParameterMap

pub record TransitionOutcome : Type 0 where
  pub result : TransitionResult
  pub message : String

pub record TransitionRecord : Type 0 where
  pub request : TransitionRequest
  pub result : TransitionResult
  pub discarded : Bool
  pub actual_state : LifecycleState
  pub message : String
  pub timestamp : ℕ

pub record HookContext : Type 0 where
  pub now : ℕ
  pub state : LifecycleState
  pub enabled : Bool
  pub parameters : ParameterMap
  pub latest_event : Option DeviceEvent
  pub latest_event_revision : ℕ

pub record DeviceDefinition : Type 0 where
  pub id : String
  pub type : String
  pub enabled : Bool
  pub parameters : ParameterMap

pub record DeviceObservation : Type 0 where
  pub id : String
  pub type : String
  pub enabled : Bool
  pub state : LifecycleState
  pub parameters : ParameterMap
  pub latest_event : Option DeviceEvent
  pub last_transition : Option TransitionRecord

pub record SubmissionResult : Type 0 where
  pub accepted : Bool
  pub message : String

-- `{}`, a default-constructed request.
abbrev pub empty_request : TransitionRequest
empty_request = record { from_state = unknown; target_state = unknown; parameters = [] }

abbrev pub accept : SubmissionResult
accept = record { accepted = true; message = "accepted" }

abbrev pub refuse : String → SubmissionResult
refuse m = record { accepted = false; message = m }

abbrev edge : LifecycleState → LifecycleState → ParameterMap → TransitionRequest
edge f t p = record { from_state = f; target_state = t; parameters = p }

-- The fallthrough cases of the switch, from the case that `state` selects.
unfoldable pub standard_parameter_transitions :
    LifecycleState → ParameterMap → List TransitionRequest
standard_parameter_transitions active p =
    edge active inactive []
    ∷ edge inactive unconfigured []
    ∷ edge unconfigured inactive p
    ∷ edge inactive active []
    ∷ []
standard_parameter_transitions inactive p =
    edge inactive unconfigured [] ∷ edge unconfigured inactive p ∷ []
standard_parameter_transitions finalized p =
    edge finalized unconfigured [] ∷ edge unconfigured inactive p ∷ []
standard_parameter_transitions unconfigured p = edge unconfigured inactive p ∷ []
standard_parameter_transitions _ p = []

-- `is_contiguous`: each request starts where the one before it ends.
unfoldable pub is_contiguous : List TransitionRequest → Bool
is_contiguous [] = true
is_contiguous (r ∷ []) = true
is_contiguous (r ∷ s ∷ rest) = state_eq r.target_state s.from_state && is_contiguous (s ∷ rest)

pub state_eq_iff : (a b : LifecycleState) → (state_eq a b ≡ true) ↔ (a ≡ b)
unfolding state_eq
state_eq_iff a b = ground arith
