-- ===== src/Core/Runtime.antt =====
-- `IDeviceRuntime` and `DeviceRuntimeBase` of
-- device_manager_core/include/device_manager_core/device_manager.hpp. A runtime is code behind an
-- interface: its calls are functions of a world `W` that stands for the driver, the hardware and
-- the clock, and each call returns the world after it.
pub mod Dispatch
use device_manager.Common.{ℕ, String, Bool, List, ◌&&◌, ◌||◌, if◌then◌else◌}
use device_manager.Core.Types.{
  LifecycleState, unconfigured, inactive, active, finalized, failure, ParameterMap, HookContext,
  TransitionRequest, TransitionOutcome, DeviceDefinition, state_eq,
}

-- How a call ends: `throws` carries the text of a `std::exception`, and `throws_unknown` is any
-- other exception.
pub data Call {ℓ} (A : Type ℓ) : Type ℓ where
  returns : A → Call A
  throws : String → Call A
  throws_unknown : Call A

abbrev pub LifecycleHook : Type 0 → Type 0
LifecycleHook W = HookContext → W → Call (List TransitionRequest) × W

-- `hooks` lists what `register_hook` hands to its registrar, in order. The event handler that the
-- runtime keeps is part of the world, and an event is a step of its own (see Core/Device.antt).
pub record Runtime (W : Type 0) : Type 0 where
  pub initialize : DeviceDefinition → W → W
  pub state : W → Call LifecycleState × W
  pub request_transition : TransitionRequest → W → Call TransitionOutcome × W
  pub parameter_transitions :
      LifecycleState → ParameterMap → ParameterMap → W → Call (List TransitionRequest) × W
  pub set_event_handler : Bool → W → Call (Unit {0}) × W
  pub hooks : W → List (LifecycleHook W)
  pub register_hook : W → Call (Unit {0}) × W
  pub now : W → ℕ × W

-- The virtual methods that `DeviceRuntimeBase` dispatches to.
pub record LifecycleMethods (W : Type 0) : Type 0 where
  pub materialize : ParameterMap → W → Call TransitionOutcome × W
  pub configure : ParameterMap → W → Call TransitionOutcome × W
  pub activate : W → Call TransitionOutcome × W
  pub deactivate : W → Call TransitionOutcome × W
  pub cleanup : ParameterMap → W → Call TransitionOutcome × W
  pub dematerialize : W → Call TransitionOutcome × W

abbrev pub goes : TransitionRequest → LifecycleState → LifecycleState → Bool
goes r f t = state_eq r.from_state f && state_eq r.target_state t

module _ {W : Type 0} where
  -- A method that is not overridden.
  abbrev pub unsupported : String → W → Call TransitionOutcome × W
  unsupported m w = (returns (record { result = failure; message = m }), w)

  -- `DeviceRuntimeBase::request_transition`.
  unfoldable pub request_transition :
      LifecycleMethods W → TransitionRequest → W → Call TransitionOutcome × W
  request_transition m r w =
      if goes r finalized unconfigured
      then m.materialize r.parameters w
      else if goes r unconfigured inactive
      then m.configure r.parameters w
      else if goes r inactive active
      then m.activate w
      else if goes r active inactive
      then m.deactivate w
      else if goes r inactive unconfigured
      then m.cleanup r.parameters w
      else if state_eq r.target_state finalized
          && (state_eq r.from_state unconfigured
              || state_eq r.from_state inactive
              || state_eq r.from_state active)
      then m.dematerialize w
      else unsupported "unsupported lifecycle transition" w

  -- The default bodies of the virtual methods.
  pub default_methods : LifecycleMethods W
  default_methods = record {
    materialize = λ p. unsupported "runtime does not support materialization";
    configure = λ p. unsupported "runtime does not support configure";
    activate = unsupported "runtime does not support activate";
    deactivate = unsupported "runtime does not support deactivate";
    cleanup = λ p. unsupported "runtime does not support cleanup";
    dematerialize = unsupported "runtime does not support dematerialization";
  }
