-- ===== src/Drivers/Parameters.antt =====
-- The typed parameters of the runtimes, as in drivers/ch020_imu_driver/src/ch020_imu_runtime.cpp:
-- `parameter_as` and what is built on it.
use device_manager.Common.{ℕ, String, append, Bool, Option, none, some, find}
use device_manager.Core.Types.{
  success, failure, ParameterMap, ParameterValue, bool_value, int_value, string_value,
  TransitionOutcome,
}
use device_manager.Core.Runtime.{Call, returns, throws, throws_unknown}

-- The outcome of `parameter_as`: no such parameter, a value, or the wrong type.
pub data Parameter (A : Type 0) : Type 0 where
  absent invalid : Parameter A
  present : A → Parameter A

abbrev pub as_string : ParameterValue → Parameter String
as_string (string_value s) = present s
as_string _ = invalid

abbrev pub as_integer : ParameterValue → Parameter ℕ
as_integer (int_value n) = present n
as_integer _ = invalid

abbrev pub as_bool : ParameterValue → Parameter Bool
as_bool (bool_value b) = present b
as_bool _ = invalid

unfoldable pub parameter_as :
    {A : Type 0} → (ParameterValue → Parameter A) → ParameterMap → String → Parameter A
unfolding find
parameter_as f ps name = elim (find name ps) [ none ↦ absent | some v ↦ f v ]

-- A configuration, or the text of the error.
pub data Configured (C : Type 0) : Type 0 where
  valid : C → Configured C
  refused : String → Configured C

-- A block of the runtimes' `config_from`: a present value is stored, and an error ends the chain.
unfoldable pub read_into :
    {A C : Type 0}
    → (ParameterValue → Parameter A)
    → (A → C → C)
    → ParameterMap
    → String
    → Configured C
    → Configured C
unfolding parameter_as
read_into f store ps name (refused m) = refused m
read_into f store ps name (valid c) = elim (parameter_as f ps name) [
  | absent ↦ valid c
  | present v ↦ valid (store v c)
  | invalid ↦ refused (append "invalid parameter type: " name)
]

abbrev pub stored_string : Option ParameterValue → String → String
stored_string (some (string_value s)) old = s
stored_string _ old = old

abbrev pub stored_bool : Option ParameterValue → Bool → Bool
stored_bool (some (bool_value b)) old = b
stored_bool _ old = old

abbrev outcome : {W : Type 0} → TransitionOutcome → W → Call TransitionOutcome × W
outcome o w = (returns o, w)

abbrev pub succeed : {W : Type 0} → W → Call TransitionOutcome × W
succeed = outcome (record { result = success; message = "" })

abbrev pub fail : {W : Type 0} → String → W → Call TransitionOutcome × W
fail m = outcome (record { result = failure; message = m })

-- The success at the end of a method, if its last call returns.
abbrev pub succeed_if : {W : Type 0} → Call (Unit {0}) → W → Call TransitionOutcome × W
succeed_if (returns _) w = succeed w
succeed_if (throws m) w = (throws m, w)
succeed_if throws_unknown w = (throws_unknown, w)
