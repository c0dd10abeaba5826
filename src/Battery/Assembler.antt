-- ===== src/Battery/Assembler.antt =====
-- `ModbusResponseAssembler` of drivers/tws_battery_driver_ros2/include/tws_battery_driver_ros2/
-- modbus_response_assembler.hpp: the fragments of a response on the CAN bus put together.
pub mod Whole
use device_manager.Common.{
  ℕ, ◌+◌, Bool, true, false, ◌||◌, List, [], ◌∷◌, ◌++◌, Option, none, some, length, ltb, leb, empty,
  get_or, ◌==◌, if◌then◌else◌,
}

-- `kError` carries which of the two messages the source writes, with the numbers in it.
pub data AssemblyError : Type 0 where
  empty_fragment : AssemblyError
  too_long : ℕ → ℕ → AssemblyError

pub data AssemblyStatus : Type 0 where
  incomplete complete : AssemblyStatus
  failed : AssemblyError → AssemblyStatus

pub record Assembler : Type 0 where
  pub bytes : List ℕ
  pub expected_size : Option ℕ

abbrev pub initial : Assembler
initial = record { bytes = []; expected_size = none }

abbrev pub size_of : List ℕ → Option ℕ
size_of bs =
    if ltb (length bs) 2
    then none
    else if get_or bs 1 0 == 0x83
    then some 5
    else if leb 3 (length bs)
    then some (get_or bs 2 0 + 5)
    else none

unfoldable pub update_expected_size : Assembler → Assembler
update_expected_size a = elim a.expected_size [
  | some n ↦ a
  | none ↦ record a { expected_size = size_of a.bytes }
]

-- What `append` returns once the bytes are appended.
unfoldable pub status_of : Option ℕ → List ℕ → AssemblyStatus
status_of none bs = incomplete
status_of (some n) bs =
    if ltb n (length bs)
    then failed (too_long n (length bs))
    else if length bs == n
    then complete
    else incomplete

unfoldable pub append : List ℕ → Assembler → AssemblyStatus × Assembler
unfolding update_expected_size status_of
append fragment a =
    let a' = update_expected_size (record a { bytes = a.bytes ++ fragment }) in
    if empty fragment then (failed empty_fragment, a) else (status_of a'.expected_size a'.bytes, a')
