-- ===== src/Battery/Snapshot.antt =====
-- `BatterySnapshot` and the functions of drivers/tws_battery_driver_ros2/src/battery_snapshot.cpp.
-- The texts that come from the battery's bytes are lists of bytes.
pub mod Sanitized
use device_manager.Common.{
  ℕ, ◌/◌, ◌^◌, String, append, Bool, true, false, not, ◌&&◌, ◌||◌, List, [], ◌∷◌, ◌++◌, ◌==◌, leb,
  ltb, bit_and, to_string, digit, if◌then◌else◌,
}

pub record BatterySnapshot (F : Type 0) : Type 0 where
  pub connected : Bool
  pub last_error : String
  pub device_address : ℕ
  pub work_state : ℕ
  pub pack_voltage_v : F
  pub pack_current_a : F
  pub max_cell_voltage_v : F
  pub min_cell_voltage_v : F
  pub max_cell_temperature_c : F
  pub min_cell_temperature_c : F
  pub max_board_temperature_c : F
  pub min_board_temperature_c : F
  pub soc : F
  pub soh : F
  pub remain_capacity_mah : F
  pub cycle_count : ℕ
  pub protect_status : ℕ
  pub io_status : ℕ
  pub serial_number : List ℕ
  pub software_version : String
  pub hardware_version : String

abbrev pub blank : ℕ
blank = 0x20

-- What the loop of `sanitize_identity_string` keeps.
abbrev pub is_kept : ℕ → Bool
is_kept value = if value == 0 || value == 0xFF then false else leb 0x20 value && leb value 0x7E

unfoldable pub printable : List ℕ → List ℕ
printable [] = []
printable (b ∷ bs) = let rest = printable bs in if is_kept b then b ∷ rest else rest

unfoldable pub drop_leading : List ℕ → List ℕ
drop_leading [] = []
drop_leading (b ∷ bs) = if b == blank then drop_leading bs else b ∷ bs

-- The loop of `pop_back`: what is blank up to the end goes.
unfoldable pub drop_trailing : List ℕ → List ℕ
drop_trailing [] = []
drop_trailing (b ∷ bs) = elim (drop_trailing bs) [
  | [] ↦ if b == blank then [] else b ∷ []
  | c ∷ cs ↦ b ∷ c ∷ cs
]

unfoldable pub sanitize_identity_string : List ℕ → List ℕ
unfolding printable drop_leading drop_trailing
sanitize_identity_string raw = drop_trailing (drop_leading (printable raw))

-- `std::setw(2)` with zeros.
abbrev two_digits : ℕ → String
two_digits n = if ltb n 10 then append "0" (digit n) else to_string n

unfoldable pub version_to_text : ℕ → String
unfolding to_string
version_to_text raw =
    append "V"
      (append (to_string (bit_and (raw / 2 ^ 8) 0xFF)) (append "." (two_digits (bit_and raw 0xFF))))

abbrev pub protection_bit_map : List (ℕ × String)
protection_bit_map =
    (0x00000001, "CHARGE_OVER_CURRENT")
    ∷ (0x00000002, "CHARGE_OVER_VOLTAGE")
    ∷ (0x00000004, "CHARGE_SINGLE_CELL_OVER_VOLTAGE")
    ∷ (0x00000008, "CHARGE_OVER_TEMPERATURE")
    ∷ (0x00000010, "CHARGE_UNDER_TEMPERATURE")
    ∷ (0x00000020, "DISCHARGE_OVER_CURRENT")
    ∷ (0x00000040, "BMS_SUM_UNDER_VOLTAGE")
    ∷ (0x00000080, "DISCHARGE_CELL_UNDER_VOLTAGE")
    ∷ (0x00000100, "DISCHARGE_OVER_TEMPERATURE")
    ∷ (0x00000200, "DISCHARGE_UNDER_TEMPERATURE")
    ∷ (0x00000400, "AFE_OVER_CURRENT")
    ∷ (0x00000800, "AFE_SOC_OVER_VOLTAGE")
    ∷ (0x00001000, "AFE_UNDER_VOLTAGE")
    ∷ (0x00002000, "MOS_OVER_TEMPERATURE")
    ∷ (0x00008000, "SOC_LOW_PROTECT")
    ∷ (0x00010000, "CELLS_IMBALANCE")
    ∷ (0x00020000, "CELLS_TEMP_DEVIATION")
    ∷ (0x08000000, "SECOND_LEVEL_OVER_TEMPERATURE")
    ∷ (0x10000000, "SECOND_LEVEL_CELL_OVER_VOLTAGE")
    ∷ (0x20000000, "SECOND_LEVEL_CELL_UNDER_VOLTAGE")
    ∷ (0x40000000, "SECOND_LEVEL_CHARGE_OVER_CURRENT")
    ∷ (0x80000000, "SECOND_LEVEL_DISCHARGE_OVER_CURRENT")
    ∷ []

unfoldable pub protections : ℕ → List (ℕ × String) → List String
protections mask [] = []
protections mask ((bit, name) ∷ rest) =
    let names = protections mask rest in if not (bit_and mask bit == 0) then name ∷ names else names

pub decode_protection_bits : ℕ → List String
unfolding protections
decode_protection_bits mask = protections mask protection_bit_map
