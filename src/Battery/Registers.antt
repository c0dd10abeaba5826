-- ===== src/Battery/Registers.antt =====
-- The register blocks of drivers/tws_battery_driver_ros2/include/tws_battery_driver_ros2/
-- battery_register_blocks.hpp. A block is the data of a response, low byte and low word first.
pub mod Bytes
use device_manager.Common.{
  ℕ, ◌+◌, ◌*◌, ◌%◌, ◌^◌, Bool, not, List, Option, none, some, length, get_or, take, bit_or, ◌==◌,
  if◌then◌else◌,
}

abbrev pub fast_block_a_count : ℕ
fast_block_a_count = 0x16

abbrev pub fast_block_b_count : ℕ
fast_block_b_count = 0x6

abbrev pub identity_block_count : ℕ
identity_block_count = 0x12

-- `pack_current_ma` is the two's complement pattern of the `int32_t`.
pub record BatteryFastRegisterValues : Type 0 where
  pub work_state : ℕ
  pub pack_voltage_mv : ℕ
  pub pack_current_ma : ℕ
  pub max_cell_voltage_mv : ℕ
  pub min_cell_voltage_mv : ℕ
  pub max_cell_temp : ℕ
  pub min_cell_temp : ℕ
  pub max_board_temp : ℕ
  pub min_board_temp : ℕ
  pub protect_status : ℕ
  pub io_status : ℕ
  pub soc : ℕ
  pub soh : ℕ
  pub remain_capacity_mah : ℕ
  pub cycle_count : ℕ

-- The serial number's bytes are a list.
pub record BatteryIdentityRegisterValues : Type 0 where
  pub serial_number_bytes : List ℕ
  pub software_version : ℕ
  pub hardware_version : ℕ

-- Which block has the wrong length, with the length that it has.
pub data BlockError : Type 0 where
  bad_block_a bad_block_b bad_identity_block : ℕ → BlockError

pub data Decoded (V : Type 0) : Type 0 where
  decoded : V → Decoded V
  refused : BlockError → Decoded V

unfoldable pub decode_block_u16 : List ℕ → ℕ → ℕ
decode_block_u16 bytes offset =
    bit_or (get_or bytes offset 0) (get_or bytes (offset + 1) 0 * 2 ^ 8 % 2 ^ 16)

unfoldable pub decode_block_u32 : List ℕ → ℕ → ℕ
unfolding decode_block_u16
decode_block_u32 bytes offset =
    bit_or (decode_block_u16 bytes offset) (decode_block_u16 bytes (offset + 2) * 2 ^ 16)

unfoldable pub decode_fast_register_blocks : List ℕ → List ℕ → Decoded BatteryFastRegisterValues
unfolding decode_block_u32
decode_fast_register_blocks a b =
    if not (length a == fast_block_a_count * 2)
    then refused (bad_block_a (length a))
    else if not (length b == fast_block_b_count * 2)
    then refused (bad_block_b (length b))
    else decoded (record {
      work_state = decode_block_u16 a 0;
      pack_voltage_mv = decode_block_u32 a 4;
      pack_current_ma = decode_block_u32 a 8;
      max_cell_voltage_mv = decode_block_u16 a 12;
      min_cell_voltage_mv = decode_block_u16 a 14;
      max_cell_temp = decode_block_u16 a 16;
      min_cell_temp = decode_block_u16 a 18;
      max_board_temp = decode_block_u16 a 20;
      min_board_temp = decode_block_u16 a 22;
      protect_status = decode_block_u32 a 24;
      io_status = decode_block_u32 a 40;
      soc = decode_block_u16 b 0;
      soh = decode_block_u16 b 2;
      remain_capacity_mah = decode_block_u32 b 4;
      cycle_count = decode_block_u32 b 8;
    })

unfoldable pub decode_identity_register_block : List ℕ → Decoded BatteryIdentityRegisterValues
unfolding decode_block_u16
decode_identity_register_block block =
    if not (length block == identity_block_count * 2)
    then refused (bad_identity_block (length block))
    else decoded (record {
      serial_number_bytes = take 32 block;
      software_version = decode_block_u16 block 32;
      hardware_version = decode_block_u16 block 34;
    })
