-- ===== src/Pager/Crc.antt =====
-- `crc16` of drivers/pager100_lora_bridge/src/serial_frame.cpp. Every value is a `std::uint16_t`.
use device_manager.Common.{
  ℕ, zero, suc, ◌/◌, ◌%◌, ◌^◌, ◌<◌, List, [], ◌∷◌, bit_and, bit_xor, ◌==◌, if◌then◌else◌, arith,
}

-- One round of the inner loop; `crc & 0x0001U` is 0 or 1.
pub crc_bit : ℕ → ℕ
crc_bit crc = if bit_and crc 1 == 0 then crc / 2 % 2 ^ 16 else bit_xor (crc / 2) 0xA001 % 2 ^ 16

pub crc_bits : ℕ → ℕ → ℕ
unfolding crc_bit
crc_bits zero crc = crc
crc_bits (suc n) crc = crc_bits n (crc_bit crc)

pub crc_loop : ℕ → List ℕ → ℕ
unfolding crc_bits
crc_loop crc [] = crc
crc_loop crc (b ∷ bs) = crc_loop (crc_bits 8 (bit_xor crc b % 2 ^ 16)) bs

unfoldable pub crc16 : List ℕ → ℕ
unfolding crc_loop
crc16 bs = crc_loop 0xFFFF bs

crc_bit-lt : (crc : ℕ) → crc_bit crc < 2 ^ 16
unfolding crc_bit
crc_bit-lt crc = ground arith

crc_bits-lt : (n crc : ℕ) → crc < 2 ^ 16 → crc_bits n crc < 2 ^ 16
unfolding crc_bits
crc_bits-lt zero crc h = h
crc_bits-lt (suc n) crc h = crc_bits-lt n (crc_bit crc) (crc_bit-lt crc)

crc_loop-lt : (bs : List ℕ) (crc : ℕ) → crc < 2 ^ 16 → crc_loop crc bs < 2 ^ 16
unfolding crc_loop
crc_loop-lt [] crc h = h
crc_loop-lt (b ∷ bs) crc h = crc_loop-lt bs _ (crc_bits-lt 8 (bit_xor crc b % 2 ^ 16) (omega arith))

pub crc16-lt : (bs : List ℕ) → crc16 bs < 2 ^ 16
unfolding crc16
crc16-lt bs = crc_loop-lt bs 0xFFFF (omega arith)
