-- ===== src/Imu/Crc.antt =====
-- `HipnucDecoder::crc16_update` of drivers/ch020_imu_driver/src/hipnuc_decoder.cpp.
use device_manager.Common.{
  ℕ, zero, suc, ◌*◌, ◌%◌, ◌^◌, List, [], ◌∷◌, bit_and, bit_xor, ◌==◌, if◌then◌else◌,
}

-- One round of the inner loop: `t` is the shifted value.
pub crc_bit : ℕ → ℕ
crc_bit crc =
    let t = crc * 2 % 2 ^ 16 in if bit_and crc 0x8000 == 0 then t else bit_xor t 0x1021 % 2 ^ 16

pub crc_bits : ℕ → ℕ → ℕ
unfolding crc_bit
crc_bits zero crc = crc
crc_bits (suc n) crc = crc_bits n (crc_bit crc)

unfoldable pub crc16_update : ℕ → List ℕ → ℕ
unfolding crc_bits
crc16_update crc [] = crc
crc16_update crc (b ∷ bs) = crc16_update (crc_bits 8 (bit_xor crc (b * 2 ^ 8) % 2 ^ 16)) bs
