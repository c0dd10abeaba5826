-- ===== src/Camera/Otp.antt =====
-- The calibration and the serial number in the sensor's one-time programmable memory:
-- `decode_ox01f10_otp` and its helpers of
-- drivers/gmsl_v4l2_camera_driver/src/gmsl_v4l2_camera_runtime.cpp. A serial number is its bytes.
pub mod Bytes
pub mod Image
pub mod Decoded
use Prim.Native.String.{slice}
use device_manager.Common.{
  ℕ, zero, suc, ◌+◌, ◌-◌, ◌*◌, ◌/◌, ◌%◌, ◌^◌, String, append, Bool, true, false, not, ◌&&◌, ◌||◌,
  List, [], ◌∷◌, map, bit_and, bit_or, bit_xor, length, get_or, take, drop, empty, ◌==◌, ltb,
  if◌then◌else◌,
}
use device_manager.Drivers.Parameters.{Configured, valid, refused}

-- `double`: the number of a bit pattern, 0.0 and 1.0.
pub record Reals (D : Type 0) : Type 0 where
  pub of_bits : ℕ → D
  pub null : D
  pub one : D

pub record CameraCalibration (D : Type 0) : Type 0 where
  pub width : ℕ
  pub height : ℕ
  pub distortion_model : String
  pub d : List D
  pub k : List D
  pub r : List D
  pub p : List D

unfoldable pub read_le_u16 : List ℕ → ℕ → ℕ
read_le_u16 otp offset = bit_or (get_or otp offset 0) (get_or otp (offset + 1) 0 * 2 ^ 8 % 2 ^ 16)

unfoldable pub read_le_u32 : List ℕ → ℕ → ℕ
read_le_u32 otp offset =
    bit_or
      (bit_or (bit_or (get_or otp offset 0) (get_or otp (offset + 1) 0 * 2 ^ 8 % 2 ^ 32))
        (get_or otp (offset + 2) 0 * 2 ^ 16 % 2 ^ 32))
      (get_or otp (offset + 3) 0 * 2 ^ 24 % 2 ^ 32)

-- The loop of `read_le_double`, with the rounds left.
unfoldable pub or_bytes : (ℕ → ℕ) → ℕ → ℕ → ℕ → ℕ
or_bytes byte zero index raw = raw
or_bytes byte (suc n) index raw =
    or_bytes byte n (index + 1) (bit_or raw (byte index * 2 ^ (index * 8) % 2 ^ 64))

unfoldable pub raw_double : List ℕ → ℕ → ℕ
unfolding or_bytes
raw_double otp offset = or_bytes (λ index. get_or otp (offset + index) 0) 8 0 0

abbrev crc32_bit : ℕ → ℕ
crc32_bit crc = bit_xor (crc / 2) (bit_and 0xedb88320 ((2 ^ 32 - bit_and crc 1) % 2 ^ 32)) % 2 ^ 32

pub crc32_bits : ℕ → ℕ → ℕ
crc32_bits zero crc = crc
crc32_bits (suc n) crc = crc32_bits n (crc32_bit crc)

pub crc32_loop : List ℕ → ℕ → ℕ
unfolding crc32_bits
crc32_loop [] crc = crc
crc32_loop (b ∷ bs) crc = crc32_loop bs (crc32_bits 8 (bit_xor crc b % 2 ^ 32))

unfoldable pub crc32_of : List ℕ → ℕ
unfolding crc32_loop
crc32_of bs = bit_xor (crc32_loop bs 0xffffffff) 0xffffffff % 2 ^ 32

-- The bytes from `begin` on that stand before `end`.
abbrev pub range : List ℕ → ℕ → ℕ → List ℕ
range otp begin end = take (end - begin) (drop begin otp)

abbrev pub crc32 : List ℕ → ℕ → ℕ → ℕ
crc32 otp begin end = crc32_of (range otp begin end)

unfoldable pub all_bytes_are : List ℕ → ℕ → Bool
all_bytes_are [] value = true
all_bytes_are (b ∷ bs) value = (b == value) && all_bytes_are bs value

-- The loop of `read_otp_serial_number`.
unfoldable pub serial_text : List ℕ → List ℕ
serial_text [] = []
serial_text (b ∷ bs) =
    let rest = serial_text bs in
    if b == 0 || (b == 0xff) then [] else if ltb b 0x20 || ltb 0x7e b then rest else b ∷ rest

unfoldable pub read_otp_serial_number : List ℕ → List ℕ
unfolding serial_text
read_otp_serial_number otp = serial_text (range otp 0x120 0x130)

abbrev hex_digit : ℕ → String
hex_digit n = slice "0123456789abcdef" n (n + 1)

-- `std::hex`, for as many digits as there is fuel; a number of 32 bits has eight.
abbrev pub to_hex : ℕ → ℕ → String
to_hex zero n = ""
to_hex (suc k) n =
    let rest = to_hex k (n / 16) in
    if ltb n 16 then hex_digit n else append rest (hex_digit (n % 16))

abbrev mismatch : String → ℕ → ℕ → String
mismatch name calculated stored = append name (
    append " mismatch: calculated 0x"
      (append (to_hex 8 calculated) (append " stored 0x" (to_hex 8 stored))))

module _ {D : Type 0} (reals : Reals D) where
  open reals use {of_bits, null, one}

  abbrev pub read_le_double : List ℕ → ℕ → D
  read_le_double otp offset = of_bits (raw_double otp offset)

  abbrev pub distortion : List ℕ → List D
  distortion otp =
      if get_or otp 0x64 0 == 2
      then (read_le_double otp 0xc5
          ∷ read_le_double otp 0xcd
          ∷ read_le_double otp 0xd5
          ∷ read_le_double otp 0xdd
          ∷ [])
      else (read_le_double otp 0x85
          ∷ read_le_double otp 0x8d
          ∷ read_le_double otp 0x95
          ∷ read_le_double otp 0x9d
          ∷ read_le_double otp 0xa5
          ∷ [])

  -- The matrices of the focal lengths and the centre.
  abbrev pub matrices : D → D → D → D → String → List D → ℕ → ℕ → CameraCalibration D
  matrices fx fy cx cy model d width height = record {
    width = width;
    height = height;
    distortion_model = model;
    d = d;
    k = fx ∷ null ∷ cx ∷ null ∷ fy ∷ cy ∷ null ∷ null ∷ one ∷ [];
    r = one ∷ null ∷ null ∷ null ∷ one ∷ null ∷ null ∷ null ∷ one ∷ [];
    p = fx ∷ null ∷ cx ∷ null ∷ null ∷ fy ∷ cy ∷ null ∷ null ∷ null ∷ one ∷ null ∷ [];
  }

  abbrev pub read_calibration : List ℕ → CameraCalibration D
  read_calibration otp =
      matrices (read_le_double otp 0x65) (read_le_double otp 0x6d) (read_le_double otp 0x75)
        (read_le_double otp 0x7d) (if get_or otp 0x64 0 == 2 then "equidistant" else "plumb_bob")
        (distortion otp) (read_le_u16 otp 0x60) (read_le_u16 otp 0x62)

  -- The serial number and the calibration, or the text of the error.
  unfoldable pub decode_ox01f10_otp : List ℕ → Configured (List ℕ × CameraCalibration D)
  unfolding read_le_u16 read_le_u32 raw_double crc32_of all_bytes_are read_otp_serial_number
  decode_ox01f10_otp otp =
      let crc4 = crc32 otp 0x60 0x11c in
      let stored_crc4 = read_le_u32 otp 0x11c in
      let crc5 = crc32 otp 0x120 0x130 in
      let stored_crc5 = read_le_u32 otp 0x141 in
      let serial_number = read_otp_serial_number otp in
      if ltb (length otp) 0x145
      then refused "otp data is shorter than OX01F10 calibration block"
      else if all_bytes_are otp 0 || all_bytes_are otp 0xff
      then refused "otp data is blank"
      else if not (crc4 == stored_crc4)
      then refused (mismatch "otp crc32_4" crc4 stored_crc4)
      else if not (crc5 == stored_crc5)
      then refused (mismatch "otp crc32_5" crc5 stored_crc5)
      else if empty serial_number
      then refused "otp serial number is empty"
      else valid (serial_number, read_calibration otp)
