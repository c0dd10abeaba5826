-- ===== src/Imu/Decoder.antt =====
-- `HipnucDecoder` of drivers/ch020_imu_driver/src/hipnuc_decoder.cpp and its header. `float` is a
-- parameter with the operations that the decoder calls; the callback's packets are a list.
pub mod Frames
use device_manager.Common.{
  ℕ, ◌+◌, ◌*◌, ◌/◌, ◌%◌, ◌^◌, Bool, true, false, not, ◌||◌, List, [], ◌∷◌, ◌++◌, Option, none, some,
  bit_and, bit_or, ◌==◌, ltb, if◌then◌else◌, length, get_or,
}
use device_manager.Imu.Crc.{crc16_update}

abbrev pub sof1 : ℕ
sof1 = 0x5A

abbrev pub sof2 : ℕ
sof2 = 0xA5

abbrev pub tag_imu_sol : ℕ
tag_imu_sol = 0x91

abbrev pub imu_sol_len : ℕ
imu_sol_len = 76

-- The machine's `float`: `of_bits` is `memcpy` from four bytes in the order of the machine, and
-- `of_int8` is the conversion of the `int8_t` with the given bit pattern.
pub record FloatOps (F : Type 0) : Type 0 where
  pub of_bits : ℕ → F
  pub of_int8 : ℕ → F
  pub mul : F → F → F
  pub standard_gravity : F
  pub deg_to_rad : F

pub record ImuSolPacket (F : Type 0) : Type 0 where
  pub device_id : ℕ
  pub temperature : F
  pub pressure : F
  pub timestamp_ms : ℕ
  pub acc_x : F
  pub acc_y : F
  pub acc_z : F
  pub gyro_x : F
  pub gyro_y : F
  pub gyro_z : F
  pub mag_x : F
  pub mag_y : F
  pub mag_z : F
  pub roll : F
  pub pitch : F
  pub yaw : F
  pub quat_w : F
  pub quat_x : F
  pub quat_y : F
  pub quat_z : F

pub data State : Type 0 where
  at_sof1 at_sof2 at_len1 at_len2 at_crc1 at_crc2 at_data : State

pub record HipnucDecoder : Type 0 where
  pub state : State
  pub payload_len : ℕ
  pub crc_lo : ℕ
  pub crc_rx : ℕ
  pub buf : List ℕ

abbrev pub initial : HipnucDecoder
initial = record { state = State.at_sof1; payload_len = 0; crc_lo = 0; crc_rx = 0; buf = [] }

-- `memcpy` of a `uint32_t` on a little-endian machine.
abbrev pub read_u32 : List ℕ → ℕ → ℕ
read_u32 p i =
    get_or p i 0
    + get_or p (i + 1) 0 * 2 ^ 8
    + get_or p (i + 2) 0 * 2 ^ 16
    + get_or p (i + 3) 0 * 2 ^ 24

unfoldable pub expected_crc : ℕ → List ℕ → ℕ
unfolding crc16_update
expected_crc payload_len buf =
    crc16_update
      (crc16_update 0
        (sof1 ∷ sof2 ∷ bit_and payload_len 0xFF ∷ bit_and (payload_len / 2 ^ 8) 0xFF ∷ []))
      buf

module _ {F : Type 0} (float : FloatOps F) where
  open float use {of_bits, of_int8, mul, standard_gravity, deg_to_rad}

  -- The packet of a payload that passed the checks.
  pub packet_of : List ℕ → ImuSolPacket F
  packet_of p = record {
    device_id = get_or p 1 0;
    temperature = of_int8 (get_or p 3 0);
    pressure = of_bits (read_u32 p 4);
    timestamp_ms = read_u32 p 8;
    acc_x = mul (of_bits (read_u32 p 12)) standard_gravity;
    acc_y = mul (of_bits (read_u32 p 16)) standard_gravity;
    acc_z = mul (of_bits (read_u32 p 20)) standard_gravity;
    gyro_x = mul (of_bits (read_u32 p 24)) deg_to_rad;
    gyro_y = mul (of_bits (read_u32 p 28)) deg_to_rad;
    gyro_z = mul (of_bits (read_u32 p 32)) deg_to_rad;
    mag_x = of_bits (read_u32 p 36);
    mag_y = of_bits (read_u32 p 40);
    mag_z = of_bits (read_u32 p 44);
    roll = of_bits (read_u32 p 48);
    pitch = of_bits (read_u32 p 52);
    yaw = of_bits (read_u32 p 56);
    quat_w = of_bits (read_u32 p 60);
    quat_x = of_bits (read_u32 p 64);
    quat_y = of_bits (read_u32 p 68);
    quat_z = of_bits (read_u32 p 72);
  }

  -- The checks behind the checksum's.
  pub accept_payload : List ℕ → Option (ImuSolPacket F)
  accept_payload p =
      if ltb (length p) imu_sol_len || not (get_or p 0 0 == tag_imu_sol)
      then none
      else some (packet_of p)

  -- The state and the buffers are reset on every path.
  unfoldable pub process_frame : HipnucDecoder → Option (ImuSolPacket F) × HipnucDecoder
  unfolding expected_crc
  process_frame d = (
    if not (expected_crc d.payload_len d.buf == d.crc_rx) then none else accept_payload d.buf,
    record d { buf = []; state = State.at_sof1; payload_len = 0 },
  )

  -- The body of the loop in `feed`, by the state.
  unfoldable pub feed_state : State → HipnucDecoder → ℕ → Option (ImuSolPacket F) × HipnucDecoder
  unfolding process_frame
  feed_state State.at_sof1 d b = (none, if b == sof1 then record d { state = State.at_sof2 } else d)
  feed_state State.at_sof2 d b =
      (none, record d { state = if b == sof2 then State.at_len1 else State.at_sof1 })
  feed_state State.at_len1 d b = (none, record d { payload_len = b; state = State.at_len2 })
  feed_state State.at_len2 d b = (
    none,
    record d {
      payload_len = bit_or d.payload_len (b * 2 ^ 8) % 2 ^ 16;
      buf = [];
      state = State.at_crc1;
    },
  )
  feed_state State.at_crc1 d b = (none, record d { crc_lo = b; state = State.at_crc2 })
  feed_state State.at_crc2 d b =
      let d' = record d { crc_rx = bit_or d.crc_lo (b * 2 ^ 8) % 2 ^ 16 } in
      if d.payload_len == 0 then process_frame d' else (none, record d' { state = State.at_data })
  feed_state State.at_data d b =
      let d' = record d { buf = d.buf ++ b ∷ [] } in
      if length d'.buf == d.payload_len then process_frame d' else (none, d')

  abbrev pub push_some : Option (ImuSolPacket F) → List (ImuSolPacket F) → List (ImuSolPacket F)
  push_some none ps = ps
  push_some (some p) ps = p ∷ ps

  -- The packets that `feed` hands to the callback, and the decoder after it.
  unfoldable pub feed : HipnucDecoder → List ℕ → List (ImuSolPacket F) × HipnucDecoder
  unfolding feed_state
  feed d [] = ([], d)
  feed d (b ∷ bs) =
      let (p, d') = feed_state d.state d b in let (ps, d'') = feed d' bs in (push_some p ps, d'')
