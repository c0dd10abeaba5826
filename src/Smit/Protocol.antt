-- ===== src/Smit/Protocol.antt =====
-- `SmitProtocol` of drivers/smit_ros_driver: the byte stream of the lidar cut into frames, and the
-- decoding of the frames. `float` is a parameter; what goes to the callbacks is a list.
pub mod Frames
pub mod Chunks
pub mod Stream
use device_manager.Common.{
  ℕ, zero, suc, ◌+◌, ◌-◌, ◌*◌, ◌/◌, ◌%◌, ◌^◌, Bool, true, false, not, ◌||◌, List, [], ◌∷◌, ◌++◌,
  Option, none, some, bit_and, bit_or, bit_xor, ◌==◌, ltb, leb, if◌then◌else◌, length, get_or, take,
  drop,
}

abbrev pub sof1 : ℕ
sof1 = 0xA5

abbrev pub sof2 : ℕ
sof2 = 0x5A

abbrev pub header_length : ℕ
header_length = 4

abbrev pub max_frame_length : ℕ
max_frame_length = 2048

abbrev pub max_buffer_length : ℕ
max_buffer_length = 10000

abbrev config_payload_min_length : ℕ
config_payload_min_length = 33

abbrev pub max_points : ℕ
max_points = 64

-- A byte of an array that the source indexes within its bounds.
abbrev pub at : List ℕ → ℕ → ℕ
at p i = get_or p i 0

unfoldable pub read_u16_be : List ℕ → ℕ → ℕ
read_u16_be p i = bit_or (at p i * 2 ^ 8) (at p (i + 1))

unfoldable pub read_u24_be : List ℕ → ℕ → ℕ
read_u24_be p i = bit_or (bit_or (at p i * 2 ^ 16) (at p (i + 1) * 2 ^ 8)) (at p (i + 2))

pub crc_bit : ℕ → ℕ
crc_bit crc =
    if not (bit_and crc 0x80 == 0) then bit_xor (crc * 2) 0x07 % 2 ^ 8 else crc * 2 % 2 ^ 8

pub crc_bits : ℕ → ℕ → ℕ
unfolding crc_bit
crc_bits zero crc = crc
crc_bits (suc n) crc = crc_bits n (crc_bit crc)

pub crc_loop : List ℕ → ℕ → ℕ
unfolding crc_bits
crc_loop [] crc = crc
crc_loop (b ∷ bs) crc = crc_loop bs (crc_bits 8 (bit_xor crc b))

unfoldable pub crc8 : List ℕ → ℕ
unfolding crc_loop
crc8 bs = crc_loop bs 0

pub record SmitConfigInfo (F : Type 0) : Type 0 where
  pub sn : List ℕ
  pub hw_ver : List ℕ
  pub fpga_ver : List ℕ
  pub mcu_ver : List ℕ
  pub motor_speed : ℕ
  pub lidar_freq : ℕ
  pub instant_speed : ℕ
  pub lidar_temp : ℕ
  pub lidar_volt : F
  pub lidar_state : ℕ

pub record SmitPoint (F : Type 0) : Type 0 where
  pub angle_deg : F
  pub distance_m : F
  pub intensity : F

-- `points` holds the first `point_count` entries of the array.
pub record SmitPointPacket (F : Type 0) : Type 0 where
  pub points : List (SmitPoint F)
  pub timestamp : ℕ
  pub crc_ok : Bool

-- What a callback is called with.
pub data Decoded (F : Type 0) : Type 0 where
  config_info : SmitConfigInfo F → Decoded F
  point_packet : SmitPointPacket F → Decoded F

-- A round of the loop in `feed`: the buffer is waiting for bytes, or something is cut off it.
pub data Cut (F : Type 0) : Type 0 where
  wait : Cut F
  cut : List (Decoded F) → List ℕ → Cut F

-- The machine's `float`: `from_int` is the conversion, and the constants are named by what they
-- are in the source. The comparisons with the delta's bounds are those of `double`.
pub record FloatOps (F : Type 0) : Type 0 where
  pub from_int : ℕ → F
  pub add : F → F → F
  pub sub : F → F → F
  pub mul : F → F → F
  pub div : F → F → F
  pub less : F → F → Bool
  pub hundredth : F
  pub ten_thousandth : F
  pub distance_scale : F
  pub below_delta_min : F → Bool
  pub above_delta_max : F → Bool

module _ {F : Type 0} (float : FloatOps F) where
  open float use {
    from_int, add, sub, mul, div, less, hundredth, ten_thousandth, distance_scale, below_delta_min,
    above_delta_max,
  }

  pub parse_config : List ℕ → List (Decoded F)
  unfolding read_u16_be
  parse_config p =
      if ltb (length p) config_payload_min_length
      then []
      else config_info (record {
        sn = take 14 (drop 1 p);
        hw_ver = take 3 (drop 15 p);
        fpga_ver = take 3 (drop 18 p);
        mcu_ver = take 3 (drop 21 p);
        motor_speed = if at p 25 == 3 then 20 else if at p 25 == 2 then 15 else 10;
        instant_speed = read_u16_be p 26;
        lidar_freq = if at p 28 == 0 then 10000 else if at p 28 == 1 then 20000 else 40000;
        lidar_temp = at p 29;
        lidar_volt = div (from_int (at p 30)) (from_int 10);
        lidar_state = at p 31;
      })
        ∷ []

  -- The point with the index `i`.
  abbrev point_at : List ℕ → F → F → ℕ → SmitPoint F
  point_at p start_angle delta_angle i =
      let angle = add start_angle (mul delta_angle (from_int i)) in
      record {
        intensity = from_int (at p (5 + i * 3));
        distance_m = mul (from_int (read_u16_be p (5 + i * 3 + 1))) distance_scale;
        angle_deg = if less (from_int 360) angle then sub angle (from_int 360) else angle;
      }

  -- The points from the index `i` on.
  pub points_from : List ℕ → F → F → ℕ → ℕ → List (SmitPoint F)
  unfolding read_u16_be
  points_from p start_angle delta_angle i zero = []
  points_from p start_angle delta_angle i (suc n) =
      point_at p start_angle delta_angle i ∷ points_from p start_angle delta_angle (i + 1) n

  pub parse_points : List ℕ → Bool → List (Decoded F)
  unfolding read_u16_be read_u24_be points_from
  parse_points p crc_ok =
      let count = (length p - 9) / 3 in
      let start_angle = mul (from_int (read_u16_be p 1)) hundredth in
      let delta_angle = mul (from_int (read_u16_be p 3)) ten_thousandth in
      if not crc_ok
      then point_packet (record { points = []; timestamp = 0; crc_ok = false }) ∷ []
      else if leb (length p) 9
      then []
      else if ltb max_points count
      then []
      else if below_delta_min delta_angle || above_delta_max delta_angle
      then []
      else point_packet (record {
        points = points_from p start_angle delta_angle 0 count;
        timestamp = read_u24_be p (length p - 4);
        crc_ok = true;
      })
        ∷ []

  -- `process_frame`, on the payload of the frame.
  pub process_payload : List ℕ → List (Decoded F)
  unfolding crc8 parse_points parse_config
  process_payload p =
      let n = length p in
      let crc_ok = crc8 (take (n - 1) p) == at p (n - 1) in
      if ltb n 2
      then []
      else if at p 0 == 0x01
      then parse_points p crc_ok
      else if at p 0 == 0x02
      then (if crc_ok then parse_config p else [])
      else []

  -- The part of a round behind the start bytes, by the length of the whole frame.
  unfoldable pub cut_frame : ℕ → List ℕ → Cut F
  unfolding process_payload
  cut_frame total buffer =
      if ltb max_frame_length total
      then Cut.cut [] (drop 2 buffer)
      else if ltb (length buffer) total
      then Cut.wait
      else Cut.cut (process_payload (drop header_length (take total buffer))) (drop total buffer)

  unfoldable pub round : List ℕ → Cut F
  unfolding cut_frame read_u16_be
  round buffer =
      if ltb (length buffer) header_length
      then Cut.wait
      else if not (at buffer 0 == sof1) || not (at buffer 1 == sof2)
      then Cut.cut [] (drop 1 buffer)
      else cut_frame (read_u16_be buffer 2 + header_length) buffer

  -- The loop, on fuel: every round but the last shortens the buffer.
  unfoldable pub feed_loop : ℕ → List ℕ → List (Decoded F) × List ℕ
  unfolding round
  feed_loop zero buffer = ([], buffer)
  feed_loop (suc fuel) buffer = elim (round buffer) [
    | wait ↦ ([], buffer)
    | cut ds rest ↦ let (es, b) = feed_loop fuel rest in (ds ++ es, b)
  ]

  -- The buffer and the data become what the callbacks get and the buffer after it.
  unfoldable pub feed : List ℕ → List ℕ → List (Decoded F) × List ℕ
  unfolding feed_loop
  feed buffer bs =
      let b = buffer ++ bs in
      if ltb max_buffer_length (length b) then ([], []) else feed_loop (length b + 1) b
