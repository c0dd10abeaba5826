-- ===== src/Pager/Frame.antt =====
-- The framing of the pager's serial link: drivers/pager100_lora_bridge/src/serial_frame.cpp and
-- its header. A byte is a number below 256.
pub mod Feeding
pub mod RoundTrip
pub mod Bound
use device_manager.Common.{
  ℕ, suc, ◌+◌, ◌*◌, ◌/◌, ◌%◌, ◌^◌, Bool, true, false, not, ◌&&◌, ◌||◌, List, [], ◌∷◌, ◌++◌, Option,
  none, some, bit_and, bit_or, bit_xor, ◌==◌, ltb, if◌then◌else◌, length, empty, get_or, take, drop,
}
use device_manager.Pager.Crc.{crc16}

abbrev pub frame_sof : ℕ
frame_sof = 0x7E

abbrev pub frame_esc : ℕ
frame_esc = 0x7D

abbrev pub frame_xor : ℕ
frame_xor = 0x20

abbrev pub max_payload_size : ℕ
max_payload_size = 64

pub record SerialFrame : Type 0 where
  pub frame_type : ℕ
  pub sequence : ℕ
  pub payload : List ℕ

-- What `append_escaped` appends.
unfoldable pub escaped : ℕ → List ℕ
escaped value =
    if value == frame_sof || value == frame_esc
    then frame_esc ∷ (bit_xor value frame_xor % 2 ^ 8) ∷ []
    else value ∷ []

unfoldable pub escape_all : List ℕ → List ℕ
unfolding escaped
escape_all [] = []
escape_all (b ∷ bs) = escaped b ++ escape_all bs

-- The bytes between the delimiters before they are escaped, without the checksum.
abbrev pub head_of : List ℕ → ℕ → ℕ → List ℕ
head_of payload sequence frame_type = frame_type ∷ sequence ∷ (length payload % 2 ^ 8) ∷ payload

-- The checksum, its low byte first.
abbrev pub check_of : ℕ → List ℕ
check_of crc = (bit_and crc 0xFF % 2 ^ 8) ∷ (bit_and (crc / 2 ^ 8) 0xFF % 2 ^ 8) ∷ []

abbrev pub body_of : List ℕ → ℕ → ℕ → List ℕ
body_of payload sequence frame_type =
    let head = head_of payload sequence frame_type in head ++ check_of (crc16 head)

-- `none` is the `std::invalid_argument` on a payload that is too large.
unfoldable pub encode_frame : List ℕ → ℕ → ℕ → Option (List ℕ)
unfolding escape_all
encode_frame payload sequence frame_type =
    if ltb max_payload_size (length payload)
    then none
    else some (frame_sof ∷ (escape_all (body_of payload sequence frame_type) ++ frame_sof ∷ []))

pub record SerialFrameDecoder : Type 0 where
  pub buffer : List ℕ
  pub in_frame : Bool
  pub escape : Bool

abbrev pub initial : SerialFrameDecoder
initial = record { buffer = []; in_frame = false; escape = false }

unfoldable pub finish_frame : List ℕ → Option SerialFrame
finish_frame buffer =
    let len = get_or buffer 2 0 in
    let received =
      bit_or (get_or buffer (3 + len) 0) (get_or buffer (4 + len) 0 * 2 ^ 8) % 2 ^ 16 in
    if ltb (length buffer) 5
    then none
    else if not (length buffer == 3 + len + 2) || ltb max_payload_size len
    then none
    else if not (crc16 (take (3 + len) buffer) == received)
    then none
    else some (record {
      frame_type = get_or buffer 0 0;
      sequence = get_or buffer 1 0;
      payload = take len (drop 3 buffer);
    })

unfoldable pub feed_byte : SerialFrameDecoder → ℕ → Option SerialFrame × SerialFrameDecoder
unfolding finish_frame
feed_byte d value =
    if value == frame_sof
    then (
      if d.in_frame && not (empty d.buffer) then finish_frame d.buffer else none,
      record { buffer = []; in_frame = true; escape = false },
    )
    else if not d.in_frame
    then (none, d)
    else if d.escape
    then (
      none,
      record d { buffer = d.buffer ++ (bit_xor value frame_xor % 2 ^ 8) ∷ []; escape = false },
    )
    else if value == frame_esc
    then (none, record d { escape = true })
    else if ltb (max_payload_size + 5) (length (d.buffer ++ value ∷ []))
    then (none, record { buffer = []; in_frame = false; escape = false })
    else (none, record d { buffer = d.buffer ++ value ∷ [] })

abbrev pub push_some : Option SerialFrame → List SerialFrame → List SerialFrame
push_some none fs = fs
push_some (some f) fs = f ∷ fs

-- The frames that `feed` returns, and the decoder after it.
unfoldable pub feed : SerialFrameDecoder → List ℕ → List SerialFrame × SerialFrameDecoder
unfolding feed_byte
feed d [] = ([], d)
feed d (b ∷ bs) = let (f, d') = feed_byte d b in let (fs, d'') = feed d' bs in (push_some f fs, d'')
