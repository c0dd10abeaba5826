-- ===== src/Pager/Frame/RoundTrip.antt =====
-- A frame that was encoded is decoded again, whatever the decoder had read before.
use device_manager.Common.{
  ℕ, ◌+◌, ◌*◌, ◌/◌, ◌%◌, ◌^◌, ◌≤◌, ◌<◌, List, [], ◌∷◌, ◌++◌, some, ◌≡◌, refl, ◌∙◌, arith, length,
  length-append, append_assoc, IsByte, IsBytes, All-append, All, bit_and-byte, bit_or_low,
  get_or-at, take-length_of,
}
use device_manager.Pager.Crc.{crc16, crc16-lt}
use device_manager.Pager.Frame.{
  SerialFrameDecoder, SerialFrame, frame_sof, max_payload_size, feed, feed_byte, escape_all,
  encode_frame, finish_frame, head_of, check_of, body_of, push_some,
}
use device_manager.Pager.Frame.Feeding.{reading, feed-escape_all}

finish_frame-body :
    (t s n lo hi : ℕ) (payload : List ℕ)
    → n ≡ length payload
    → n ≤ max_payload_size
    → lo < 2 ^ 8
    → hi < 2 ^ 8
    → crc16 (t ∷ s ∷ n ∷ payload) ≡ lo + hi * 2 ^ 8
    → finish_frame (t ∷ s ∷ n ∷ (payload ++ lo ∷ hi ∷ []))
      ≡ some (record { frame_type = t; sequence = s; payload = payload })
unfolding finish_frame
finish_frame-body t s n lo hi payload e fits l h crc =
    let rest : List ℕ = lo ∷ hi ∷ [] in
    let head : List ℕ = t ∷ s ∷ n ∷ payload in
    ground (
      arith,
      get_or-at (3 + n) head 0 rest 0 (omega arith),
      get_or-at (4 + n) head 1 rest 0 (omega arith),
      take-length_of (3 + n) head rest (omega arith),
      take-length_of n payload rest e,
      length-append payload rest,
      bit_or_low 8 lo hi l,
    )

pub record Message : Type 0 where
  pub payload : List ℕ
  pub sequence : ℕ
  pub frame_type : ℕ

abbrev pub frame_of : Message → SerialFrame
frame_of m = record { frame_type = m.frame_type; sequence = m.sequence; payload = m.payload }

-- The bytes are bytes, and the payload is within the limit.
pub record IsMessage (m : Message) : Type 0 where
  pub payload_bytes : IsBytes m.payload
  pub payload_fits : length m.payload ≤ max_payload_size
  pub sequence_byte : IsByte m.sequence
  pub type_byte : IsByte m.frame_type

abbrev body : Message → List ℕ
body m = body_of m.payload m.sequence m.frame_type

finish_frame-body_of : (m : Message) → IsMessage m → finish_frame (body m) ≡ some (frame_of m)
finish_frame-body_of m v =
    let c = crc16 (head_of m.payload m.sequence m.frame_type) in
    finish_frame-body m.frame_type m.sequence (length m.payload % 2 ^ 8) _ _ m.payload
      (omega (arith, v.payload_fits)) (omega (arith, v.payload_fits)) (omega arith) (omega arith)
      (omega (
        arith,
        bit_and-byte c,
        bit_and-byte (c / 2 ^ 8),
        crc16-lt (head_of m.payload m.sequence m.frame_type),
      ))

body-IsBytes : (m : Message) → IsMessage m → IsBytes (body m)
body-IsBytes m v = (
  v.type_byte,
  (
    v.sequence_byte,
    (omega arith, All-append IsByte m.payload _ v.payload_bytes (omega arith, (omega arith, tt))),
  ),
)

length-body : (m : Message) → length (body m) ≡ length m.payload + 5
length-body m =
    omega (
      arith,
      length-append m.payload (check_of (crc16 (head_of m.payload m.sequence m.frame_type))),
    )

-- The bytes on the line.
abbrev pub wire : Message → List ℕ
wire m = frame_sof ∷ (escape_all (body m) ++ frame_sof ∷ [])

pub encode_frame-wire :
    (m : Message) → IsMessage m → encode_frame m.payload m.sequence m.frame_type ≡ some (wire m)
unfolding encode_frame
encode_frame-wire m v = ground (arith, v.payload_fits)

feed-body :
    (m : Message) (rest : List ℕ)
    → IsMessage m
    → let (fs, d) = feed (reading []) rest in
      feed (reading []) (escape_all (body m) ++ (frame_sof ∷ rest)) ≡ (frame_of m ∷ fs, d)
unfolding feed feed_byte
feed-body m rest v =
    feed-escape_all (body m) [] (frame_sof ∷ rest) (body-IsBytes m v)
      (omega (arith, length-body m, v.payload_fits))
    ∙ rw (finish_frame-body_of m v)

feed-wire :
    (m : Message) (d : SerialFrameDecoder) (rest : List ℕ)
    → IsMessage m
    → let (fs, d') = feed (reading []) rest in
      feed d (wire m ++ rest) ≡ (push_some (feed_byte d frame_sof).0 (frame_of m ∷ fs), d')
unfolding feed feed_byte
feed-wire m d rest v =
    rw (append_assoc (escape_all (body m)) (frame_sof ∷ []) rest, feed-body m rest v)

-- A valid message is encoded, and its bytes are decoded to exactly that frame after whatever the
-- decoder makes of the bytes before them: the opening delimiter ends any frame that was begun.
-- The decoder is then ready for the bytes that follow.
feed-encode_frame :
    (m : Message) (d : SerialFrameDecoder) (rest : List ℕ)
    → IsMessage m
    → (bytes : List ℕ) × (encode_frame m.payload m.sequence m.frame_type ≡ some bytes)
      × (let (fs, d') = feed (reading []) rest in
          feed d (bytes ++ rest) ≡ (push_some (feed_byte d frame_sof).0 (frame_of m ∷ fs), d'))
feed-encode_frame m d rest v = (wire m, encode_frame-wire m v, feed-wire m d rest v)

-- The bytes of several messages, one after the other.
abbrev pub wires : List Message → List ℕ
wires [] = []
wires (m ∷ ms) = wire m ++ wires ms

abbrev pub frames_of : List Message → List SerialFrame
frames_of [] = []
frames_of (m ∷ ms) = frame_of m ∷ frames_of ms

-- Every message of a stream that starts at a frame border is decoded, in order, and nothing else.
pub feed-wires :
    (ms : List Message)
    → All IsMessage ms
    → feed (reading []) (wires ms) ≡ (frames_of ms, reading [])
unfolding feed
feed-wires [] v = refl
feed-wires (m ∷ ms) v = feed-wire m (reading []) (wires ms) v.0 ∙ rw (feed-wires ms v.1)
