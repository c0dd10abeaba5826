-- ===== src/Pager/Frame/Bound.antt =====
-- How long the decoder's buffer can grow.
use device_manager.Common.{
  ℕ, zero, suc, ◌+◌, ◌≤◌, ◌≢◌, false, List, [], ◌∷◌, ◌++◌, ◌≡◌, arith, length, bit_xor, ◌%◌, ◌^◌,
  length-append,
}
use device_manager.Pager.Frame.{
  SerialFrameDecoder, frame_sof, frame_esc, frame_xor, max_payload_size, feed, feed_byte,
}
use device_manager.Pager.Frame.Feeding.{reading}

-- `n` escape sequences for the byte `x`.
abbrev pub escapes : ℕ → ℕ → List ℕ
escapes zero x = []
escapes (suc n) x = frame_esc ∷ x ∷ escapes n x

-- The limit on the buffer is not applied to an escaped byte: in a frame, `n` escape sequences of
-- any byte but the delimiter make the buffer longer by `n`, for every `n`.
pub feed-escapes :
    (n x : ℕ) (buffer : List ℕ)
    → x ≢ frame_sof
    → length (feed (reading buffer) (escapes n x)).1.buffer ≡ length buffer + n
unfolding feed feed_byte
feed-escapes zero x buffer h = omega arith
feed-escapes (suc n) x buffer h =
    let flipped : List ℕ = (bit_xor x frame_xor % 2 ^ 8) ∷ [] in
    ground (arith, feed-escapes n x (buffer ++ flipped) h, length-append buffer flipped)

-- Without an escape pending, a byte leaves the buffer no longer than 69 bytes, if it was not longer
-- before.
feed_byte-length :
    (d : SerialFrameDecoder) (value : ℕ)
    → d.escape ≡ false
    → length d.buffer ≤ max_payload_size + 5
    → length (feed_byte d value).1.buffer ≤ max_payload_size + 5
unfolding feed_byte
feed_byte-length d value plain fits = ground arith
