-- ===== src/Pager/Frame/Feeding.antt =====
-- How the decoder takes the escaped bytes of a frame.
use device_manager.Common.{
  ℕ, ◌+◌, ◌≤◌, true, false, List, [], ◌∷◌, ◌++◌, ◌≡◌, ◌∙◌, arith, length, length-append, append-nil,
  append_assoc, IsByte, IsBytes, bit_xor_twice, bit_xor-lt,
}
use device_manager.Pager.Frame.{
  SerialFrameDecoder, max_payload_size, feed, feed_byte, escaped, escape_all,
}

-- In a frame, with no escape pending.
abbrev pub reading : List ℕ → SerialFrameDecoder
reading bs = record { buffer = bs; in_frame = true; escape = false }

feed-escaped :
    (buffer : List ℕ) (b : ℕ) (rest : List ℕ)
    → IsByte b
    → length buffer + 1 ≤ max_payload_size + 5
    → feed (reading buffer) (escaped b ++ rest) ≡ feed (reading (buffer ++ b ∷ [])) rest
unfolding feed feed_byte escaped
feed-escaped buffer b rest h fits =
    ground (arith, bit_xor_twice b h, bit_xor-lt b h, length-append buffer (b ∷ []))

pub feed-escape_all :
    (bs buffer rest : List ℕ)
    → IsBytes bs
    → length buffer + length bs ≤ max_payload_size + 5
    → feed (reading buffer) (escape_all bs ++ rest) ≡ feed (reading (buffer ++ bs)) rest
unfolding escape_all
feed-escape_all [] buffer rest h fits = rw append-nil
feed-escape_all (b ∷ bs) buffer rest h fits = rw (append_assoc (escaped b) (escape_all bs) rest) (
    feed-escaped buffer b (escape_all bs ++ rest) h.0 (omega arith)
    ∙ feed-escape_all bs (buffer ++ b ∷ []) rest h.1 (omega (arith, length-append buffer (b ∷ [])))
    ∙ rw (append_assoc buffer (b ∷ []) bs))
