-- ===== src/Smit/Protocol/Stream.antt =====
-- A stream of whole frames is taken apart into them.
use device_manager.Common.{
  ℕ, ◌+◌, ◌/◌, ◌%◌, ◌^◌, ◌≤◌, List, [], ◌∷◌, ◌++◌, ◌≡◌, refl, ap, ◌∙◌, arith, length, length-append,
  drop, take-length_of, drop-length_of, All, bit_or_high,
}
use device_manager.Smit.Protocol.{
  FloatOps, Decoded, Cut, round, cut_frame, read_u16_be, feed, process_payload, sof1, sof2,
  header_length, max_frame_length, max_buffer_length,
}
use device_manager.Smit.Protocol.Frames.{round-found, cut_frame-whole, feed_loop-wait, run, run-cut}
use device_manager.Smit.Protocol.Chunks.{feed-run, fits}

-- A payload behind its header, which gives the length with the high byte first.
abbrev pub frame : List ℕ → List ℕ
frame p = sof1 ∷ sof2 ∷ (length p / 2 ^ 8) ∷ (length p % 2 ^ 8) ∷ p

abbrev pub stream : List (List ℕ) → List ℕ
stream [] = []
stream (p ∷ ps) = frame p ++ stream ps

-- The whole frame is not too long.
abbrev pub IsPayload : List ℕ → Type 0
IsPayload p = length p + header_length ≤ max_frame_length

read_length : (p rest : List ℕ) → read_u16_be (frame p ++ rest) 2 ≡ length p
unfolding read_u16_be
read_length p rest = bit_or_high 8 (length p / 2 ^ 8) (length p % 2 ^ 8) (omega arith) ∙ omega arith

module _ {F : Type 0} (float : FloatOps F) where
  abbrev pub contents : List (List ℕ) → List (Decoded F)
  contents [] = []
  contents (p ∷ ps) = process_payload float p ++ contents ps

  round-frame :
      (p rest : List ℕ)
      → IsPayload p
      → round float (frame p ++ rest) ≡ Cut.cut (process_payload float p) rest
  round-frame p rest h =
      let total = length p + header_length in
      let b = frame p ++ rest in
      let size = length-append (frame p) rest in
      let taken = take-length_of total (frame p) rest (omega arith) in
      round-found float sof1 sof2 (length p / 2 ^ 8) (length p % 2 ^ 8) (p ++ rest) refl
      ∙ ap (λ n. cut_frame float (n + header_length) b) (read_length p rest)
      ∙ cut_frame-whole float total b (ground arith) (ground (arith, size))
      ∙ ap (λ c. Cut.cut (process_payload float (drop header_length c)) (drop total b)) taken
      ∙ ap (Cut.cut (process_payload float p)) (drop-length_of total (frame p) rest (omega arith))

  run-stream : (ps : List (List ℕ)) → All IsPayload ps → run float (stream ps) ≡ (contents ps, [])
  unfolding round
  run-stream [] v = feed_loop-wait float 1 [] refl
  run-stream (p ∷ ps) v =
      run-cut float (stream (p ∷ ps)) (process_payload float p) (stream ps)
        (round-frame p (stream ps) v.0)
      ∙ ap (λ q. (process_payload float p ++ q.0, q.1)) (run-stream ps v.1)

  -- Frames of at most 2048 bytes, 10000 bytes of them at most, that arrive at an empty buffer in
  -- one call: every payload is processed, in order, nothing else is, and the buffer is empty again.
  pub feed-stream :
      (ps : List (List ℕ))
      → All IsPayload ps
      → length (stream ps) ≤ max_buffer_length
      → feed float [] (stream ps) ≡ (contents ps, [])
  feed-stream ps v h =
      feed-run float [] (stream ps) (fits float [] (stream ps) (omega arith)) ∙ run-stream ps v
