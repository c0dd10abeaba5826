-- ===== src/Smit/Protocol/Chunks.antt =====
-- The loop of `feed` comes to an end, and how the bytes are cut into calls makes no difference.
use device_manager.Common.{
  ℕ, zero, suc, ◌+◌, ◌≤◌, ◌<◌, true, false, List, [], ◌++◌, ◌≡◌, ap, sym, ◌∙◌, arith, length,
  length-append, append_assoc, ltb, inl, inr, Bool-cases,
}
use device_manager.Smit.Protocol.{FloatOps, Cut, round, feed, max_frame_length, max_buffer_length}
use device_manager.Smit.Protocol.Frames.{
  cases, round-shortens, round-waits, feed_loop-wait, feed_loop-ends, run, run-cut, round-append,
}

module _ {F : Type 0} (float : FloatOps F) where
  run-append :
      (n : ℕ) (b ys : List ℕ)
      → length b < n
      → let (ds, c) = run float b in
        let (es, c') = run float (c ++ ys) in run float (b ++ ys) ≡ (ds ++ es, c')
  run-append zero b ys h = absurd (omega arith)
  run-append (suc n) b ys h = elim (cases float b) [
    | inl e ↦
        ap (λ p. (p.0 ++ (run float (p.1 ++ ys)).0, (run float (p.1 ++ ys)).1))
          (sym (feed_loop-wait float (length b + 1) b e))
    | inr (ds, rest, e) ↦
        run-cut float (b ++ ys) ds (rest ++ ys) (round-append float b ys ds rest e)
        ∙ ap (λ p. (ds ++ p.0, p.1))
            (run-append n rest ys (omega (arith, round-shortens float b ds rest e)))
        ∙ ap (λ es. (es, (run float ((run float rest).1 ++ ys)).1))
            (sym (append_assoc ds (run float rest).0 (run float ((run float rest).1 ++ ys)).0))
        ∙ ap (λ p. (p.0 ++ (run float (p.1 ++ ys)).0, (run float (p.1 ++ ys)).1))
            (sym (run-cut float b ds rest e))
  ]

  run-ends : (b : List ℕ) → round float (run float b).1 ≡ Cut.wait
  run-ends b = feed_loop-ends float (length b + 1) b (omega arith)

  pub feed-run :
      (buffer bs : List ℕ)
      → ltb max_buffer_length (length (buffer ++ bs)) ≡ false
      → feed float buffer bs ≡ run float (buffer ++ bs)
  unfolding feed
  feed-run buffer bs e = rw e

  feed-cleared :
      (buffer bs : List ℕ)
      → ltb max_buffer_length (length (buffer ++ bs)) ≡ true
      → feed float buffer bs ≡ ([], [])
  unfolding feed
  feed-cleared buffer bs e = rw e

  feed-waits : (buffer bs : List ℕ) → round float (feed float buffer bs).1 ≡ Cut.wait
  unfolding round
  feed-waits buffer bs = elim (Bool-cases (ltb max_buffer_length (length (buffer ++ bs)))) [
    | inl e ↦ ap (λ p. round float p.1) (feed-cleared buffer bs e)
    | inr e ↦ ap (λ p. round float p.1) (feed-run buffer bs e) ∙ run-ends (buffer ++ bs)
  ]

  -- The fuel of `feed` is enough for any buffer and any bytes: the loop stops because a round has
  -- nothing to cut off the buffer, and the buffer is then shorter than the longest frame.
  pub feed-settles :
      (buffer bs : List ℕ)
      → let rest = (feed float buffer bs).1 in
        (round float rest ≡ Cut.wait) × (length rest < max_frame_length)
  feed-settles buffer bs = (feed-waits buffer bs, round-waits float _ (feed-waits buffer bs))

  run-shorter : (n : ℕ) (b : List ℕ) → length b < n → length (run float b).1 ≤ length b
  run-shorter zero b h = absurd (omega arith)
  run-shorter (suc n) b h = elim (cases float b) [
    | inl e ↦ omega (arith, ap (λ p. length p.1) (feed_loop-wait float (length b + 1) b e))
    | inr (ds, rest, e) ↦ omega (
      arith,
      ap (λ p. length p.1) (run-cut float b ds rest e),
      round-shortens float b ds rest e,
      run-shorter n rest (omega (arith, round-shortens float b ds rest e)),
    )
  ]

  pub fits :
      (b bs : List ℕ)
      → length b + length bs ≤ max_buffer_length
      → ltb max_buffer_length (length (b ++ bs)) ≡ false
  fits b bs h = ground (arith, length-append b bs)

  -- As long as the overload protection does not strike, bytes that arrive in two calls give the
  -- callbacks the same as in one call, and leave the same buffer.
  pub feed-append :
      (buffer xs ys : List ℕ)
      → length buffer + length (xs ++ ys) ≤ max_buffer_length
      → let (ds, b) = feed float buffer xs in
        let (es, b') = feed float b ys in feed float buffer (xs ++ ys) ≡ (ds ++ es, b')
  feed-append buffer xs ys h =
      let b = buffer ++ xs in
      let c = (run float b).1 in
      let joined = length-append xs ys in
      let begun = length-append buffer xs in
      let whole = fits buffer (xs ++ ys) h in
      let first = fits buffer xs (omega (arith, joined)) in
      let second =
        fits c ys (omega (arith, joined, begun, run-shorter (length b + 1) b (omega arith))) in
      feed-run buffer (xs ++ ys) whole
      ∙ ap (run float) (sym (append_assoc buffer xs ys))
      ∙ run-append (length b + 1) b ys (omega arith)
      ∙ ap (λ p. ((run float b).0 ++ p.0, p.1)) (sym (feed-run c ys second))
      ∙ ap (λ p. (p.0 ++ (feed float p.1 ys).0, (feed float p.1 ys).1))
          (sym (feed-run buffer xs first))
