-- ===== src/Smit/Protocol/Frames.antt =====
-- What the rounds of `feed` do, and the loop on them.
use device_manager.Common.{
  ℕ, zero, suc, ◌+◌, ◌≤◌, ◌<◌, true, false, List, [], ◌∷◌, ◌++◌, ◌≡◌, refl, ap, sym, ◌∙◌, arith,
  length, length-drop, length-append, drop, take, not, ◌||◌, ◌==◌, Bool-cases, ltb, take-low,
  drop-low, inl, inr, ◌⊎◌,
}
use device_manager.Smit.Protocol.{
  FloatOps, Decoded, Cut, round, read_u16_be, cut_frame, feed_loop, process_payload, sof1, sof2,
  header_length, max_frame_length,
}

module _ {F : Type 0} (float : FloatOps F) where
  pub round-shortens :
      (b : List ℕ) (ds : List (Decoded F)) (rest : List ℕ)
      → round float b ≡ Cut.cut ds rest
      → length rest < length b
  unfolding round cut_frame
  round-shortens b ds rest e =
      ground
        (arith, length-drop 1 b, length-drop 2 b, length-drop (read_u16_be b 2 + header_length) b)

  -- What still waits is short: at most an unfinished frame.
  pub round-waits : (b : List ℕ) → round float b ≡ Cut.wait → length b < max_frame_length
  unfolding round cut_frame
  round-waits b e = ground arith

  pub cases :
      (b : List ℕ)
      → (round float b ≡ Cut.wait)
        ⊎ ((ds : List (Decoded F)) × (rest : List ℕ) × (round float b ≡ Cut.cut ds rest))
  cases b = go (round float b)
    where
      go :
          (c : Cut F)
          → (c ≡ Cut.wait) ⊎ ((ds : List (Decoded F)) × (rest : List ℕ) × (c ≡ Cut.cut ds rest))
      go Cut.wait = inl refl
      go (Cut.cut ds rest) = inr (ds, rest, refl)

  pub feed_loop-wait :
      (n : ℕ) (b : List ℕ) → round float b ≡ Cut.wait → feed_loop float n b ≡ ([], b)
  unfolding feed_loop
  feed_loop-wait zero b e = refl
  feed_loop-wait (suc n) b e = rw (e, feed_loop)

  feed_loop-cut :
      (n : ℕ) (b : List ℕ) (ds : List (Decoded F)) (rest : List ℕ)
      → round float b ≡ Cut.cut ds rest
      → feed_loop float (suc n) b ≡ (ds ++ (feed_loop float n rest).0, (feed_loop float n rest).1)
  unfolding feed_loop
  feed_loop-cut n b ds rest e = rw (e, feed_loop)

  -- With more fuel than bytes, the loop ends because its last round waits.
  pub feed_loop-ends :
      (n : ℕ) (b : List ℕ) → length b < n → round float (feed_loop float n b).1 ≡ Cut.wait
  feed_loop-ends zero b h = absurd (omega arith)
  feed_loop-ends (suc n) b h = elim (cases b) [
    | inl e ↦ ap (λ p. round float p.1) (feed_loop-wait (suc n) b e) ∙ e
    | inr (ds, rest, e) ↦
        ap (λ p. round float p.1) (feed_loop-cut n b ds rest e)
        ∙ feed_loop-ends n rest (omega (arith, round-shortens b ds rest e))
  ]

  feed_loop-fuel :
      (n m : ℕ) (b : List ℕ)
      → length b < n
      → length b < m
      → feed_loop float n b ≡ feed_loop float m b
  feed_loop-fuel zero m b h k = absurd (omega arith)
  feed_loop-fuel (suc n) zero b h k = absurd (omega arith)
  feed_loop-fuel (suc n) (suc m) b h k = elim (cases b) [
    | inl e ↦ feed_loop-wait (suc n) b e ∙ sym (feed_loop-wait (suc m) b e)
    | inr (ds, rest, e) ↦
        let shorter = round-shortens b ds rest e in
        feed_loop-cut n b ds rest e
        ∙ ap (λ p. (ds ++ p.0, p.1)) (feed_loop-fuel n m rest (omega arith) (omega arith))
        ∙ sym (feed_loop-cut m b ds rest e)
  ]

  -- The loop of `feed`, with its fuel.
  abbrev pub run : List ℕ → List (Decoded F) × List ℕ
  run b = feed_loop float (length b + 1) b

  pub run-cut :
      (b : List ℕ) (ds : List (Decoded F)) (rest : List ℕ)
      → round float b ≡ Cut.cut ds rest
      → run b ≡ (ds ++ (run rest).0, (run rest).1)
  run-cut b ds rest e =
      feed_loop-fuel (length b + 1) (suc (length b)) b (omega arith) (omega arith)
      ∙ feed_loop-cut (length b) b ds rest e
      ∙ ap (λ p. (ds ++ p.0, p.1))
          (feed_loop-fuel (length b) (length rest + 1) rest (round-shortens b ds rest e)
            (omega arith))

  read_length-append :
      (x0 x1 x2 x3 : ℕ) (t ys : List ℕ)
      → read_u16_be (x0 ∷ x1 ∷ x2 ∷ x3 ∷ (t ++ ys)) 2 ≡ read_u16_be (x0 ∷ x1 ∷ x2 ∷ x3 ∷ t) 2
  unfolding read_u16_be
  read_length-append x0 x1 x2 x3 t ys = refl

  -- The three ends of a round behind the start bytes.
  cut_frame-long :
      (total : ℕ) (b : List ℕ)
      → ltb max_frame_length total ≡ true
      → cut_frame float total b ≡ Cut.cut [] (drop 2 b)
  unfolding cut_frame
  cut_frame-long total b l = rw l

  cut_frame-short :
      (total : ℕ) (b : List ℕ)
      → ltb max_frame_length total ≡ false
      → ltb (length b) total ≡ true
      → cut_frame float total b ≡ Cut.wait
  unfolding cut_frame
  cut_frame-short total b l s = rw (l, s)

  pub cut_frame-whole :
      (total : ℕ) (b : List ℕ)
      → ltb max_frame_length total ≡ false
      → ltb (length b) total ≡ false
      → cut_frame float total b
        ≡ Cut.cut (process_payload float (drop header_length (take total b))) (drop total b)
  unfolding cut_frame
  cut_frame-whole total b l s = rw (l, s)

  abbrev extend : List ℕ → Cut F → Cut F
  extend ys Cut.wait = Cut.wait
  extend ys (Cut.cut ds rest) = Cut.cut ds (rest ++ ys)

  whole-append :
      (total : ℕ) (b ys : List ℕ)
      → ltb max_frame_length total ≡ false
      → ltb (length b) total ≡ false
      → cut_frame float total (b ++ ys) ≡ extend ys (cut_frame float total b)
  whole-append total b ys l s =
      let fits : total ≤ length b = ground arith in
      cut_frame-whole total (b ++ ys) l (ground (arith, length-append b ys))
      ∙ ap (λ c. Cut.cut (process_payload float (drop header_length c)) (drop total (b ++ ys)))
          (take-low total b ys fits)
      ∙ ap (Cut.cut (process_payload float (drop header_length (take total b))))
          (drop-low total b ys fits)
      ∙ ap (extend ys) (sym (cut_frame-whole total b l s))

  cut_frame-append :
      (total : ℕ) (b ys : List ℕ) (ds : List (Decoded F)) (rest : List ℕ)
      → 2 ≤ length b
      → cut_frame float total b ≡ Cut.cut ds rest
      → cut_frame float total (b ++ ys) ≡ Cut.cut ds (rest ++ ys)
  cut_frame-append total b ys ds rest h e = elim (Bool-cases (ltb max_frame_length total)) [
    | inl l ↦
        cut_frame-long total (b ++ ys) l
        ∙ ap (Cut.cut []) (drop-low 2 b ys h)
        ∙ ap (extend ys) (sym (cut_frame-long total b l) ∙ e)
    | inr l ↦ elim (Bool-cases (ltb (length b) total)) [
      | inl s ↦ absurd (let p = sym (cut_frame-short total b l s) ∙ e in cc)
      | inr s ↦ whole-append total b ys l s ∙ ap (extend ys) e
    ]
  ]

  -- The two ends of a round with a whole header.
  round-lost :
      (x0 x1 x2 x3 : ℕ) (t : List ℕ)
      → (not (x0 == sof1) || not (x1 == sof2)) ≡ true
      → round float (x0 ∷ x1 ∷ x2 ∷ x3 ∷ t) ≡ Cut.cut [] (x1 ∷ x2 ∷ x3 ∷ t)
  unfolding round
  round-lost x0 x1 x2 x3 t z = rw z (ground arith)

  pub round-found :
      (x0 x1 x2 x3 : ℕ) (t : List ℕ)
      → (not (x0 == sof1) || not (x1 == sof2)) ≡ false
      → let b = x0 ∷ x1 ∷ x2 ∷ x3 ∷ t in
        round float b ≡ cut_frame float (read_u16_be b 2 + header_length) b
  unfolding round
  round-found x0 x1 x2 x3 t z = rw z (ground arith)

  -- What a round cuts off does not depend on the bytes that are still to come.
  pub round-append :
      (b ys : List ℕ) (ds : List (Decoded F)) (rest : List ℕ)
      → round float b ≡ Cut.cut ds rest
      → round float (b ++ ys) ≡ Cut.cut ds (rest ++ ys)
  unfolding round
  round-append [] ys ds rest e = absurd cc
  round-append (x0 ∷ []) ys ds rest e = absurd cc
  round-append (x0 ∷ x1 ∷ []) ys ds rest e = absurd cc
  round-append (x0 ∷ x1 ∷ x2 ∷ []) ys ds rest e = absurd cc
  round-append (x0 ∷ x1 ∷ x2 ∷ x3 ∷ t) ys ds rest e =
      let b = x0 ∷ x1 ∷ x2 ∷ x3 ∷ t in
      let total = read_u16_be b 2 + header_length in
      elim (Bool-cases (not (x0 == sof1) || not (x1 == sof2))) [
        | inl z ↦
            round-lost x0 x1 x2 x3 (t ++ ys) z
            ∙ ap (extend ys) (sym (round-lost x0 x1 x2 x3 t z) ∙ e)
        | inr z ↦
            round-found x0 x1 x2 x3 (t ++ ys) z
            ∙ ap (λ n. cut_frame float (n + header_length) (b ++ ys))
                (read_length-append x0 x1 x2 x3 t ys)
            ∙ cut_frame-append total b ys ds rest (omega arith)
                (sym (round-found x0 x1 x2 x3 t z) ∙ e)
      ]
