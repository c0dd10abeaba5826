-- ===== src/Oradar/Scan/Written.antt =====
-- What the loop on the arrays of a scan has written at its end.
use mathlib.Core.List.{reverse, reverse-cons}
use device_manager.Common.{
  ℕ, zero, suc, ◌+◌, ◌-◌, ◌<◌, String, Bool, true, false, List, [], ◌∷◌, ◌++◌, ◌≡◌, refl, sym, ap,
  ◌∙◌, arith, length, length-append, append_assoc, append-nil, ltb, empty, if◌then◌else◌, if-true,
  if-false,
}
use device_manager.Oradar.Client.{OradarLidarConfig, Layer, ScanFrame}
use device_manager.Oradar.Scan.{
  ScanOps, LaserScan, replicate, set, write_all, scan_count, node_at, header, fill_scan,
  to_scan_message,
}

module _ {A : Type 0} where
  -- The values at the indices from `i` on.
  abbrev pub values_from : (ℕ → A) → ℕ → ℕ → List A
  values_from f i zero = []
  values_from f i (suc k) = f i ∷ values_from f (i + 1) k

  set-middle :
      (xs : List A) (y v : A) (ys : List A) (i : ℕ)
      → i ≡ length xs
      → set (xs ++ y ∷ ys) i v ≡ xs ++ v ∷ ys
  set-middle [] y v ys zero e = refl
  set-middle [] y v ys (suc i) e = absurd (omega arith)
  set-middle (x ∷ xs) y v ys zero e = absurd (omega arith)
  set-middle (x ∷ xs) y v ys (suc i) e = ap (◌∷◌ x) (set-middle xs y v ys i (omega arith))

  length-replicate : (n : ℕ) (x : A) → length (replicate n x) ≡ n
  length-replicate zero x = refl
  length-replicate (suc n) x = ap suc (length-replicate n x)

  replicate-snoc : (n : ℕ) (x : A) → replicate (suc n) x ≡ replicate n x ++ x ∷ []
  replicate-snoc zero x = refl
  replicate-snoc (suc n) x = ap (◌∷◌ x) (replicate-snoc n x)

  write_all-up :
      (f : ℕ → A) (z : A) (k i : ℕ) (done : List A)
      → i ≡ length done
      → write_all (λ j. j) f k i (done ++ replicate k z) ≡ done ++ values_from f i k
  unfolding write_all
  write_all-up f z zero i done e = refl
  write_all-up f z (suc k) i done e =
      ap (write_all (λ j. j) f k (i + 1))
        (set-middle done z (f i) (replicate k z) i e ∙ sym (append_assoc done (f i ∷ []) _))
      ∙ write_all-up f z k (i + 1) (done ++ f i ∷ []) (omega (arith, length-append done (f i ∷ [])))
      ∙ append_assoc done (f i ∷ []) _

  write_all-down :
      (f : ℕ → A) (z : A) (n k i : ℕ) (done : List A)
      → n ≡ k + i
      → write_all (λ j. n - 1 - j) f k i (replicate k z ++ done)
        ≡ reverse (values_from f i k) ++ done
  unfolding write_all
  write_all-down f z n zero i done e = refl
  write_all-down f z n (suc k) i done e =
      let blank = replicate k z in
      let rest = values_from f (i + 1) k in
      let here : set (replicate (suc k) z ++ done) (n - 1 - i) (f i) ≡ blank ++ f i ∷ done =
        ap (λ xs. set (xs ++ done) (n - 1 - i) (f i)) (replicate-snoc k z)
        ∙ ap (λ xs. set xs (n - 1 - i) (f i)) (append_assoc blank (z ∷ []) done)
        ∙ set-middle blank z (f i) done (n - 1 - i) (omega (arith, length-replicate k z)) in
      ap (write_all (λ j. n - 1 - j) f k (i + 1)) here
      ∙ write_all-down f z n k (i + 1) (f i ∷ done) (omega arith)
      ∙ sym (append_assoc (reverse rest) (f i ∷ []) done)
      ∙ ap (λ xs. xs ++ done) (sym (reverse-cons (f i) rest))

  -- The values in their order, or in the opposite one.
  abbrev pub ordered : Bool → List A → List A
  ordered inverted xs = if inverted then reverse xs else xs

  write_all-ordered :
      (inverted : Bool) (f : ℕ → A) (z : A) (n : ℕ)
      → write_all (λ i. if inverted then n - 1 - i else i) f n 0 (replicate n z)
        ≡ ordered inverted (values_from f 0 n)
  write_all-ordered true f z n =
      ap (write_all (λ j. n - 1 - j) f n 0) (sym (append-nil (replicate n z)))
      ∙ write_all-down f z n n 0 [] (omega arith)
      ∙ append-nil _
  write_all-ordered false f z n = write_all-up f z n 0 [] refl

some_nodes : (n : ℕ) → 0 < n → ltb 0 n ≡ true
some_nodes n h = ground arith

module _ {D F : Type 0} (ops : ScanOps D F) (c : OradarLidarConfig D) where
  fill_scan-ordered :
      (l : Layer) (scan_time : D) (message : LaserScan F)
      → 0 < scan_count ops c (length l.ranges)
      → let count = scan_count ops c (length l.ranges) in
        let scan = fill_scan ops c l scan_time message in
        (scan.ranges ≡ ordered c.inverted (values_from (λ i. (node_at ops c l i).0) 0 count))
        × (scan.intensities ≡ ordered c.inverted (values_from (λ i. (node_at ops c l i).1) 0 count))
  unfolding fill_scan
  fill_scan-ordered l scan_time message h =
      let count = scan_count ops c (length l.ranges) in
      let some_node : ltb 0 count ≡ true = some_nodes count h in
      (
        ap (λ (m : LaserScan F). m.ranges) (if-true (ltb 0 count) _ _ some_node)
            ∙ write_all-ordered c.inverted _ ops.null count,
        ap (λ (m : LaserScan F). m.intensities) (if-true (ltb 0 count) _ _ some_node)
            ∙ write_all-ordered c.inverted _ ops.null count,
      )

  -- If the first layer of a frame has ranges, and its window has nodes, then the ranges and the
  -- intensities of the message are those of the nodes of the window, in the layer's order, or in
  -- the opposite one if the configuration says that the lidar is inverted.
  pub to_scan_message-ordered :
      (frame_id : String) (l : Layer) (ls : ScanFrame) (stamp : ℕ) (scan_time : D)
      → empty l.ranges ≡ false
      → 0 < scan_count ops c (length l.ranges)
      → let count = scan_count ops c (length l.ranges) in
        let scan = to_scan_message ops c frame_id (l ∷ ls) stamp scan_time in
        (scan.ranges ≡ ordered c.inverted (values_from (λ i. (node_at ops c l i).0) 0 count))
        × (scan.intensities ≡ ordered c.inverted (values_from (λ i. (node_at ops c l i).1) 0 count))
  unfolding to_scan_message
  to_scan_message-ordered frame_id l ls stamp scan_time some_range h =
      let filled = fill_scan-ordered l scan_time (header ops c frame_id stamp scan_time) h in
      let whole = if-false (empty l.ranges) _ _ some_range in
      (
        ap (λ (m : LaserScan F). m.ranges) whole ∙ filled.0,
        ap (λ (m : LaserScan F). m.intensities) whole ∙ filled.1,
      )
