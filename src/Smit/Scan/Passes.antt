-- ===== src/Smit/Scan/Passes.antt =====
-- The scans of a stream that passes through a partial window again and again.
use device_manager.Common.{
  true, false, List, [], ◌∷◌, ◌++◌, map, map-map, ◌≡◌, refl, ap, ◌∙◌, sym, All, append_assoc,
  append-nil, false≢true,
}
use device_manager.Smit.Protocol.{SmitPoint, SmitPointPacket}
use device_manager.Smit.Scan.{DoubleOps, SmitScanAssembler, reset, is_full_circle_window}
use device_manager.Smit.Scan.Sweep.{
  Sweep, fresh, outside, within, sweep_step, Setup, setup_of, scan_of, stored, is_inside,
  sweep_points, sweep_packets, is_bad, add_packets,
}
use device_manager.Smit.Scan.Window.{add_packets-Refines}

-- Points outside of the window and then points in it, one of each at least.
pub record Pass (F : Type 0) : Type 0 where
  pub away : SmitPoint F
  pub further_away : List (SmitPoint F)
  pub entry : SmitPoint F
  pub further_in : List (SmitPoint F)

module _ {F D : Type 0} (double : DoubleOps F D) where
  abbrev pub block : Pass F → List (SmitPoint F)
  block p = p.entry ∷ p.further_in

  -- The passes, and then points outside of the window.
  abbrev pub course : List (Pass F) → List (SmitPoint F) → List (SmitPoint F)
  course [] last = last
  course (p ∷ ps) last = (p.away ∷ p.further_away) ++ (block p ++ course ps last)

  abbrev pub AllOutside : Setup double → List (SmitPoint F) → Type 0
  AllOutside s = All (λ p. is_inside double s p ≡ false)

  abbrev pub AllInside : Setup double → List (SmitPoint F) → Type 0
  AllInside s = All (λ p. is_inside double s p ≡ true)

  abbrev pub IsPass : Setup double → Pass F → Type 0
  IsPass s p = AllOutside s (p.away ∷ p.further_away) × AllInside s (block p)

  abbrev pub points_of : List (SmitPointPacket F) → List (SmitPoint F)
  points_of [] = []
  points_of (x ∷ xs) = x.points ++ points_of xs

  abbrev Swept : Type 0
  Swept = List (List (SmitPoint F)) × Sweep (SmitPoint F)

  module _ (s : Setup double) where
    abbrev run : List (SmitPoint F) → Sweep (SmitPoint F) → Swept
    run = sweep_points double s

    -- What a second run adds to a first one.
    abbrev and_then : Swept → List (SmitPoint F) → Swept
    and_then (scans, v) qs = (scans ++ (run qs v).0, (run qs v).1)

    run-append :
        (ps qs : List (SmitPoint F)) (v : Sweep (SmitPoint F))
        → run (ps ++ qs) v ≡ and_then (run ps v) qs
    unfolding sweep_points
    run-append [] qs v = refl
    run-append (p ∷ ps) qs v =
        let step = sweep_step (is_inside double s p) (stored double p) v in
        ap (λ (x : Swept). (step.0 ++ x.0, x.1)) (run-append ps qs step.1)
        ∙ ap (λ y. (y, (and_then (run ps step.1) qs).1))
            (sym (append_assoc step.0 (run ps step.1).0 (run qs (run ps step.1).1).0))

    run-then :
        (ps qs : List (SmitPoint F)) (v : Sweep (SmitPoint F)) (x : Swept)
        → run ps v ≡ x
        → run (ps ++ qs) v ≡ and_then x qs
    run-then ps qs v x e = run-append ps qs v ∙ ap (λ y. and_then y qs) e

    outside_stays : (os : List (SmitPoint F)) → AllOutside s os → run os outside ≡ ([], outside)
    unfolding sweep_points
    outside_stays [] h = refl
    outside_stays (o ∷ os) (h, hs) = rw h (rw (outside_stays os hs))

    leaves :
        (v : Sweep (SmitPoint F)) (o : SmitPoint F) (os : List (SmitPoint F))
        → AllOutside s (o ∷ os)
        → run (o ∷ os) v ≡ ((sweep_step false (stored double o) v).0, outside)
    unfolding sweep_points
    leaves fresh o os (h, hs) = rw h (outside_stays os hs)
    leaves outside o os (h, hs) = rw h (outside_stays os hs)
    leaves (within ps) o os (h, hs) = rw h (rw (outside_stays os hs))

    inside_stays :
        (bs ps : List (SmitPoint F))
        → AllInside s bs
        → run bs (within ps) ≡ ([], within (ps ++ map (stored double) bs))
    unfolding sweep_points
    inside_stays [] ps h = ap (λ x. ([], within x)) (sym (append-nil ps))
    inside_stays (b ∷ bs) ps (h, hs) = rw h (
        inside_stays bs (ps ++ stored double b ∷ []) hs
        ∙ ap (λ x. ([], within x))
            (append_assoc ps (stored double b ∷ []) (map (stored double) bs)))

    abbrev scan_points : Pass F → List (SmitPoint F)
    scan_points p = map (stored double) (block p)

    enters :
        (p : Pass F) → AllInside s (block p) → run (block p) outside ≡ ([], within (scan_points p))
    unfolding sweep_points
    enters p (h, hs) = rw h (inside_stays p.further_in (stored double p.entry ∷ []) hs)

    -- A pass ends the scan before it and leaves its own points pending.
    pass :
        (p : Pass F) (rest : List (SmitPoint F)) (v : Sweep (SmitPoint F))
        → IsPass s p
        → run ((p.away ∷ p.further_away) ++ (block p ++ rest)) v ≡ (
          (sweep_step false (stored double p.away) v).0 ++ (run rest (within (scan_points p))).0,
          (run rest (within (scan_points p))).1,
        )
    pass p rest v (h, k) =
        let left = (sweep_step false (stored double p.away) v).0 in
        run-then (p.away ∷ p.further_away) (block p ++ rest) v (left, outside)
          (leaves v p.away p.further_away h)
        ∙ ap (λ (x : Swept). (left ++ x.0, x.1))
            (run-then (block p) rest outside ([], within (scan_points p)) (enters p k))

    further_passes :
        (ps : List (Pass F)) (o : SmitPoint F) (os prev : List (SmitPoint F))
        → All (IsPass s) ps
        → AllOutside s (o ∷ os)
        → run (course ps (o ∷ os)) (within prev) ≡ (prev ∷ map scan_points ps, outside)
    further_passes [] o os prev h k = leaves (within prev) o os k
    further_passes (p ∷ ps) o os prev (h, hs) k =
        pass p (course ps (o ∷ os)) (within prev) h
        ∙ ap (λ (x : Swept). (prev ∷ x.0, x.1)) (further_passes ps o os (scan_points p) hs k)

    passes :
        (ps : List (Pass F)) (o : SmitPoint F) (os : List (SmitPoint F))
        → All (IsPass s) ps
        → AllOutside s (o ∷ os)
        → run (course ps (o ∷ os)) fresh ≡ (map scan_points ps, outside)
    passes [] o os h k = leaves fresh o os k
    passes (p ∷ ps) o os (h, hs) k =
        pass p (course ps (o ∷ os)) fresh h ∙ further_passes ps o os (scan_points p) hs k

    good_packets :
        (xs : List (SmitPointPacket F)) (v : Sweep (SmitPoint F))
        → All (λ x. is_bad double x ≡ false) xs
        → sweep_packets double s xs v ≡ run (points_of xs) v
    unfolding sweep_packets sweep_points
    good_packets [] v h = refl
    good_packets (x ∷ xs) v (h, hs) = rw h (
        ap (λ (y : Swept). ((run x.points v).0 ++ y.0, y.1)) (good_packets xs (run x.points v).1 hs)
        ∙ sym (run-append x.points (points_of xs) v))

  -- An assembler with a configuration and a partial window, newly reset, gets intact packets, cut
  -- in any way out of a stream of points that passes through the window several times and comes
  -- from outside and ends outside. Then it emits one scan for each pass, in order, with the points
  -- of that pass in the window, no more and no less, at their normalized angles.
  pub add_packets-passes :
      (a : SmitScanAssembler F D) (xs : List (SmitPointPacket F)) (ps : List (Pass F))
      (o : SmitPoint F) (os : List (SmitPoint F))
      → is_full_circle_window double a.angle_min_deg a.angle_max_deg ≡ false
      → a.has_config ≡ true
      → All (λ x. is_bad double x ≡ false) xs
      → points_of xs ≡ course ps (o ∷ os)
      → All (IsPass (setup_of double a)) ps
      → AllOutside (setup_of double a) (o ∷ os)
      → (add_packets double xs (reset double a)).0
        ≡ map (λ p. scan_of double (setup_of double a) (map (stored double) (block p))) ps
  add_packets-passes a xs ps o os partial c good e h k =
      let s = setup_of double a in
      let r =
        add_packets-Refines double xs (reset double a) partial c (λ z. absurd (false≢true z)) in
      r.0
      ∙ ap (λ (y : Swept). map (scan_of double s) y.0)
          (good_packets s xs fresh good ∙ ap (λ qs. run s qs fresh) e ∙ passes s ps o os h k)
      ∙ map-map (scan_of double s) (scan_points s) ps
