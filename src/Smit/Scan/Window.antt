-- ===== src/Smit/Scan/Window.antt =====
-- A partial window refines an abstract sweep: the points come in from outside the window, go
-- through it, and leave it with a scan.
use device_manager.Common.{
  Bool, true, false, not, List, [], ◌∷◌, ◌++◌, map, ◌≡◌, refl, ap, ◌∙◌, sym, subst, inl, inr,
  Bool-cases, false≢true, if◌then◌else◌, map-append,
}
use device_manager.Smit.Protocol.{SmitPoint, SmitPointPacket}
use device_manager.Smit.Scan.{
  DoubleOps, SmitScan, SmitScanAssembler, Emitted, normalize_raw_angle, is_full_circle_window,
  add_point, add_points, add_packet, window_step, window_with, collect, point_at, reset,
}
use device_manager.Smit.Scan.Sweep.{
  Sweep, fresh, sweep_step, Setup, setup_of, scan_of, stored, is_inside, sweep_points,
  sweep_packets, is_bad, add_packets, view, IsSound,
}

module _ {F D : Type 0} (double : DoubleOps F D) where
  -- The concrete step is the abstract one.
  abbrev pub Refines :
      Setup double → Emitted double → List (List (SmitPoint F)) × Sweep (SmitPoint F) → Type 0
  Refines s (scans, a) (blocks, v) =
      (scans ≡ map (scan_of double s) blocks)
      × (view double a ≡ v)
      × IsSound double a
      × (setup_of double a ≡ s)

  abbrev with_flags :
      Bool → Bool → Bool → List (SmitPoint F) → SmitScanAssembler F D → SmitScanAssembler F D
  with_flags c h i ps a = record a {
    collecting = c;
    have_previous = h;
    previous_in_window = i;
    points = ps;
  }

  window_with-Refines :
      (b c h i : Bool) (ps : List (SmitPoint F)) (raw : D) (p : SmitPoint F)
      (a : SmitScanAssembler F D)
      → IsSound double (with_flags c h i ps a)
      → Refines
          (setup_of double a)
          (window_with double b raw p (with_flags c h i ps a))
          (sweep_step b (point_at double raw p) (view double (with_flags c h i ps a)))
  unfolding window_with collect
  window_with-Refines true true h i [] raw p a s = absurd (false≢true (sym (s refl)))
  window_with-Refines true true h i (q ∷ ps) raw p a s = (refl, refl, (λ e. refl), refl)
  window_with-Refines false true h i [] raw p a s = absurd (false≢true (sym (s refl)))
  window_with-Refines false true h i (q ∷ ps) raw p a s =
      (refl, refl, (λ e. absurd (false≢true e)), refl)
  window_with-Refines true false true true ps raw p a s =
      (refl, refl, (λ e. absurd (false≢true e)), refl)
  window_with-Refines true false true false ps raw p a s = (refl, refl, (λ e. refl), refl)
  window_with-Refines true false false i ps raw p a s =
      (refl, refl, (λ e. absurd (false≢true e)), refl)
  window_with-Refines false false true true ps raw p a s =
      (refl, refl, (λ e. absurd (false≢true e)), refl)
  window_with-Refines false false true false ps raw p a s =
      (refl, refl, (λ e. absurd (false≢true e)), refl)
  window_with-Refines false false false i ps raw p a s =
      (refl, refl, (λ e. absurd (false≢true e)), refl)

  window_step-Refines :
      (p : SmitPoint F) (a : SmitScanAssembler F D)
      → is_full_circle_window double a.angle_min_deg a.angle_max_deg ≡ false
      → IsSound double a
      → Refines
          (setup_of double a)
          (add_point double p a)
          (sweep_step (is_inside double (setup_of double a) p) (stored double p) (view double a))
  unfolding add_point window_step
  window_step-Refines p a partial s = rw partial (
      window_with-Refines _ a.collecting a.have_previous a.previous_in_window a.points
        (normalize_raw_angle double (double.widen p.angle_deg)) p a s)

  -- One concrete step after the other.
  then-Refines :
      (s : Setup double) (scans : List (SmitScan F D)) (blocks : List (List (SmitPoint F)))
      (e : Emitted double) (o : List (List (SmitPoint F)) × Sweep (SmitPoint F))
      → scans ≡ map (scan_of double s) blocks
      → Refines s e o
      → Refines s (scans ++ e.0, e.1) (blocks ++ o.0, o.1)
  then-Refines s scans blocks e o h r = (
    ap (λ xs. xs ++ e.0) h
        ∙ ap (λ ys. map (scan_of double s) blocks ++ ys) r.0
        ∙ sym (map-append (scan_of double s) blocks o.0),
    r.1,
    r.2,
    r.3,
  )

  IsPartial : Setup double → Type 0
  IsPartial s = is_full_circle_window double s.angle_min_deg s.angle_max_deg ≡ false

  add_points-Refines :
      (ps : List (SmitPoint F)) (s : Setup double) (a : SmitScanAssembler F D)
      (v : Sweep (SmitPoint F))
      → IsPartial s
      → setup_of double a ≡ s
      → view double a ≡ v
      → IsSound double a
      → Refines s (add_points double ps a) (sweep_points double s ps v)
  unfolding add_points sweep_points IsPartial
  add_points-Refines [] s a v partial e f k = (refl, f, k, e)
  add_points-Refines (p ∷ ps) s a v partial e f k =
      let step : Refines s (add_point double p a)
          (sweep_step (is_inside double s p) (stored double p) v) =
        subst
          (λ x.
            Refines s (add_point double p a)
              (sweep_step (is_inside double s p) (stored double p) x))
          f
          (subst
            (λ x.
              Refines x (add_point double p a)
                (sweep_step (is_inside double x p) (stored double p) (view double a)))
            e (window_step-Refines p a (subst IsPartial (sym e) partial) k)) in
      let v' = (sweep_step (is_inside double s p) (stored double p) v).1 in
      then-Refines s _ _ (add_points double ps (add_point double p a).1)
        (sweep_points double s ps v') step.0
        (add_points-Refines ps s (add_point double p a).1 v' partial step.3 step.1 step.2)

  add_packet-Refines :
      (x : SmitPointPacket F) (s : Setup double) (a : SmitScanAssembler F D)
      (v : Sweep (SmitPoint F))
      → IsPartial s
      → s.has_config ≡ true
      → setup_of double a ≡ s
      → view double a ≡ v
      → IsSound double a
      → Refines s
          (add_packet double x a)
          (if is_bad double x then ([], fresh) else sweep_points double s x.points v)
  unfolding add_packet
  add_packet-Refines x s a v partial c e f k =
      let has : a.has_config ≡ true = ap (λ (y : Setup double). y.has_config) e ∙ c in
      let bad_reset : SmitScanAssembler F D = reset double a in
      let tested : Emitted double =
        if is_bad double x then ([], bad_reset) else add_points double x.points a in
      let swept = if is_bad double x then ([], fresh) else sweep_points double s x.points v in
      subst (λ b. Refines s (if not b then ([], a) else tested) swept) (sym has)
        (elim (Bool-cases (is_bad double x)) [
          | inl bad ↦ rw bad (refl, refl, (λ z. absurd (false≢true z)), e)
          | inr good ↦ rw good (add_points-Refines x.points s a v partial e f k)
        ])

  packets-Refines :
      (xs : List (SmitPointPacket F)) (s : Setup double) (a : SmitScanAssembler F D)
      (v : Sweep (SmitPoint F))
      → IsPartial s
      → s.has_config ≡ true
      → setup_of double a ≡ s
      → view double a ≡ v
      → IsSound double a
      → Refines s (add_packets double xs a) (sweep_packets double s xs v)
  unfolding add_packets sweep_packets
  packets-Refines [] s a v partial c e f k = (refl, f, k, e)
  packets-Refines (x ∷ xs) s a v partial c e f k =
      let step = add_packet-Refines x s a v partial c e f k in
      let v' = (if is_bad double x then ([], fresh) else sweep_points double s x.points v).1 in
      then-Refines s _ _ (add_packets double xs (add_packet double x a).1)
        (sweep_packets double s xs v') step.0
        (packets-Refines xs s (add_packet double x a).1 v' partial c step.3 step.1 step.2)

  -- For a partial window, an assembler that has its configuration and holds a point if it collects
  -- refines the sweep: for any packets, good and bad, the scans it emits are those of the abstract
  -- sweep with the window and the configuration of the assembler, its fields stand for the state of
  -- the sweep afterwards, and it still holds a point if it collects.
  pub add_packets-Refines :
      (xs : List (SmitPointPacket F)) (a : SmitScanAssembler F D)
      → is_full_circle_window double a.angle_min_deg a.angle_max_deg ≡ false
      → a.has_config ≡ true
      → IsSound double a
      → Refines
          (setup_of double a)
          (add_packets double xs a)
          (sweep_packets double (setup_of double a) xs (view double a))
  unfolding IsPartial
  add_packets-Refines xs a partial c s =
      packets-Refines xs (setup_of double a) a (view double a) partial c refl refl s
