-- ===== src/Smit/Scan/Sweep.antt =====
-- What the assembler promises for a partial window, as an abstract sweep: the points come in from
-- outside the window, go through it, and leave it with a scan.
use device_manager.Common.{
  ℕ, Bool, true, false, not, ◌||◌, ◌&&◌, List, [], ◌∷◌, ◌++◌, ◌≡◌, empty, length, ltb,
  if◌then◌else◌,
}
use device_manager.Smit.Protocol.{SmitPoint, SmitPointPacket, max_points}
use device_manager.Smit.Scan.{
  DoubleOps, SmitScan, SmitScanAssembler, normalize_raw_angle, is_raw_angle_in_window, add_packet,
  point_at,
}

-- Where a sweep is: nothing outside of the window was seen yet, the last point was outside, or the
-- points since the entry.
pub data Sweep (P : Type 0) : Type 0 where
  fresh outside : Sweep P
  within : List P → Sweep P

-- A point, and whether it is in the window: the scans that are complete, and the sweep after it.
abbrev pub sweep_step : {P : Type 0} → Bool → P → Sweep P → List (List P) × Sweep P
sweep_step true p fresh = ([], fresh)
sweep_step false p fresh = ([], outside)
sweep_step true p outside = ([], within (p ∷ []))
sweep_step false p outside = ([], outside)
sweep_step true p (within ps) = ([], within (ps ++ p ∷ []))
sweep_step false p (within ps) = (ps ∷ [], outside)

module _ {F D : Type 0} (double : DoubleOps F D) where
  -- What the assembler's steps leave alone.
  pub record Setup : Type 0 where
    pub angle_min_deg : D
    pub angle_max_deg : D
    pub motor_speed : ℕ
    pub lidar_freq : ℕ
    pub has_config : Bool

  abbrev pub setup_of : SmitScanAssembler F D → Setup
  setup_of a = record {
    angle_min_deg = a.angle_min_deg;
    angle_max_deg = a.angle_max_deg;
    motor_speed = a.motor_speed;
    lidar_freq = a.lidar_freq;
    has_config = a.has_config;
  }

  abbrev pub scan_of : Setup → List (SmitPoint F) → SmitScan F D
  scan_of s ps = record {
    points = ps;
    angle_min_deg = s.angle_min_deg;
    angle_max_deg = s.angle_max_deg;
    motor_speed = s.motor_speed;
    lidar_freq = s.lidar_freq;
  }

  -- A point as the scan has it, and the test of its angle.
  abbrev pub stored : SmitPoint F → SmitPoint F
  stored p = point_at double (normalize_raw_angle double (double.widen p.angle_deg)) p

  abbrev pub is_inside : Setup → SmitPoint F → Bool
  is_inside s p =
      is_raw_angle_in_window double (normalize_raw_angle double (double.widen p.angle_deg))
        (normalize_raw_angle double s.angle_min_deg) (normalize_raw_angle double s.angle_max_deg)
        false

  -- The sweep over a list of points, and over packets; a bad packet begins anew.
  unfoldable pub sweep_points :
      Setup
      → List (SmitPoint F)
      → Sweep (SmitPoint F)
      → List (List (SmitPoint F)) × Sweep (SmitPoint F)
  sweep_points s [] v = ([], v)
  sweep_points s (p ∷ ps) v =
      let (scans, v') = sweep_step (is_inside s p) (stored p) v in
      let (more, v'') = sweep_points s ps v' in (scans ++ more, v'')

  abbrev pub is_bad : SmitPointPacket F → Bool
  is_bad packet = not packet.crc_ok || ltb max_points (length packet.points)

  unfoldable pub sweep_packets :
      Setup
      → List (SmitPointPacket F)
      → Sweep (SmitPoint F)
      → List (List (SmitPoint F)) × Sweep (SmitPoint F)
  unfolding sweep_points
  sweep_packets s [] v = ([], v)
  sweep_packets s (x ∷ xs) v =
      let (scans, v') = if is_bad x then ([], fresh) else sweep_points s x.points v in
      let (more, v'') = sweep_packets s xs v' in (scans ++ more, v'')

  -- The packets one after the other.
  unfoldable pub add_packets :
      List (SmitPointPacket F) → SmitScanAssembler F D → List (SmitScan F D) × SmitScanAssembler F D
  add_packets [] a = ([], a)
  add_packets (x ∷ xs) a =
      let (scans, a') = add_packet double x a in
      let (more, a'') = add_packets xs a' in (scans ++ more, a'')

  -- The sweep that the assembler's fields stand for.
  abbrev pub view : SmitScanAssembler F D → Sweep (SmitPoint F)
  view a =
      if a.collecting
      then within a.points
      else if a.have_previous && not a.previous_in_window
      then outside
      else fresh

  -- An assembler that collects has a point.
  abbrev pub IsSound : SmitScanAssembler F D → Type 0
  IsSound a = a.collecting ≡ true → empty a.points ≡ false
