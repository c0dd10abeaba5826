-- ===== src/Smit/Scan.antt =====
-- `SmitScanAssembler` of drivers/smit_ros_driver/src/smit_lidar_driver.cpp: the points of the
-- packets put together to scans. `double` is a parameter; the scans that go to the callback are a
-- list.
pub mod Sweep
pub mod Window
pub mod Passes
use device_manager.Common.{
  ℕ, Bool, true, false, not, ◌&&◌, ◌||◌, List, [], ◌∷◌, ◌++◌, ltb, length, empty, if◌then◌else◌,
}
use device_manager.Smit.Protocol.{SmitPoint, SmitPointPacket, max_points}

-- The machine's `double` as far as the assembler uses it, and its conversions from and to `float`.
-- `full_width` is 360 - 1e-3.
pub record DoubleOps (F D : Type 0) : Type 0 where
  pub fmod : D → D → D
  pub add : D → D → D
  pub sub : D → D → D
  pub less : D → D → Bool
  pub at_most : D → D → Bool
  pub zero_deg : D
  pub full_circle : D
  pub full_width : D
  pub widen : F → D
  pub narrow : D → F

pub record SmitScan (F D : Type 0) : Type 0 where
  pub points : List (SmitPoint F)
  pub angle_min_deg : D
  pub angle_max_deg : D
  pub motor_speed : ℕ
  pub lidar_freq : ℕ

pub record SmitScanAssembler (F D : Type 0) : Type 0 where
  pub angle_min_deg : D
  pub angle_max_deg : D
  pub motor_speed : ℕ
  pub lidar_freq : ℕ
  pub has_config : Bool
  pub points : List (SmitPoint F)
  pub collecting : Bool
  pub have_previous : Bool
  pub previous_in_window : Bool
  pub previous_raw_angle_deg : D

module _ {F D : Type 0} (double : DoubleOps F D) where
  open double use {fmod, add, sub, less, at_most, zero_deg, full_circle, full_width, widen, narrow}

  -- A call of the assembler: the scans it emits, and the assembler after it.
  abbrev pub Emitted : Type 0
  Emitted = List (SmitScan F D) × SmitScanAssembler F D

  unfoldable pub normalize_raw_angle : D → D
  normalize_raw_angle angle =
      let normalized = fmod angle full_circle in
      if less normalized zero_deg then add normalized full_circle else normalized

  unfoldable pub is_full_circle_window : D → D → Bool
  is_full_circle_window angle_min angle_max = at_most full_width (sub angle_max angle_min)

  unfoldable pub is_raw_angle_in_window : D → D → D → Bool → Bool
  unfolding normalize_raw_angle
  is_raw_angle_in_window raw start_raw end_raw full =
      let normalized = normalize_raw_angle raw in
      if full
      then true
      else if at_most start_raw end_raw
      then at_most start_raw normalized && at_most normalized end_raw
      else at_most start_raw normalized || at_most normalized end_raw

  unfoldable pub did_raw_angle_cross_boundary : D → D → D → Bool
  did_raw_angle_cross_boundary previous current boundary =
      if at_most previous current
      then less previous boundary && at_most boundary current
      else less previous boundary || at_most boundary current

  abbrev pub make_assembler : D → D → SmitScanAssembler F D
  make_assembler angle_min angle_max = record {
    angle_min_deg = angle_min;
    angle_max_deg = angle_max;
    motor_speed = 0;
    lidar_freq = 0;
    has_config = false;
    points = [];
    collecting = false;
    have_previous = false;
    previous_in_window = false;
    previous_raw_angle_deg = zero_deg;
  }

  abbrev pub reset : SmitScanAssembler F D → SmitScanAssembler F D
  reset a = record a {
    points = [];
    collecting = false;
    have_previous = false;
    previous_in_window = false;
  }

  abbrev pub set_window : D → D → SmitScanAssembler F D → SmitScanAssembler F D
  set_window angle_min angle_max a =
      reset (record a { angle_min_deg = angle_min; angle_max_deg = angle_max })

  abbrev pub set_config : ℕ → ℕ → SmitScanAssembler F D → SmitScanAssembler F D
  set_config motor_speed lidar_freq a = record a {
    motor_speed = motor_speed;
    lidar_freq = lidar_freq;
    has_config = true;
  }

  -- `emit_scan`, where there are points.
  abbrev pub emit_points : SmitScanAssembler F D → List (SmitScan F D)
  emit_points a =
      if empty a.points
      then []
      else record {
        points = a.points;
        angle_min_deg = a.angle_min_deg;
        angle_max_deg = a.angle_max_deg;
        motor_speed = a.motor_speed;
        lidar_freq = a.lidar_freq;
      }
        ∷ []

  abbrev pub point_at : D → SmitPoint F → SmitPoint F
  point_at raw p = record p { angle_deg = narrow raw }

  abbrev pub push : D → SmitPoint F → SmitScanAssembler F D → SmitScanAssembler F D
  push raw p a = record a { points = a.points ++ point_at raw p ∷ [] }

  -- What a point of a full circle does.
  unfoldable pub circle_step : D → D → SmitPoint F → SmitScanAssembler F D → Emitted
  unfolding did_raw_angle_cross_boundary
  circle_step start_raw raw p a =
      let crossed =
        a.have_previous && did_raw_angle_cross_boundary a.previous_raw_angle_deg raw start_raw in
      let scans = if crossed && a.collecting then emit_points a else [] in
      let begun : SmitScanAssembler F D =
        if crossed then record a { points = []; collecting = true } else a in
      let grown = if begun.collecting then push raw p begun else begun in
      (scans, record grown { previous_raw_angle_deg = raw; have_previous = true })

  -- What a point of a partial window does to the points and `collecting`.
  unfoldable pub collect : Bool → D → SmitPoint F → SmitScanAssembler F D → Emitted
  collect in_window raw p a =
      if not a.collecting
      then (
        [],
        if a.have_previous && not a.previous_in_window && in_window
            then push raw p (record a { points = []; collecting = true })
            else a,
      )
      else if not in_window
      then (emit_points a, record a { points = []; collecting = false })
      else ([], push raw p a)

  -- The rest of the loop's body for a partial window, by the test of the angle.
  unfoldable pub window_with : Bool → D → SmitPoint F → SmitScanAssembler F D → Emitted
  unfolding collect
  window_with in_window raw p a =
      let (scans, a') = collect in_window raw p a in
      (
        scans,
        record a' {
          previous_raw_angle_deg = raw;
          previous_in_window = in_window;
          have_previous = true;
        },
      )

  unfoldable pub window_step : D → D → D → SmitPoint F → SmitScanAssembler F D → Emitted
  unfolding is_raw_angle_in_window window_with
  window_step start_raw end_raw raw p a =
      window_with (is_raw_angle_in_window raw start_raw end_raw false) raw p a

  -- The body of the loop in `add_packet`. No step changes the window.
  unfoldable pub add_point : SmitPoint F → SmitScanAssembler F D → Emitted
  unfolding circle_step window_step is_full_circle_window normalize_raw_angle
  add_point p a =
      let start_raw = normalize_raw_angle a.angle_min_deg in
      let end_raw = normalize_raw_angle a.angle_max_deg in
      let raw = normalize_raw_angle (widen p.angle_deg) in
      if is_full_circle_window a.angle_min_deg a.angle_max_deg
      then circle_step start_raw raw p a
      else window_step start_raw end_raw raw p a

  unfoldable pub add_points : List (SmitPoint F) → SmitScanAssembler F D → Emitted
  unfolding add_point
  add_points [] a = ([], a)
  add_points (p ∷ ps) a =
      let (scans, a') = add_point p a in let (more, a'') = add_points ps a' in (scans ++ more, a'')

  unfoldable pub add_packet : SmitPointPacket F → SmitScanAssembler F D → Emitted
  unfolding add_points
  add_packet packet a =
      if not a.has_config
      then ([], a)
      else if not packet.crc_ok || ltb max_points (length packet.points)
      then ([], reset a)
      else add_points packet.points a
