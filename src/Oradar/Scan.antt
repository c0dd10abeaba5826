-- ===== src/Oradar/Scan.antt =====
-- `to_scan_message` of drivers/oradar_ros_driver/src/oradar_lidar_runtime.cpp. The results of
-- `llround` are in the range of `int`.
pub mod Written
use device_manager.Common.{
  ℕ, zero, suc, ◌+◌, ◌-◌, ℤ, pos, negsuc, plus, String, Bool, true, false, not, ◌&&◌, ◌||◌, List,
  [], ◌∷◌, ltb, length, get_or, empty, if◌then◌else◌,
}
use device_manager.Oradar.Client.{OradarLidarConfig, Layer, ScanFrame}

-- The operations of the machine on `double` and `float`: 135.0 and 270.0 are `half_fov` and `fov`,
-- `node_range` is a range times 0.002F, and `null` is 0.0F.
pub record ScanOps (D F : Type 0) : Type 0 where
  pub add : D → D → D
  pub sub : D → D → D
  pub mul : D → D → D
  pub div : D → D → D
  pub non_negative : D → D
  pub of_count : ℕ → D
  pub degrees_to_radians : D
  pub half_fov : D
  pub fov : D
  pub llround : D → ℤ
  pub to_float : D → F
  pub float_sub : F → F → F
  pub float_div : F → F → F
  pub float_lt : F → F → Bool
  pub float_of_count : ℕ → F
  pub node_range : ℕ → F
  pub null : F

pub record LaserScan (F : Type 0) : Type 0 where
  pub stamp : ℕ
  pub frame_id : String
  pub angle_min : F
  pub angle_max : F
  pub angle_increment : F
  pub time_increment : F
  pub scan_time : F
  pub range_min : F
  pub range_max : F
  pub ranges : List F
  pub intensities : List F

module _ {A : Type 0} where
  abbrev pub replicate : ℕ → A → List A
  replicate zero x = []
  replicate (suc n) x = x ∷ replicate n x

  abbrev pub set : List A → ℕ → A → List A
  set [] i v = []
  set (x ∷ xs) zero v = v ∷ xs
  set (x ∷ xs) (suc i) v = x ∷ set xs i v

  -- The loop on one of the two arrays, with the rounds left and the index.
  unfoldable pub write_all : (ℕ → ℕ) → (ℕ → A) → ℕ → ℕ → List A → List A
  write_all target value zero i xs = xs
  write_all target value (suc k) i xs =
      write_all target value k (i + 1) (set xs (target i) (value i))

-- `std::max(0, std::min(count, node_count))`.
abbrev pub clamp : ℤ → ℕ → ℕ
clamp (pos n) most = if ltb most n then most else n
clamp (negsuc n) most = 0

module _ {D F : Type 0} (ops : ScanOps D F) (c : OradarLidarConfig D) where
  open ops use {
    add, sub, mul, div, non_negative, of_count, degrees_to_radians, half_fov, fov, llround,
    to_float, float_sub, float_div, float_lt, float_of_count, node_range, null,
  }

  abbrev range_min : F
  range_min = to_float c.range_min_m

  abbrev range_max : F
  range_max = to_float c.range_max_m

  abbrev pub scan_count : ℕ → ℕ
  scan_count node_count =
      clamp (llround (div (mul (of_count node_count) (sub c.angle_max_deg c.angle_min_deg)) fov))
        node_count

  abbrev pub node_start : ℕ → ℤ
  node_start node_count =
      llround (div (mul (of_count node_count) (add half_fov c.angle_min_deg)) fov)

  abbrev pub out_of_range : F → Bool
  out_of_range range = float_lt range_max range || float_lt range range_min

  -- The range and the intensity at an index of the layer, which may lie outside of it.
  abbrev pub node : Layer → ℤ → F × F
  node l (negsuc n) = (null, null)
  node l (pos n) =
      let range = node_range (get_or l.ranges n 0) in
      let intensity =
        if ltb n (length l.intensities) then float_of_count (get_or l.intensities n 0) else null in
      if not (ltb n (length l.ranges))
      then (null, null)
      else if out_of_range range
      then (null, null)
      else (range, intensity)

  abbrev pub node_at : Layer → ℕ → F × F
  node_at l i = node l (plus (node_start (length l.ranges)) i)

  abbrev pub target_index : ℕ → ℕ → ℕ
  target_index count i = if c.inverted then count - 1 - i else i

  abbrev pub header : String → ℕ → D → LaserScan F
  header frame_id stamp scan_time = record {
    stamp = stamp;
    frame_id = frame_id;
    angle_min = to_float (mul c.angle_min_deg degrees_to_radians);
    angle_max = to_float (mul c.angle_max_deg degrees_to_radians);
    angle_increment = null;
    time_increment = null;
    scan_time = to_float (non_negative scan_time);
    range_min = range_min;
    range_max = range_max;
    ranges = [];
    intensities = [];
  }

  unfoldable pub fill_scan : Layer → D → LaserScan F → LaserScan F
  unfolding write_all
  fill_scan l scan_time message =
      let node_count = length l.ranges in
      let count = scan_count node_count in
      let target = target_index count in
      let blank = replicate count null in
      if ltb 0 count
      then record message {
        ranges = write_all target (λ i. (node_at l i).0) count 0 blank;
        intensities = write_all target (λ i. (node_at l i).1) count 0 blank;
        angle_increment =
            if ltb 1 count
            then float_div (float_sub message.angle_max message.angle_min)
                (float_of_count (count - 1))
            else message.angle_increment;
        time_increment = to_float (div (non_negative scan_time) (of_count node_count));
      }
      else message

  abbrev pub first_layer : ScanFrame → Layer
  first_layer [] = record { ranges = []; intensities = [] }
  first_layer (l ∷ ls) = l

  -- A frame with no layer is treated as one whose first layer has no ranges.
  unfoldable pub to_scan_message : String → ScanFrame → ℕ → D → LaserScan F
  unfolding fill_scan
  to_scan_message frame_id frame stamp scan_time =
      let l = first_layer frame in
      let message = header frame_id stamp scan_time in
      if empty l.ranges then message else fill_scan l scan_time message
