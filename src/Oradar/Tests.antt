-- ===== src/Oradar/Tests.antt =====
-- The theorems on the Oradar lidar at concrete inputs.
use device_manager.Common.{
  ℕ, ◌+◌, ◌-◌, ◌*◌, ◌/◌, pos, true, false, List, [], ◌∷◌, ◌≡◌, refl, arith, ltb,
}
use device_manager.Core.Runtime.{returns}
use device_manager.Core.Runtime.Dispatch as Dispatch
use device_manager.Drivers.Parameters.{valid}
use device_manager.Oradar.Client.{
  no_error, timed_out, OradarLidarConfig, Doubles, ScanFrame, Client, default_config,
}
use device_manager.Oradar.Settings.{apply_device_settings}
use device_manager.Oradar.Settings.Applied.{
  Settings, IsLidar, Applied, wanted_settings, differs, apply_device_settings-Applied,
}
use device_manager.Oradar.Session.{OradarLidarRuntime, make_oradar_runtime}
use device_manager.Oradar.Scan.{ScanOps, to_scan_message}
use device_manager.Oradar.Scan.Written.{to_scan_message-ordered}
use device_manager.Oradar.Reader.{StampClock, read_loop}
use device_manager.Oradar.Reader.Announced.{Same, announcements, announced, read_loop-announces}

-- A lidar with its current and saved settings, and the frames that it will send; a read of none
-- fails.
record Lidar : Type 0 where
  current : Settings
  saved : Settings
  frames : List ScanFrame

abbrev doubles : Doubles ℕ
doubles = record {
  of_bits = λ n. n;
  of_integer = λ n. n;
  minus_135 = 0;
  plus_135 = 270;
  range_005 = 1;
  range_30 = 100;
}

abbrev lidar : Client ℕ Lidar
lidar = record {
  create = λ c w. (valid tt, w);
  open_port = λ w. (no_error, w);
  is_open = λ w. true;
  close = λ w. w;
  set_timeout = λ t w. w;
  track_connect = λ w. (no_error, w);
  enable_measure = λ w. (no_error, w);
  disable_measure = λ w. (no_error, w);
  enable_data_stream = λ w. (no_error, w);
  disable_data_stream = λ w. (no_error, w);
  get_scan_speed = λ w. (no_error, w.current.speed, w);
  set_scan_speed = λ v w. (no_error, record w { current = record (w.current) { speed = v } });
  get_tail_filter_level = λ w. (no_error, w.current.filter, w);
  set_tail_filter_level =
      λ v w. (no_error, record w { current = record (w.current) { filter = v } });
  get_scan_direction = λ w. (no_error, w.current.direction, w);
  set_scan_direction =
      λ v w. (no_error, record w { current = record (w.current) { direction = v } });
  apply_configs = λ w. (no_error, record w { saved = w.current });
  get_scan_frame_data = λ w. elim w.frames [
    | [] ↦ (timed_out, [], w)
    | f ∷ fs ↦ (no_error, f, record w { frames = fs })
  ];
  spawn = λ w. (returns tt, w);
}

abbrev current_of : Lidar → Settings
current_of w = w.current

abbrev saved_of : Lidar → Settings
saved_of w = w.saved

lidar-IsLidar : IsLidar lidar current_of saved_of
lidar-IsLidar = record {
  speed = record {
    reads = λ w e. refl;
    kept = λ w. refl;
    kept_saved = λ w. refl;
    writes = λ v w e. refl;
    writes_saved = λ v w e. refl;
  };
  filter = record {
    reads = λ w e. refl;
    kept = λ w. refl;
    kept_saved = λ w. refl;
    writes = λ v w e. refl;
    writes_saved = λ v w e. refl;
  };
  direction = record {
    reads = λ w e. refl;
    kept = λ w. refl;
    kept_saved = λ w. refl;
    writes = λ v w e. refl;
    writes_saved = λ v w e. refl;
  };
  saves = λ w e. refl;
  keeps = λ w e. refl;
}

abbrev config : OradarLidarConfig ℕ
config = default_config doubles

abbrev slow : Settings
slow = record { speed = 10; filter = 0; direction = 0 }

abbrev four_nodes : ScanFrame
four_nodes = record { ranges = 5 ∷ 6 ∷ 700 ∷ 8 ∷ []; intensities = 1 ∷ 2 ∷ 3 ∷ [] } ∷ []

abbrev slow_lidar : Lidar
slow_lidar = record { current = slow; saved = slow; frames = four_nodes ∷ [] }

apply_device_settings-Applied_example :
    Applied current_of saved_of
      (wanted_settings config)
      (differs slow (wanted_settings config))
      slow_lidar
      (apply_device_settings lidar config slow_lidar)
apply_device_settings-Applied_example =
    apply_device_settings-Applied lidar current_of saved_of lidar-IsLidar config slow_lidar

abbrev ticks : Lidar → ℕ × Lidar
ticks w = (7, w)

-- Whole degrees from the left edge of the field, and ranges as they are sent.
abbrev ops : ScanOps ℕ ℕ
ops = record {
  add = λ a b. a + b;
  sub = λ a b. a - b;
  mul = λ a b. a * b;
  div = λ a b. a / b;
  non_negative = λ a. a;
  of_count = λ n. n;
  degrees_to_radians = 1;
  half_fov = 0;
  fov = 270;
  llround = λ a. pos a;
  to_float = λ a. a;
  float_sub = λ a b. a - b;
  float_div = λ a b. a;
  float_lt = ltb;
  float_of_count = λ n. n;
  node_range = λ n. n;
  null = 0;
}

abbrev upside_down : OradarLidarConfig ℕ
upside_down = record config { inverted = true }

to_scan_message-ordered_example :
    let scan = to_scan_message ops upside_down "lidar_frame" four_nodes 7 1 in
    (scan.ranges ≡ 8 ∷ 0 ∷ 6 ∷ 5 ∷ []) × (scan.intensities ≡ 0 ∷ 0 ∷ 2 ∷ 1 ∷ [])
to_scan_message-ordered_example =
    to_scan_message-ordered ops upside_down "lidar_frame"
      (record { ranges = 5 ∷ 6 ∷ 700 ∷ 8 ∷ []; intensities = 1 ∷ 2 ∷ 3 ∷ [] }) [] 7 1 refl
      (omega arith)

abbrev stamps : StampClock ℕ Lidar
stamps = record { now = ticks; seconds = λ a b. b - a }

abbrev reading_runtime : OradarLidarRuntime ℕ Lidar
reading_runtime = record (make_oradar_runtime doubles slow_lidar) {
  has_handler = true;
  has_client = true;
  reading = true;
  joinable = true;
}

-- A scan and then two failed reads.
read_loop-announces_example :
    let (scans, s) = read_loop doubles lidar ticks stamps ops 3 reading_runtime in
    Same reading_runtime s × (announcements s.events ≡ 0 + announced false scans)
read_loop-announces_example =
    read_loop-announces doubles lidar ticks stamps ops 3 reading_runtime refl
