-- ===== src/Imu/Stamp.antt =====
-- The time stamps of drivers/ch020_imu_driver/src/ch020_imu_runtime.cpp: `make_stamp` and
-- `CircleMinTracker` of its header. An `int64` is its value plus 2 ^ 63, which keeps the order and
-- lets a difference of times go below zero; the sums stay far from the ends of the range.
use device_manager.Common.{
  ℕ, ◌+◌, ◌-◌, ◌*◌, ◌≤◌, Bool, true, false, not, ◌||◌, ◌==◌, ltb, leb, arith, if◌then◌else◌,
}

-- The template for `int64`; the indices are no offset numbers.
pub record CircleMinTracker : Type 0 where
  pub window : ℕ
  pub min_value : ℕ
  pub backup : ℕ
  pub min_index : ℕ
  pub count : ℕ

-- The body of `push_back` before the count goes up.
unfoldable pub take_value : ℕ → CircleMinTracker → CircleMinTracker
take_value value t =
    let backup = if ltb value t.backup then value else t.backup in
    if t.count == 0
    then record t { min_value = value; min_index = 0; backup = value }
    else if leb value t.min_value
    then record t { min_value = value; min_index = t.count; backup = value }
    else if leb t.window (t.count - t.min_index)
    then record t { min_value = backup; min_index = t.count; backup = value }
    else record t { backup = backup }

unfoldable pub push_back : ℕ → CircleMinTracker → CircleMinTracker
unfolding take_value
push_back value t = record (take_value value t) { count = t.count + 1 }

abbrev pub reset : CircleMinTracker → CircleMinTracker
reset t = record t { count = 0 }

-- 100 ms in nanoseconds.
abbrev pub tolerance : ℕ
tolerance = 100000000

unfoldable pub make_stamp : Bool → ℕ → ℕ → CircleMinTracker → ℕ × CircleMinTracker
unfolding push_back
make_stamp use_hardware_time local hardware_timestamp_ms t =
    let sensor = hardware_timestamp_ms * 1000000 in
    let t' = push_back (local - sensor) t in
    let synchronized = t'.min_value + sensor in
    if not use_hardware_time
    then (local, t)
    else if ltb (local + tolerance) synchronized || ltb (synchronized + tolerance) local
    then (local, reset t')
    else (synchronized, t')

push_back-min : (v : ℕ) (t : CircleMinTracker) → (push_back v t).min_value ≤ v
unfolding push_back take_value
push_back-min v t = ground arith

-- A stamp is never after the local time at which the packet was handled, and at most 100 ms before
-- it, whatever was tracked before, as long as the difference of the times does not leave the range
-- of the integers.
pub make_stamp_bounds :
    (use_hardware_time : Bool) (local ms : ℕ) (t : CircleMinTracker)
    → ms * 1000000 ≤ local
    → let stamp = (make_stamp use_hardware_time local ms t).0 in
      (stamp ≤ local) × (local ≤ stamp + tolerance)
unfolding make_stamp
make_stamp_bounds false local ms t h = ground arith
make_stamp_bounds true local ms t h = ground (arith, push_back-min (local - ms * 1000000) t)
