-- ===== src/Oradar/Settings.antt =====
-- `connect_client` and `apply_device_settings` of
-- drivers/oradar_ros_driver/src/oradar_lidar_runtime.cpp.
pub mod Applied
use device_manager.Common.{
  ℕ, String, append, Bool, true, false, not, ◌&&◌, ◌||◌, Option, none, some, ◌==◌, if◌then◌else◌,
}
use device_manager.Oradar.Client.{Error, no_error, is_ok, error_name, OradarLidarConfig, Client}

-- `what` failed with an error.
abbrev pub failed_as : String → Error → Option String
failed_as what no_error = none
failed_as what e = some (append what (append ": " (error_name e)))

module _ {W : Type 0} where
  -- One of the three settings, which `what` names in the texts: the text of an error, and whether
  -- the setting was changed.
  unfoldable pub adjust :
      String → (W → Error × ℕ × W) → (ℕ → W → Error × W) → ℕ → W → Option String × Bool × W
  adjust what get set wanted w =
      let (read, value, w1) = get w in
      let (written, w2) = set wanted w1 in
      if not (is_ok read)
      then (some (append "failed to read " what), false, w1)
      else if value == wanted
      then (none, false, w1)
      else if not (is_ok written)
      then (
        some (append "failed to set " (append what (append ": " (error_name written)))),
        false,
        w2,
      )
      else (none, true, w2)

  abbrev pub and_then :
      Option String × Bool × W → (W → Option String × Bool × W) → Option String × Bool × W
  and_then (some e, changed, w) more = (some e, changed, w)
  and_then (none, changed, w) more = let (e, changed', w') = more w in (e, changed || changed', w')

module _ {D W : Type 0} (client : Client D W) where
  -- There is a client wherever these are called.
  unfoldable pub connect_client : W → Option String × W
  connect_client w =
      let (opened, w1) = client.open_port w in
      let ready = if client.is_open w then w else w1 in
      let (connected, w2) = client.track_connect ready in
      if not (client.is_open w) && not (is_ok opened)
      then (failed_as "open failed" opened, w1)
      else (failed_as "track connect failed" connected, w2)

  abbrev pub save : Option String × Bool × W → Option String × W
  save (some e, changed, w) = (some e, w)
  save (none, false, w) = (none, w)
  save (none, true, w) =
      let (saved, w') = client.apply_configs w in
      (failed_as "failed to save lidar config" saved, w')

  abbrev pub adjust_speed : OradarLidarConfig D → W → Option String × Bool × W
  adjust_speed c = adjust "scan speed" client.get_scan_speed client.set_scan_speed c.motor_speed

  abbrev pub adjust_filter : OradarLidarConfig D → W → Option String × Bool × W
  adjust_filter c =
      adjust "filter size" client.get_tail_filter_level client.set_tail_filter_level c.filter_size

  abbrev pub adjust_direction : OradarLidarConfig D → W → Option String × Bool × W
  adjust_direction c =
      adjust "scan direction" client.get_scan_direction client.set_scan_direction c.motor_dir

  unfoldable pub adjust_all : OradarLidarConfig D → W → Option String × Bool × W
  unfolding adjust
  adjust_all c w = and_then (and_then (adjust_speed c w) (adjust_filter c)) (adjust_direction c)

  unfoldable pub apply_device_settings : OradarLidarConfig D → W → Option String × W
  unfolding adjust_all
  apply_device_settings c w = save (adjust_all c w)
