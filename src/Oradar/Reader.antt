-- ===== src/Oradar/Reader.antt =====
-- `read_loop` and `publish_scan` of drivers/oradar_ros_driver/src/oradar_lidar_runtime.cpp. The
-- waits between its rounds are not modelled.
pub mod Announced
use device_manager.Common.{
  ℕ, zero, suc, String, append, Bool, true, false, not, ◌||◌, List, [], ◌∷◌, ◌++◌, Option, none,
  some, if◌then◌else◌,
}
use device_manager.Core.Types.{active}
use device_manager.Oradar.Client.{
  Error, no_error, error_name, OradarLidarConfig, Doubles, ScanFrame, Client,
}
use device_manager.Oradar.Session.{OradarLidarRuntime, emit_event, emit_error_event, emit_ok_event}
use device_manager.Oradar.Runtime.{bring_up, enable}
use device_manager.Oradar.Scan.{ScanOps, LaserScan, to_scan_message}

-- The clock that stamps the scans, and the seconds from a time to a later one.
pub record StampClock (D W : Type 0) : Type 0 where
  pub now : W → ℕ × W
  pub seconds : ℕ → ℕ → D

module _ {D F W : Type 0} (doubles : Doubles D) (client : Client D W) (clock : W → ℕ × W)
    (stamps : StampClock D W) (ops : ScanOps D F) where
  abbrev pub start_stream : Option String × W → Option String × W
  start_stream (some e, w) = (some e, w)
  start_stream (none, w) =
      let (enabled, w') = enable doubles client clock w in
      (if enabled then none else some "MS500 reconnect failed", w')

  -- The error's text of a connection that could not be made again.
  unfoldable pub reconnect : OradarLidarConfig D → W → Option String × W
  unfolding bring_up enable
  reconnect c w =
      if client.is_open w then (none, w) else start_stream (bring_up doubles client clock c w)

  abbrev pub disconnected : String → OradarLidarRuntime D W → OradarLidarRuntime D W
  disconnected m r = emit_error_event clock "oradar_lidar.disconnected" m active r

  -- The scan's event is emitted once for an activation.
  abbrev pub announce : OradarLidarRuntime D W → OradarLidarRuntime D W
  announce r =
      if r.connected_event_emitted
      then r
      else emit_ok_event clock "oradar_lidar.online" "MS500 scan stream is online"
          (record r { connected_event_emitted = true })

  abbrev pub deliver :
      ℕ
      → Error × ScanFrame × W
      → OradarLidarRuntime D W
      → List (LaserScan F) × OradarLidarRuntime D W
  deliver start (no_error, frame, w) r =
      let (stop, w') = stamps.now w in
      let scan = to_scan_message ops r.config r.frame_id frame start (stamps.seconds start stop) in
      (scan ∷ [], announce (record r { lidar = w' }))
  deliver start (e, frame, w) r =
      let (stop, w') = stamps.now w in
      (
        [],
        disconnected (append "read scan frame failed: " (error_name e))
            (record r { lidar = client.close w' }),
      )

  abbrev pub read_scan :
      Option String × W → OradarLidarRuntime D W → List (LaserScan F) × OradarLidarRuntime D W
  read_scan (some m, w) r = ([], disconnected m (record r { lidar = w }))
  read_scan (none, w) r =
      let (start, w') = stamps.now w in deliver start (client.get_scan_frame_data w') r

  -- A round of the loop: nothing if the loop ends here, and the scans that it published.
  unfoldable pub read_round :
      OradarLidarRuntime D W → Option (List (LaserScan F) × OradarLidarRuntime D W)
  unfolding reconnect emit_event to_scan_message
  read_round r =
      if not r.reading || not r.has_client
      then none
      else some (read_scan (reconnect r.config r.lidar) r)

  abbrev pub go_on :
      (OradarLidarRuntime D W → List (LaserScan F) × OradarLidarRuntime D W)
      → OradarLidarRuntime D W
      → Option (List (LaserScan F) × OradarLidarRuntime D W)
      → List (LaserScan F) × OradarLidarRuntime D W
  go_on rest r none = ([], r)
  go_on rest r (some (scans, r')) = let (more, r'') = rest r' in (scans ++ more, r'')

  -- The first rounds of the loop, as long as nothing stops it.
  unfoldable pub read_loop :
      ℕ → OradarLidarRuntime D W → List (LaserScan F) × OradarLidarRuntime D W
  unfolding read_round
  read_loop zero r = ([], r)
  read_loop (suc n) r = go_on (λ r'. read_loop n r') r (read_round r)
