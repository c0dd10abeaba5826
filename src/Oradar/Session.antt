-- ===== src/Oradar/Session.antt =====
-- The state of `OradarLidarRuntime` of drivers/oradar_ros_driver/src/oradar_lidar_runtime.cpp, its
-- read thread and its events. The ROS node and its publisher are not modelled.
use Prim.Native.String.{find as find_text, len}
use device_manager.Common.{
  ℕ, String, Bool, true, false, leb, List, [], ◌∷◌, ◌++◌, find, if◌then◌else◌,
}
use device_manager.Core.Types.{
  LifecycleState, unknown, finalized, ok_level, error_level, DeviceEvent, DeviceDefinition,
}
use device_manager.Drivers.Parameters.{stored_string}
use device_manager.Oradar.Client.{OradarLidarConfig, Doubles, default_config}

-- `reading` is `read_thread_running_`, `joinable` is `read_thread_.joinable()`, and `has_client`
-- that `client_` is set. `events` are those handed to the event handler.
pub record OradarLidarRuntime (D W : Type 0) : Type 0 where
  pub config : OradarLidarConfig D
  pub state : LifecycleState
  pub has_handler : Bool
  pub topic : String
  pub frame_id : String
  pub has_client : Bool
  pub reading : Bool
  pub joinable : Bool
  pub connected_event_emitted : Bool
  pub events : List DeviceEvent
  pub lidar : W
  pub handled_event_revision : ℕ

-- The constructor.
abbrev pub make_oradar_runtime : {D W : Type 0} → Doubles D → W → OradarLidarRuntime D W
make_oradar_runtime doubles w = record {
  config = default_config doubles;
  state = finalized;
  has_handler = false;
  topic = "scan";
  frame_id = "lidar_frame";
  has_client = false;
  reading = false;
  joinable = false;
  connected_event_emitted = false;
  events = [];
  lidar = w;
  handled_event_revision = 0;
}

abbrev is_front : String → Bool
is_front id = leb (find_text id "front") (len id)

module _ {D W : Type 0} where
  pub initialize : DeviceDefinition → OradarLidarRuntime D W → OradarLidarRuntime D W
  initialize def r =
      let topic = if is_front def.id then "scan" else "scan_rear" in
      let frame_id =
        if is_front def.id then "right_front_laser_link" else "left_behind_laser_link" in
      record r {
        topic = stored_string (find "lidar.topic" def.parameters) topic;
        frame_id = stored_string (find "lidar.frame_id" def.parameters) frame_id;
      }

  -- The thread ends before `join` returns.
  unfoldable pub stop_reader : OradarLidarRuntime D W → OradarLidarRuntime D W
  stop_reader r = record r { reading = false; joinable = false }

  module _ (clock : W → ℕ × W) where
    -- `emit_event` and the two operations that call it.
    unfoldable pub emit_event :
        Bool → String → String → LifecycleState → OradarLidarRuntime D W → OradarLidarRuntime D W
    emit_event ok code message target r =
        let (t, w) = clock r.lidar in
        let event : DeviceEvent = record {
          timestamp = t;
          level = if ok then ok_level else error_level;
          code = code;
          message = message;
          source = "oradar_lidar_driver";
          target_state = target;
          values = [];
        } in
        record r { events = if r.has_handler then r.events ++ event ∷ [] else r.events; lidar = w }

    abbrev pub emit_error_event :
        String → String → LifecycleState → OradarLidarRuntime D W → OradarLidarRuntime D W
    emit_error_event = emit_event false

    abbrev pub emit_ok_event : String → String → OradarLidarRuntime D W → OradarLidarRuntime D W
    emit_ok_event code message = emit_event true code message unknown
