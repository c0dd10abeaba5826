-- ===== src/Camera/Capture.antt =====
-- `capture_loop` and `emit_connection_event` of
-- drivers/gmsl_v4l2_camera_driver/src/gmsl_v4l2_camera_runtime.cpp. Times of the steady clock are
-- nanoseconds; what `publish_frame` makes of a frame is not modelled, nor is the event's publisher.
pub mod Paced
use device_manager.Common.{
  ℕ, zero, suc, ◌+◌, ◌-◌, ◌/◌, ◌^◌, String, append, to_string, Bool, true, false, not, ◌&&◌, ◌||◌,
  List, [], ◌∷◌, ◌++◌, Option, none, some, ◌==◌, ltb, leb, if◌then◌else◌,
}
use text.Mathlib.Text.{◌==◌ as str_eq}
use device_manager.Core.Types.{
  LifecycleState, unconfigured, active, ok_level, error_level, DeviceEvent,
}
use device_manager.Camera.Sensor.{is_negative}

-- The fields of `GmslV4l2CameraConfig` that the loop and its events take.
pub record CaptureConfig : Type 0 where
  pub video_device : String
  pub serial_number : String
  pub fps : ℕ
  pub read_timeout_ms : ℕ
  pub read_otp_on_start : Bool
  pub otp_status : String
  pub otp_result_i2c_bus : ℕ
  pub otp_error_message : String

-- `CaptureBackend::read_frame` and the two clocks: a frame, or none with the text of an error.
pub record Backend (Frame W : Type 0) : Type 0 where
  pub read_frame : ℕ → W → Option Frame × String × W
  pub steady_now : W → ℕ × W
  pub now : W → ℕ × W

-- What the loop uses of the runtime, with the two variables of the loop. `published` are the frames
-- handed to `publish_frame`, with the time of each.
pub record Capture (Frame W : Type 0) : Type 0 where
  pub config : CaptureConfig
  pub running : Bool
  pub has_capture : Bool
  pub has_handler : Bool
  pub last_connected : Option Bool
  pub events : List DeviceEvent
  pub next_publish_at : ℕ
  pub publish_fps : ℕ
  pub published : List (ℕ × Frame)
  pub device : W

-- `std::to_string` of an `int`.
abbrev signed_to_string : ℕ → String
signed_to_string n = if is_negative n then append "-" (to_string (2 ^ 32 - n)) else to_string n

-- A value that is not empty.
abbrev some_value : String → String → List (String × String)
some_value key value = if str_eq value "" then [] else (key, value) ∷ []

abbrev event_values : CaptureConfig → List (String × String)
event_values c =
    (("video_device", c.video_device)
      ∷ ("otp_read_on_start", if c.read_otp_on_start then "true" else "false")
      ∷ ("otp_status", c.otp_status)
      ∷ ("otp_i2c_bus", signed_to_string c.otp_result_i2c_bus)
      ∷ [])
    ++ some_value "otp_error_message" c.otp_error_message
    ++ some_value "serial_number" c.serial_number

-- The same as the last one.
abbrev pub is_old : Option Bool → Bool → Bool
is_old none connected = false
is_old (some true) connected = connected
is_old (some false) connected = not connected

-- The period of a frame rate.
abbrev pub period_of : ℕ → ℕ
period_of fps = 1000000000 / fps

abbrev pub publish_rate : ℕ → ℕ
publish_rate fps = if is_negative fps || ltb fps 1 then 1 else fps

-- The loop that leads `next_publish_at` past the present, on fuel.
unfoldable pub advance : ℕ → ℕ → ℕ → ℕ → ℕ
advance zero period now next = next
advance (suc k) period now next =
    let next' = next + period in
    let rest = advance k period now next' in if leb next' now then rest else next'

module _ {Frame W : Type 0} (backend : Backend Frame W) where
  unfoldable pub emit_connection_event :
      Bool → String → String → LifecycleState → Capture Frame W → Capture Frame W
  emit_connection_event connected code message target r =
      let (t, w) = backend.now r.device in
      let event : DeviceEvent = record {
        timestamp = t;
        level = if connected then ok_level else error_level;
        code = code;
        message = message;
        source = "gmsl_v4l2_camera_driver";
        target_state = target;
        values = event_values r.config;
      } in
      if is_old r.last_connected connected then r else record r {
        last_connected = some connected;
        events = if r.has_handler then r.events ++ event ∷ [] else r.events;
        device = w;
      }

  -- A new frame rate starts the pacing again.
  unfoldable pub set_rate : Capture Frame W → Capture Frame W
  set_rate r =
      let (t, w) = backend.steady_now r.device in
      if r.config.fps == r.publish_fps
      then r
      else record r { publish_fps = publish_rate r.config.fps; next_publish_at = t; device = w }

  abbrev pub publish : ℕ → Frame → Capture Frame W → Capture Frame W
  publish t f r = if ltb t r.next_publish_at then r else record r {
    published = r.published ++ (t, f) ∷ [];
    next_publish_at =
        advance (t - r.next_publish_at + 1) (period_of r.publish_fps) t r.next_publish_at;
  }

  -- What follows a read in which the thread was not told to stop.
  abbrev pub handle_read : Option Frame × String × W → Capture Frame W → Capture Frame W
  handle_read (some f, m, w) r =
      let r' =
        emit_connection_event true "gmsl_v4l2.online" "GMSL V4L2 camera online" active
          (record r { device = w }) in
      let (t, w') = backend.steady_now r'.device in publish t f (record r' { device = w' })
  handle_read (none, m, w) r =
      if str_eq m ""
      then record r { device = w }
      else emit_connection_event false "gmsl_v4l2.capture_failed" m unconfigured
          (record r { device = w })

  -- A round of the loop; `stopped` is that the thread is told to stop while it reads.
  unfoldable pub capture_round : Bool → Capture Frame W → Capture Frame W
  unfolding emit_connection_event set_rate advance
  capture_round stopped r =
      let r' = set_rate r in
      let x = backend.read_frame r'.config.read_timeout_ms r'.device in
      if not r.running || not r.has_capture
      then r
      else if stopped
      then record r' { running = false; device = x.2 }
      else handle_read x r'

  -- The rounds of the loop, each with whether the thread is told to stop in it.
  unfoldable pub capture_loop : List Bool → Capture Frame W → Capture Frame W
  unfolding capture_round
  capture_loop [] r = r
  capture_loop (stopped ∷ rest) r = capture_loop rest (capture_round stopped r)
