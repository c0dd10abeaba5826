-- ===== src/Camera/Calibration.antt =====
-- `apply_otp_calibration` of
-- drivers/gmsl_v4l2_camera_driver/src/gmsl_v4l2_camera_runtime.cpp. Its traces and warnings are not
-- modelled.
pub mod Loaded
use device_manager.Common.{
  ℕ, ◌^◌, ◌-◌, String, Bool, true, false, not, ◌||◌, List, Option, none, some, if◌then◌else◌,
}
use device_manager.Drivers.Parameters.{Configured, valid, refused}
use device_manager.Camera.Otp.{Reals, CameraCalibration, decode_ox01f10_otp}
use device_manager.Camera.Sensor.{OtpReadResult, OtpSource, is_negative}

-- The fields of `GmslV4l2CameraConfig` that have to do with the sensor's memory.
pub record OtpConfig (D : Type 0) : Type 0 where
  pub source : OtpSource
  pub read_otp_on_start : Bool
  pub serial_number : List ℕ
  pub calibration : Option (CameraCalibration D)
  pub otp_status : String
  pub otp_result_i2c_bus : ℕ
  pub otp_error_message : String

-- The reader that the factory gave, if it gave one; `has_factory` is that there is a factory.
pub record OtpReader (W : Type 0) : Type 0 where
  pub has_factory : Bool
  pub reader : Option (OtpSource → W → OtpReadResult × W)

module _ {D : Type 0} (reals : Reals D) where
  abbrev pub load : Configured (List ℕ × CameraCalibration D) → OtpConfig D → OtpConfig D
  load (refused m) c = record c { otp_status = "failed"; otp_error_message = m }
  load (valid (serial_number, calibration)) c = record c {
    serial_number = serial_number;
    calibration = some calibration;
    otp_status = "success";
    otp_error_message = "";
  }

  abbrev pub use_result : OtpReadResult → OtpConfig D → OtpConfig D
  use_result r c =
      let bus = if is_negative r.i2c_bus then c.source.otp_i2c_bus else r.i2c_bus in
      let attempted = record c { otp_status = "attempted"; otp_result_i2c_bus = bus } in
      if not r.ok
      then record attempted { otp_status = "failed"; otp_error_message = r.error_message }
      else load (decode_ox01f10_otp reals r.bytes) attempted

module _ {D W : Type 0} (reals : Reals D) where
  abbrev pub read_with :
      Option (OtpSource → W → OtpReadResult × W) → OtpConfig D → W → OtpConfig D × W
  read_with none c w =
      (record c { otp_status = "failed"; otp_error_message = "otp reader is unavailable" }, w)
  read_with (some reader) c w = let (r, w') = reader c.source w in (use_result reals r c, w')

  unfoldable pub apply_otp_calibration : OtpReader W → OtpConfig D → W → OtpConfig D × W
  unfolding decode_ox01f10_otp
  apply_otp_calibration factory c w =
      if not c.read_otp_on_start || not factory.has_factory
      then (c, w)
      else if is_negative c.source.otp_i2c_bus
      then (
        record c {
          otp_status = "failed";
          otp_result_i2c_bus = c.source.otp_i2c_bus;
          otp_error_message = "camera.driver.otp_i2c_bus must be configured to read GMSL OTP";
        },
        w,
      )
      else read_with factory.reader c w
