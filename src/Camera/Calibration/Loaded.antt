-- ===== src/Camera/Calibration/Loaded.antt =====
-- What is in the sensor's memory gets into the configuration.
use device_manager.Common.{
  ℕ, true, false, not, ◌||◌, some, ◌≡◌, ap, ◌∙◌, arith, if-false, if◌then◌else◌,
}
use device_manager.Camera.Otp.{Reals, decode_ox01f10_otp}
use device_manager.Camera.Otp.Image.{Contents, image, IsOtp, calibration_of}
use device_manager.Camera.Otp.Decoded.{decode_ox01f10_otp-image}
use device_manager.Camera.Sensor.{OtpReadResult, OtpSource, is_negative}
use device_manager.Camera.Calibration.{OtpConfig, OtpReader, load, apply_otp_calibration}

-- A result that holds a memory, from a bus.
abbrev HoldsImage : Contents → OtpReadResult → Type 0
HoldsImage c r = (r.ok ≡ true) × (r.bytes ≡ image c) × (is_negative r.i2c_bus ≡ false)

module _ {D W : Type 0} (reals : Reals D) where
  -- If the memory is to be read and a bus is set, and the reader gives a well-formed memory, then
  -- the configuration gets its serial number and its calibration, the bus of the result and the
  -- status of a success with no error, and keeps the rest.
  apply_otp_calibration-loads :
      (contents : Contents)
      → IsOtp contents
      → (reader : OtpSource → W → OtpReadResult × W) (c : OtpConfig D) (w : W)
      → c.read_otp_on_start ≡ true
      → is_negative c.source.otp_i2c_bus ≡ false
      → HoldsImage contents (reader c.source w).0
      → (apply_otp_calibration reals (record { has_factory = true; reader = some reader }) c w).0
        ≡ record c {
          serial_number = contents.serial;
          calibration = some (calibration_of reals contents);
          otp_status = "success";
          otp_result_i2c_bus = (reader c.source w).0.i2c_bus;
          otp_error_message = "";
        }
  unfolding apply_otp_calibration
  apply_otp_calibration-loads contents law reader c w start bus (ok, bytes, from) =
      let factory : OtpReader W = record { has_factory = true; reader = some reader } in
      let r = (reader c.source w).0 in
      let decode =
        ap (decode_ox01f10_otp reals) bytes ∙ decode_ox01f10_otp-image contents law reals in
      ap (λ (x : OtpConfig D × W). x.0)
        (if-false (not c.read_otp_on_start || not true) _ _ (ground (arith, start))
          ∙ if-false (is_negative c.source.otp_i2c_bus) _ _ bus)
      ∙ if-false (not r.ok) _ _ (ap not ok)
      ∙ ap
          (λ x. load reals x (record c {
            otp_status = "attempted";
            otp_result_i2c_bus = if is_negative r.i2c_bus then c.source.otp_i2c_bus else r.i2c_bus;
          }))
          decode
      ∙ ap
          (λ (b : ℕ). record c {
            serial_number = contents.serial;
            calibration = some (calibration_of reals contents);
            otp_status = "success";
            otp_result_i2c_bus = b;
            otp_error_message = "";
          })
          (if-false (is_negative r.i2c_bus) _ _ from)
