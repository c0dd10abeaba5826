-- ===== src/Camera/Sensor.antt =====
-- The reading of the sensor's memory over I2C, from `i2c_write_register8` to `I2cOtpReader::read`,
-- in drivers/gmsl_v4l2_camera_driver/src/gmsl_v4l2_camera_runtime.cpp. The waits are not modelled;
-- `int` values are bit patterns.
pub mod Closed
use device_manager.Common.{
  ℕ, zero, suc, ◌+◌, ◌-◌, ◌*◌, ◌/◌, ◌%◌, ◌^◌, String, append, to_string, Bool, true, false, not,
  ◌&&◌, ◌||◌, List, [], ◌∷◌, ◌++◌, Option, none, some, ◌==◌, ltb, leb, if◌then◌else◌,
}
use device_manager.Drivers.Parameters.{Configured, valid, refused}
use device_manager.Camera.Otp.{Reals, CameraCalibration, to_hex, decode_ox01f10_otp}

-- The calls of the operating system on the one bus that is open: a transfer writes bytes to a
-- device, or writes bytes and then reads as many as told.
pub record I2c (W : Type 0) : Type 0 where
  pub open_bus : String → W → Bool × W
  pub close : W → W
  pub transfer : ℕ → List ℕ → W → Bool × W
  pub transfer_back : ℕ → List ℕ → ℕ → W → Option (List ℕ) × W
  pub strerror : W → String

pub record OtpReadResult : Type 0 where
  pub ok : Bool
  pub bytes : List ℕ
  pub i2c_bus : ℕ
  pub error_message : String

-- The fields of `GmslV4l2CameraConfig` that the reading takes.
pub record OtpSource : Type 0 where
  pub otp_i2c_bus : ℕ
  pub otp_i2c_address : ℕ
  pub otp_read_offset : ℕ
  pub otp_read_size : ℕ

abbrev pub is_negative : ℕ → Bool
is_negative n = leb (2 ^ 31) n

abbrev register_bytes : ℕ → List ℕ
register_bytes register = register / 256 % 256 ∷ register % 256 ∷ []

abbrev setup_registers : List (ℕ × ℕ)
setup_registers =
    (0xa10a, 0x00)
    ∷ (0xa11e, 0x7f)
    ∷ (0xa11d, 0x00)
    ∷ (0xa110, 0x80)
    ∷ (0xa10f, 0x18)
    ∷ (0xa10e, 0x4c)
    ∷ (0xa10d, 0x00)
    ∷ (0x8181, 0x00)
    ∷ (0xe400, 0x81)
    ∷ (0xe401, 0x00)
    ∷ (0xe402, 0x00)
    ∷ (0xe403, 0x01)
    ∷ (0xe404, 0x15)
    ∷ (0xe410, 0x33)
    ∷ (0xe411, 0x44)
    ∷ []

abbrev command_registers : ℕ → ℕ → List (ℕ × ℕ)
command_registers flash size =
    (0x8181, 0x00)
    ∷ (0xe400, 0x81)
    ∷ (0xe401, 0x00)
    ∷ (0xe402, 0x00)
    ∷ (0xe403, 0x05)
    ∷ (0xe404, 0x12)
    ∷ (0xe405, flash / 2 ^ 16 % 256)
    ∷ (0xe406, flash / 2 ^ 8 % 256)
    ∷ (0xe407, flash % 256)
    ∷ (0xe408, size / 2 ^ 8 % 256)
    ∷ (0xe409, size % 256)
    ∷ []

abbrev reset_registers : List (ℕ × ℕ)
reset_registers =
    (0x0107, 0x01)
    ∷ (0x8018, 0x00)
    ∷ (0x8019, 0x00)
    ∷ (0x801a, 0x00)
    ∷ (0x801b, 0xc0)
    ∷ (0x0100, 0x00)
    ∷ (0x0100, 0x01)
    ∷ []

-- An error's text behind what was done.
abbrev failed : String → Option String → Option String
failed what none = none
failed what (some e) = some (append what e)

module _ {W : Type 0} (os : I2c W) (address : ℕ) where
  -- Each of these gives the text of its error, if it fails.
  unfoldable pub i2c_write_register8 : ℕ → ℕ → W → Option String × W
  i2c_write_register8 register value w =
      let (written, w') = os.transfer address (register_bytes register ++ (value ∷ [])) w in
      (if written then none else some (os.strerror w'), w')

  -- The rest of the registers is written if one was.
  abbrev pub after_write :
      String → ℕ → Option String × W → (W → Option String × W) → Option String × W
  after_write stage register (none, w) more = more w
  after_write stage register (some m, w) more = (
    some (append stage (append ": write 0x" (append (to_hex 8 register) (append " failed: " m)))),
    w,
  )

  -- The loop over a list of registers, which `ox01f10_write_registers` and the reset share.
  unfoldable pub write_registers : List (ℕ × ℕ) → String → W → Option String × W
  unfolding i2c_write_register8
  write_registers [] stage w = (none, w)
  write_registers ((register, value) ∷ rs) stage w =
      after_write stage register (i2c_write_register8 register value w)
        (λ w'. write_registers rs stage w')

  unfoldable pub ox01f10_trigger_command : String → W → Option String × W
  unfolding i2c_write_register8
  ox01f10_trigger_command stage w =
      let (e, w') = i2c_write_register8 0x8160 1 w in
      (failed (append stage ": trigger failed: ") e, w')

  abbrev pub trigger_behind : String → Option String × W → Option String × W
  trigger_behind stage (some e, w) = (some e, w)
  trigger_behind stage (none, w) = ox01f10_trigger_command stage w

  -- The registers and the trigger behind them.
  abbrev pub command : List (ℕ × ℕ) → String → W → Option String × W
  command rs stage w = trigger_behind stage (write_registers rs stage w)

  unfoldable pub initialize_ox01f10_otp_access : W → Option String × W
  unfolding write_registers ox01f10_trigger_command
  initialize_ox01f10_otp_access w = command setup_registers "initialize OX01F10 OTP access" w

  abbrev pub answered : ℕ → Option (List ℕ) × W → Configured (List ℕ) × W
  answered flash (some bs, w) = (valid bs, w)
  answered flash (none, w) = (
    refused (
        append "read OX01F10 OTP window 0x"
          (append (to_hex 8 flash) (append " failed: " (os.strerror w)))),
    w,
  )

  abbrev pub read_block : ℕ → ℕ → Option String × W → Configured (List ℕ) × W
  read_block flash size (some e, w) = (refused e, w)
  read_block flash size (none, w) =
      answered flash (os.transfer_back address (register_bytes 0xe700) size w)

  unfoldable pub read_ox01f10_otp_window : ℕ → ℕ → W → Configured (List ℕ) × W
  unfolding write_registers ox01f10_trigger_command
  read_ox01f10_otp_window flash size w =
      if (size == 0) || ltb 256 size
      then (refused "OX01F10 OTP window size must be between 1 and 256 bytes", w)
      else read_block flash size
          (command (command_registers flash size) "read OX01F10 OTP window" w)

  unfoldable pub soft_reset_ox01f10_sensor : W → Option String × W
  unfolding write_registers
  soft_reset_ox01f10_sensor w = write_registers reset_registers "soft reset OX01F10" w

  abbrev pub after_window :
      Configured (List ℕ) × W → (List ℕ → W → Configured (List ℕ) × W) → Configured (List ℕ) × W
  after_window (refused e, w) more = (refused e, w)
  after_window (valid bs, w) more = more bs w

  abbrev pub chunk_size : ℕ → ℕ → ℕ
  chunk_size size offset = if ltb (size - offset) 256 then size - offset else 256

  -- The loop over the windows of 256 bytes, with the rounds left and the bytes so far.
  unfoldable pub read_windows : ℕ → ℕ → ℕ → ℕ → List ℕ → W → Configured (List ℕ) × W
  unfolding read_ox01f10_otp_window
  read_windows zero base size offset so_far w = (valid so_far, w)
  read_windows (suc n) base size offset so_far w =
      after_window (read_ox01f10_otp_window ((base + offset) % 2 ^ 32) (chunk_size size offset) w)
        (λ bs w'. read_windows n base size (offset + 256) (so_far ++ bs) w')

abbrev pub no_result : ℕ → String → OtpReadResult
no_result bus m = record { ok = false; bytes = []; i2c_bus = bus; error_message = m }

module _ {W : Type 0} (os : I2c W) (c : OtpSource) where
  abbrev pub read_size : ℕ
  read_size = if is_negative c.otp_read_size then 0 else c.otp_read_size

  abbrev address : ℕ
  address = c.otp_i2c_address % 2 ^ 16

  abbrev pub close_failed : ℕ → String → Option String × W → OtpReadResult × W
  close_failed bus m (none, w) = (no_result bus m, os.close w)
  close_failed bus m (some e, w) = (no_result bus (append m (append "; " e)), os.close w)

  -- The sensor is reset, and the bus closed.
  abbrev pub fail : ℕ → String → W → OtpReadResult × W
  fail bus m w = close_failed bus m (soft_reset_ox01f10_sensor os address w)

  abbrev pub finish : ℕ → String → List ℕ → Option String × W → OtpReadResult × W
  finish bus path bs (some e, w) = (no_result bus (append path (append ": " e)), os.close w)
  finish bus path bs (none, w) =
      (record { ok = true; bytes = bs; i2c_bus = bus; error_message = "" }, os.close w)

  abbrev pub read_all : ℕ → String → Configured (List ℕ) × W → OtpReadResult × W
  read_all bus path (refused e, w) = fail bus (append path (append ": " e)) w
  read_all bus path (valid bs, w) = finish bus path bs (soft_reset_ox01f10_sensor os address w)

  abbrev pub read_initialized : ℕ → String → Option String × W → OtpReadResult × W
  read_initialized bus path (some e, w) = (no_result bus (append path (append ": " e)), os.close w)
  read_initialized bus path (none, w) =
      read_all bus path
        (read_windows os address ((read_size + 255) / 256) c.otp_read_offset read_size 0 [] w)

  unfoldable pub read_otp_from_bus : ℕ → W → OtpReadResult × W
  unfolding initialize_ox01f10_otp_access read_windows soft_reset_ox01f10_sensor
  read_otp_from_bus bus w =
      let path = append "/dev/i2c-" (to_string bus) in
      let (opened, w') = os.open_bus path w in
      if not opened
      then (no_result bus (append path (append ": " (os.strerror w'))), w')
      else read_initialized bus path (initialize_ox01f10_otp_access os address w')

  module _ {D : Type 0} (reals : Reals D) where
    abbrev pub judged : OtpReadResult → Configured (List ℕ × CameraCalibration D) → OtpReadResult
    judged r (valid _) = r
    judged r (refused m) = record r { ok = false; error_message = m }

    -- What was read counts if it can be decoded. The text that would stand in for an empty one is
    -- left out, since none is empty.
    abbrev pub decoded : OtpReadResult → OtpReadResult
    decoded r = if not r.ok then r else judged r (decode_ox01f10_otp reals r.bytes)

    unfoldable pub read : W → OtpReadResult × W
    unfolding read_otp_from_bus decode_ox01f10_otp
    read w =
        let (r, w') = read_otp_from_bus c.otp_i2c_bus w in
        if is_negative c.otp_read_size || (c.otp_read_size == 0)
        then (no_result c.otp_i2c_bus "otp_read_size must be positive", w)
        else if is_negative c.otp_i2c_bus
        then (
          no_result c.otp_i2c_bus "camera.driver.otp_i2c_bus must be configured to read GMSL OTP",
          w,
        )
        else (decoded r, w')
