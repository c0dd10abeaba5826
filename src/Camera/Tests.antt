-- ===== src/Camera/Tests.antt =====
-- The theorems on the camera at concrete inputs.
use mathlib.Core.Option.{some-injective}
use device_manager.Common.{
  ℕ, ◌+◌, zero, suc, ◌≤◌, Bool, true, false, List, [], ◌∷◌, Option, none, some, ◌≡◌, refl, sym, ap,
  ◌∙◌, inl, inr, arith, length, take, drop, ltb, Bool-cases, if-true, if-false, if◌then◌else◌,
}
use device_manager.Drivers.Parameters.{valid}
use device_manager.Oradar.Scan.{replicate}
use device_manager.Camera.Otp.{Reals, decode_ox01f10_otp}
use device_manager.Camera.Otp.Image.{Contents, image, IsOtp, calibration_of}
use device_manager.Camera.Otp.Decoded.{decode_ox01f10_otp-image}
use device_manager.Camera.Sensor.{I2c, OtpSource, read}
use device_manager.Camera.Sensor.Closed.{IsBus, Answers, read-Answers}
use device_manager.Camera.Capture.{Backend, Capture, capture_loop}
use device_manager.Camera.Capture.Paced.{IsPaced, capture_loop-IsPaced}
use device_manager.Camera.Capture.{Backend, Capture, capture_loop}
use device_manager.Camera.Capture.Paced.{IsPaced, capture_loop-IsPaced}

abbrev bit_patterns : Reals ℕ
bit_patterns = record { of_bits = λ n. n; null = 0; one = 0x3ff0000000000000 }

-- A fisheye camera with a serial number of three bytes, in a memory with 55 unused bytes.
abbrev fisheye : Contents
fisheye = record {
  before = replicate 0x60 7;
  width = 1280;
  height = 720;
  model = 2;
  numbers =
      1 ∷ 2 ∷ 3 ∷ 4 ∷ 5 ∷ 6 ∷ 7 ∷ 8 ∷ 9 ∷ 10 ∷ 11 ∷ 12 ∷ 0x3fb999999999999a ∷ 14 ∷ 15 ∷ 16 ∷ [];
  spare = replicate 55 0;
  serial = 0x41 ∷ 0x31 ∷ 0x37 ∷ [];
  pad = replicate 13 0xff;
  gap = replicate 0x11 1;
  behind = 9 ∷ [];
}

fisheye-IsOtp : IsOtp fisheye
fisheye-IsOtp = record {
  length_before = refl;
  width_fits = omega arith;
  height_fits = omega arith;
  numbers_fit = ground arith;
  numbers_there = omega arith;
  length_block = refl;
  serial_printable = ground arith;
  filled = inr refl;
  length_text = refl;
  length_gap = refl;
}

decode_ox01f10_otp-image_example :
    decode_ox01f10_otp bit_patterns (image fisheye)
    ≡ valid (0x41 ∷ 0x31 ∷ 0x37 ∷ [], calibration_of bit_patterns fisheye)
decode_ox01f10_otp-image_example = decode_ox01f10_otp-image fisheye fisheye-IsOtp bit_patterns

-- A bus that may be open, to a sensor with the bytes that it will send.
record Bus : Type 0 where
  is_open : Bool
  left : List ℕ

length-take : (n : ℕ) (xs : List ℕ) → n ≤ length xs → length (take n xs) ≡ n
length-take zero xs h = refl
length-take (suc n) [] h = absurd (omega arith)
length-take (suc n) (x ∷ xs) h = ap suc (length-take n xs (omega arith))

abbrev send : ℕ → List ℕ → Option (List ℕ)
send size left = if ltb (length left) size then none else some (take size left)

send-length :
    (size : ℕ) (left answer : List ℕ) → send size left ≡ some answer → length answer ≡ size
send-length size left answer e = elim (Bool-cases (ltb (length left) size)) [
  | inl short ↦ absurd (cc (if-true (ltb (length left) size) none (some (take size left)) short, e))
  | inr long ↦
      ap length (some-injective _ _ (sym e ∙ if-false (ltb (length left) size) none _ long))
      ∙ length-take size left (ground arith)
]

abbrev machine : I2c Bus
machine = record {
  open_bus = λ path w. (true, record w { is_open = true });
  close = λ w. record w { is_open = false };
  transfer = λ address bs w. (true, w);
  transfer_back = λ address bs size w. (send size w.left, record w { left = drop size w.left });
  strerror = λ w. "Remote I/O error";
}

abbrev open_of : Bus → Bool
open_of w = w.is_open

machine-IsBus : IsBus machine open_of
machine-IsBus = record {
  refuses = λ path w e. cc;
  closes = λ w. refl;
  gives = λ address bs size w answer e. send-length size w.left answer e;
}

abbrev source : OtpSource
source = record {
  otp_i2c_bus = 2;
  otp_i2c_address = 0x36;
  otp_read_offset = 0x10000;
  otp_read_size = 0x146;
}

abbrev closed_bus : Bus
closed_bus = record { is_open = false; left = image fisheye }

-- The memory comes in two windows.
read-Answers_example :
    Answers bit_patterns open_of 0x146 (read machine source bit_patterns closed_bus)
read-Answers_example =
    read-Answers machine open_of machine-IsBus source bit_patterns closed_bus refl

abbrev capturing : Capture ℕ ℕ
capturing = record {
  config = record {
    video_device = "/dev/video0";
    serial_number = "A17";
    fps = 10;
    read_timeout_ms = 1000;
    read_otp_on_start = true;
    otp_status = "success";
    otp_result_i2c_bus = 2;
    otp_error_message = "";
  };
  running = true;
  has_capture = true;
  has_handler = true;
  last_connected = none;
  events = [];
  next_publish_at = 0;
  publish_fps = 10;
  published = [];
  device = 0;
}

-- A frame every 40 milliseconds, on a clock that stands still between the frames.
abbrev fast : Backend ℕ ℕ
fast = record {
  read_frame = λ timeout t. (some t, "", t + 40000000);
  steady_now = λ t. (t, t);
  now = λ t. (t, t);
}

capture_loop-IsPaced_example :
    IsPaced 10 0
      (capture_loop fast (false ∷ false ∷ false ∷ false ∷ false ∷ true ∷ false ∷ []) capturing)
capture_loop-IsPaced_example =
    capture_loop-IsPaced fast 10 0 (omega arith)
      (false ∷ false ∷ false ∷ false ∷ false ∷ true ∷ false ∷ []) capturing
      (refl, refl, (tt, omega arith, tt))
