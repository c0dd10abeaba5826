-- ===== src/Camera/Otp/Image.antt =====
-- What is written into the sensor's memory is decoded from it.
use device_manager.Common.{
  ℕ, ◌^◌, ◌≤◌, ◌<◌, false, ◌&&◌, List, [], ◌∷◌, ◌++◌, ◌≡◌, refl, ◌⊎◌, inl, inr, arith, length,
  get_or, All, ◌==◌, ltb, empty, if◌then◌else◌,
}
use device_manager.Camera.Otp.{
  Reals, CameraCalibration, crc32_of, all_bytes_are, serial_text, matrices,
}
use device_manager.Camera.Otp.Bytes.{le_bytes, words}

-- The parts of the memory: what lies around the two blocks, and what is in them. `numbers` are the
-- bit patterns of the numbers behind the model.
pub record Contents : Type 0 where
  pub before : List ℕ
  pub width : ℕ
  pub height : ℕ
  pub model : ℕ
  pub numbers : List ℕ
  pub spare : List ℕ
  pub serial : List ℕ
  pub pad : List ℕ
  pub gap : List ℕ
  pub behind : List ℕ

abbrev pub block : Contents → List ℕ
block c = le_bytes 2 c.width ++ (le_bytes 2 c.height ++ (c.model ∷ (words c.numbers ++ c.spare)))

abbrev pub text : Contents → List ℕ
text c = c.serial ++ c.pad

abbrev pub behind_text : Contents → List ℕ
behind_text c = c.gap ++ (le_bytes 4 (crc32_of (text c)) ++ c.behind)

abbrev pub behind_block : Contents → List ℕ
behind_block c = le_bytes 4 (crc32_of (block c)) ++ (text c ++ behind_text c)

-- The memory, with the checksum of a block behind it.
abbrev pub image : Contents → List ℕ
image c = c.before ++ (block c ++ behind_block c)

abbrev pub IsPrintable : ℕ → Type 0
IsPrintable b = (0x20 ≤ b) × (b ≤ 0x7e)

-- A serial number is there, and is printable; the filling behind it begins with 0x00 or 0xff.
abbrev pub IsSerial : List ℕ → Type 0
IsSerial [] = ⊥
IsSerial (b ∷ bs) = IsPrintable b × All IsPrintable bs

abbrev pub IsFilling : List ℕ → Type 0
IsFilling [] = Unit
IsFilling (b ∷ bs) = (b ≡ 0) ⊎ (b ≡ 0xff)

-- The parts have their lengths, and the numbers fit their places.
pub record IsOtp (c : Contents) : Type 0 where
  pub length_before : length c.before ≡ 0x60
  pub width_fits : c.width < 2 ^ 16
  pub height_fits : c.height < 2 ^ 16
  pub numbers_fit : All (λ d. d < 2 ^ 64) c.numbers
  pub numbers_there : 16 ≤ length c.numbers
  pub length_block : length (block c) ≡ 0xbc
  pub serial_printable : IsSerial c.serial
  pub filled : IsFilling c.pad
  pub length_text : length (text c) ≡ 0x10
  pub length_gap : length c.gap ≡ 0x11

-- The calibration by the numbers' places.
unfoldable pub calibration_of : {D : Type 0} → Reals D → Contents → CameraCalibration D
calibration_of reals c =
    let n = λ (i : ℕ). reals.of_bits (get_or c.numbers i 0) in
    matrices reals (n 0) (n 1) (n 2) (n 3) (if c.model == 2 then "equidistant" else "plumb_bob")
      (if c.model == 2
        then (n 12 ∷ n 13 ∷ n 14 ∷ n 15 ∷ [])
        else (n 4 ∷ n 5 ∷ n 6 ∷ n 7 ∷ n 8 ∷ []))
      c.width c.height

pub all_bytes_are-append :
    (xs ys : List ℕ) (v : ℕ)
    → all_bytes_are (xs ++ ys) v ≡ (all_bytes_are xs v && all_bytes_are ys v)
unfolding all_bytes_are
all_bytes_are-append [] ys v = refl
all_bytes_are-append (x ∷ xs) ys v = ground (arith, all_bytes_are-append xs ys v)

serial_text-filling : (pad : List ℕ) → IsFilling pad → serial_text pad ≡ []
unfolding serial_text
serial_text-filling [] h = refl
serial_text-filling (b ∷ bs) (inl e) = ground arith
serial_text-filling (b ∷ bs) (inr e) = ground arith

pub serial_text-serial :
    (bs pad : List ℕ) → All IsPrintable bs → IsFilling pad → serial_text (bs ++ pad) ≡ bs
unfolding serial_text
serial_text-serial [] pad p h = serial_text-filling pad h
serial_text-serial (b ∷ bs) pad (p, ps) h = ground (arith, serial_text-serial bs pad ps h)

pub serial-not_blank :
    (bs pad : List ℕ) (v : ℕ)
    → IsSerial bs
    → (v ≡ 0) ⊎ (v ≡ 0xff)
    → all_bytes_are (bs ++ pad) v ≡ false
unfolding all_bytes_are
serial-not_blank [] pad v h e = absurd h
serial-not_blank (b ∷ bs) pad v ((lo, hi), h) (inl e) = ground arith
serial-not_blank (b ∷ bs) pad v ((lo, hi), h) (inr e) = ground arith

pub IsSerial-All : (bs : List ℕ) → IsSerial bs → All IsPrintable bs
IsSerial-All [] h = absurd h
IsSerial-All (b ∷ bs) h = h

pub IsSerial-empty : (bs : List ℕ) → IsSerial bs → empty bs ≡ false
IsSerial-empty [] h = absurd h
IsSerial-empty (b ∷ bs) h = refl

pub ltb-false : (a b : ℕ) → b ≤ a → ltb a b ≡ false
ltb-false a b h = ground arith

pub crc32_of-lt : (bs : List ℕ) → crc32_of bs < 2 ^ 32
unfolding crc32_of
crc32_of-lt bs = omega arith
