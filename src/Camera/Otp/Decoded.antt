-- ===== src/Camera/Otp/Decoded.antt =====
-- The parts of the memory where `decode_ox01f10_otp` looks for them.
use device_manager.Common.{
  ℕ, ◌+◌, ◌*◌, ◌<◌, true, false, ◌||◌, List, [], ◌∷◌, ◌++◌, ◌≡◌, refl, sym, ap, ◌∙◌, ◌⊎◌, inl, inr,
  arith, append_assoc, length, length-append, get_or, get_or-at, take, take-length_of,
  drop-length_of, ◌==◌, ==_iff, not, ltb, empty, if-false,
}
use device_manager.Drivers.Parameters.{valid}
use device_manager.Camera.Otp.{
  Reals, read_le_u16, read_le_u32, raw_double, crc32_of, range, crc32, all_bytes_are, serial_text,
  read_otp_serial_number, read_le_double, read_calibration, decode_ox01f10_otp,
}
use device_manager.Camera.Otp.Bytes.{
  le_bytes, words, read_le_u16-le_bytes, read_le_u32-le_bytes, length-le_bytes, raw_double-words,
}
use device_manager.Camera.Otp.Image.{
  Contents, block, text, behind_text, behind_block, image, IsOtp, calibration_of,
  all_bytes_are-append, serial_text-serial, serial-not_blank, IsSerial-All, IsSerial-empty,
  crc32_of-lt, ltb-false,
}

module _ (c : Contents) (law : IsOtp c) where
  abbrev before_text : List ℕ
  before_text = (c.before ++ block c) ++ le_bytes 4 (crc32_of (block c))

  at_crc4 : image c ≡ (c.before ++ block c) ++ behind_block c
  at_crc4 = sym (append_assoc c.before (block c) (behind_block c))

  at_text : image c ≡ before_text ++ (text c ++ behind_text c)
  at_text =
      at_crc4
      ∙ sym (
          append_assoc (c.before ++ block c) (le_bytes 4 (crc32_of (block c)))
            (text c ++ behind_text c))

  length-before_block : length (c.before ++ block c) ≡ 0x11c
  length-before_block =
      omega (arith, length-append c.before (block c), law.length_before, law.length_block)

  length-before_text : length before_text ≡ 0x120
  length-before_text =
      let crc = le_bytes 4 (crc32_of (block c)) in
      omega (
        arith,
        length-append (c.before ++ block c) crc,
        length-before_block,
        length-le_bytes 4 (crc32_of (block c)),
      )

  range-block : range (image c) 0x60 0x11c ≡ block c
  range-block =
      ap (λ xs. take 0xbc xs)
        (drop-length_of 0x60 c.before (block c ++ behind_block c) (sym law.length_before))
      ∙ take-length_of 0xbc (block c) (behind_block c) (sym law.length_block)

  range-text : range (image c) 0x120 0x130 ≡ text c
  range-text =
      ap (λ xs. range xs 0x120 0x130) at_text
      ∙ ap (λ xs. take 0x10 xs)
          (drop-length_of 0x120 before_text (text c ++ behind_text c) (sym length-before_text))
      ∙ take-length_of 0x10 (text c) (behind_text c) (sym law.length_text)

  stored_crc4 : read_le_u32 (image c) 0x11c ≡ crc32_of (block c)
  stored_crc4 =
      read_le_u32-le_bytes (crc32_of (block c)) 0x11c (c.before ++ block c)
        (text c ++ behind_text c) (image c) (crc32_of-lt (block c)) (sym length-before_block)
        at_crc4

  abbrev before_crc5 : List ℕ
  before_crc5 = (before_text ++ text c) ++ c.gap

  at_crc5 : image c ≡ before_crc5 ++ (le_bytes 4 (crc32_of (text c)) ++ c.behind)
  at_crc5 =
      at_text
      ∙ sym (append_assoc before_text (text c) (behind_text c))
      ∙ sym
          (append_assoc (before_text ++ text c) c.gap (le_bytes 4 (crc32_of (text c)) ++ c.behind))

  length-before_crc5 : length before_crc5 ≡ 0x141
  length-before_crc5 = omega (
    arith,
    length-append (before_text ++ text c) c.gap,
    length-append before_text (text c),
    length-before_text,
    law.length_text,
    law.length_gap,
  )

  stored_crc5 : read_le_u32 (image c) 0x141 ≡ crc32_of (text c)
  stored_crc5 =
      read_le_u32-le_bytes (crc32_of (text c)) 0x141 before_crc5 c.behind (image c)
        (crc32_of-lt (text c)) (sym length-before_crc5) at_crc5

  serial_read : read_otp_serial_number (image c) ≡ c.serial
  unfolding read_otp_serial_number
  serial_read =
      ap serial_text range-text
      ∙ serial_text-serial c.serial c.pad (IsSerial-All c.serial law.serial_printable) law.filled

  long_enough : ltb (length (image c)) 0x145 ≡ false
  long_enough =
      let crc = le_bytes 4 (crc32_of (text c)) in
      let whole : length (image c) ≡ 0x141 + length (crc ++ c.behind) =
        ap length at_crc5
        ∙ length-append before_crc5 (crc ++ c.behind)
        ∙ ap (λ n. n + length (crc ++ c.behind)) length-before_crc5 in
      let four = length-le_bytes 4 (crc32_of (text c)) in
      let tail = length-append crc c.behind in ltb-false _ 0x145 (omega (arith, whole, four, tail))

  not_blank : (v : ℕ) → (v ≡ 0) ⊎ (v ≡ 0xff) → all_bytes_are (image c) v ≡ false
  not_blank v e =
      let here = serial-not_blank c.serial c.pad v law.serial_printable e in
      let split = all_bytes_are-append (text c) (behind_text c) v in
      let whole =
        ap (λ xs. all_bytes_are xs v) at_text
        ∙ all_bytes_are-append before_text (text c ++ behind_text c) v in
      ground (arith, here, split, whole)

  abbrev before_height : List ℕ
  before_height = c.before ++ le_bytes 2 c.width

  abbrev before_model : List ℕ
  before_model = before_height ++ le_bytes 2 c.height

  abbrev behind_model : List ℕ
  behind_model = words c.numbers ++ c.spare

  at_width :
      image c
      ≡ c.before
        ++ (le_bytes 2 c.width
            ++ ((le_bytes 2 c.height ++ (c.model ∷ behind_model)) ++ behind_block c))
  at_width =
      ap (λ xs. c.before ++ xs)
        (append_assoc (le_bytes 2 c.width) (le_bytes 2 c.height ++ (c.model ∷ behind_model))
          (behind_block c))

  at_height :
      image c
      ≡ before_height ++ (le_bytes 2 c.height ++ ((c.model ∷ behind_model) ++ behind_block c))
  at_height =
      at_width
      ∙ sym (
          append_assoc c.before (le_bytes 2 c.width)
            ((le_bytes 2 c.height ++ (c.model ∷ behind_model)) ++ behind_block c))
      ∙ ap (λ xs. before_height ++ xs)
          (append_assoc (le_bytes 2 c.height) (c.model ∷ behind_model) (behind_block c))

  at_model : image c ≡ before_model ++ (c.model ∷ (behind_model ++ behind_block c))
  at_model =
      at_height
      ∙ sym (
          append_assoc before_height (le_bytes 2 c.height)
            ((c.model ∷ behind_model) ++ behind_block c))

  at_numbers :
      image c ≡ (before_model ++ (c.model ∷ [])) ++ (words c.numbers ++ (c.spare ++ behind_block c))
  at_numbers =
      at_model
      ∙ sym (append_assoc before_model (c.model ∷ []) (behind_model ++ behind_block c))
      ∙ ap (λ xs. (before_model ++ (c.model ∷ [])) ++ xs)
          (append_assoc (words c.numbers) c.spare (behind_block c))

  length-before_height : length before_height ≡ 0x62
  length-before_height =
      omega (arith, length-append c.before (le_bytes 2 c.width), law.length_before)

  length-before_model : length before_model ≡ 0x64
  length-before_model =
      omega (arith, length-append before_height (le_bytes 2 c.height), length-before_height)

  width_read : read_le_u16 (image c) 0x60 ≡ c.width
  width_read =
      read_le_u16-le_bytes c.width 0x60 c.before _ (image c) law.width_fits (sym law.length_before)
        at_width

  height_read : read_le_u16 (image c) 0x62 ≡ c.height
  height_read =
      read_le_u16-le_bytes c.height 0x62 before_height _ (image c) law.height_fits
        (sym length-before_height) at_height

  model_read : get_or (image c) 0x64 0 ≡ c.model
  model_read =
      ap (λ xs. get_or xs 0x64 0) at_model
      ∙ get_or-at 0x64 before_model 0 (c.model ∷ (behind_model ++ behind_block c)) 0
          (omega (arith, length-before_model))

  number_read :
      (i offset : ℕ)
      → i < 16
      → offset ≡ 0x65 + 8 * i
      → raw_double (image c) offset ≡ get_or c.numbers i 0
  number_read i offset lt e =
      raw_double-words c.numbers i offset (before_model ++ (c.model ∷ [])) _ (image c)
        law.numbers_fit (omega (arith, law.numbers_there))
        (omega (arith, length-append before_model (c.model ∷ []), length-before_model)) at_numbers

  calibration_read :
      {D : Type 0} (reals : Reals D) → read_calibration reals (image c) ≡ calibration_of reals c
  unfolding calibration_of
  calibration_read reals =
      let at : (i offset : ℕ)
          → i < 16
          → offset ≡ 0x65 + 8 * i
          → read_le_double reals (image c) offset ≡ reals.of_bits (get_or c.numbers i 0) =
        λ i offset lt e. ap reals.of_bits (number_read i offset lt e) in
      rw
        (
          width_read,
          height_read,
          model_read,
          at 0 0x65 (omega arith) refl,
          at 1 0x6d (omega arith) refl,
          at 2 0x75 (omega arith) refl,
          at 3 0x7d (omega arith) refl,
          at 4 0x85 (omega arith) refl,
          at 5 0x8d (omega arith) refl,
          at 6 0x95 (omega arith) refl,
          at 7 0x9d (omega arith) refl,
          at 8 0xa5 (omega arith) refl,
          at 12 0xc5 (omega arith) refl,
          at 13 0xcd (omega arith) refl,
          at 14 0xd5 (omega arith) refl,
          at 15 0xdd (omega arith) refl,
        )
        refl

  -- A memory whose two blocks are in their places, with their checksums behind them, and which has
  -- a printable serial number, is decoded to that serial number and to the calibration that was
  -- written: the size, the focal lengths and the centre, and the four numbers of the equidistant
  -- model or the five of the other one.
  pub decode_ox01f10_otp-image :
      {D : Type 0} (reals : Reals D)
      → decode_ox01f10_otp reals (image c) ≡ valid (c.serial, calibration_of reals c)
  unfolding decode_ox01f10_otp
  decode_ox01f10_otp-image reals =
      let otp = image c in
      let sum4 : (crc32 otp 0x60 0x11c == read_le_u32 otp 0x11c) ≡ true =
        (==_iff _ _).1 (ap crc32_of range-block ∙ sym stored_crc4) in
      let sum5 : (crc32 otp 0x120 0x130 == read_le_u32 otp 0x141) ≡ true =
        (==_iff _ _).1 (ap crc32_of range-text ∙ sym stored_crc5) in
      let zeros = not_blank 0 (inl refl) in
      let ones = not_blank 0xff (inr refl) in
      let named : empty (read_otp_serial_number otp) ≡ false =
        ap empty serial_read ∙ IsSerial-empty c.serial law.serial_printable in
      if-false _ _ _ long_enough
      ∙ if-false (all_bytes_are otp 0 || all_bytes_are otp 0xff) _ _ (ground (arith, zeros, ones))
      ∙ if-false _ _ _ (ap not sum4)
      ∙ if-false _ _ _ (ap not sum5)
      ∙ if-false _ _ _ named
      ∙ ap (λ s. valid (s, read_calibration reals otp)) serial_read
      ∙ ap (λ k. valid (c.serial, k)) (calibration_read reals)
