-- ===== src/Camera/Sensor/Closed.antt =====
-- How a reading of the sensor's memory ends.
use device_manager.Common.{
  ℕ, zero, to_string, suc, ◌+◌, ◌-◌, ◌*◌, ◌/◌, ◌≤◌, String, append, Bool, true, false, not, ◌||◌,
  List, [], ◌++◌, Option, none, some, ◌≡◌, refl, sym, ap, ◌∙◌, arith, length, length-append, ◌==◌,
  ltb, both_branches, inl, inr, Bool-cases, if-true, if-false, subst,
}
use device_manager.Drivers.Parameters.{Configured, valid, refused}
use device_manager.Camera.Otp.{Reals, CameraCalibration, decode_ox01f10_otp}
use device_manager.Camera.Sensor.{
  I2c, OtpReadResult, OtpSource, initialize_ox01f10_otp_access, answered, read_block,
  read_ox01f10_otp_window, after_window, chunk_size, read_windows, read_size, close_failed, finish,
  read_all, read_initialized, read_otp_from_bus, judged, decoded, read, is_negative,
}

-- A bus is open from a successful `open` to the next `close`; a read that succeeds gives as many
-- bytes as were asked for.
pub record IsBus {W : Type 0} (os : I2c W) (is_open : W → Bool) : Type 0 where
  pub refuses :
      (path : String) (w : W)
      → (os.open_bus path w).0 ≡ false
      → is_open (os.open_bus path w).1 ≡ is_open w
  pub closes : (w : W) → is_open (os.close w) ≡ false
  pub gives :
      (address : ℕ) (bs : List ℕ) (size : ℕ) (w : W) (answer : List ℕ)
      → (os.transfer_back address bs size w).0 ≡ some answer
      → length answer ≡ size

-- What a run leaves: the bytes, if it succeeds, are as many as asked for.
abbrev HasLength : {W : Type 0} → ℕ → Configured (List ℕ) × W → Type 0
HasLength size (valid bs, w) = length bs ≡ size
HasLength size (refused e, w) = Unit

abbrev is_valid : {A : Type 0} → Configured A → Bool
is_valid (valid x) = true
is_valid (refused e) = false

module _ {W : Type 0} (os : I2c W) (is_open : W → Bool) (law : IsBus os is_open) (address : ℕ) where
  answered-HasLength :
      (flash size : ℕ) (x : Option (List ℕ) × W)
      → ((answer : List ℕ) → x.0 ≡ some answer → length answer ≡ size)
      → HasLength size (answered os address flash x)
  answered-HasLength flash size (some bs, w) h = h bs refl
  answered-HasLength flash size (none, w) h = tt

  read_block-HasLength :
      (flash size : ℕ) (x : Option String × W) → HasLength size (read_block os address flash size x)
  read_block-HasLength flash size (some e, w) = tt
  read_block-HasLength flash size (none, w) =
      answered-HasLength flash size _ (λ answer e. law.gives address _ size w answer e)

  window-HasLength :
      (flash size : ℕ) (w : W) → HasLength size (read_ox01f10_otp_window os address flash size w)
  unfolding read_ox01f10_otp_window
  window-HasLength flash size w =
      both_branches (HasLength {W = W} size) ((size == 0) || ltb 256 size) _ _ tt
        (read_block-HasLength flash size _)

  after_window-HasLength :
      (chunk size : ℕ) (x : Configured (List ℕ) × W) (more : List ℕ → W → Configured (List ℕ) × W)
      → HasLength chunk x
      → ((bs : List ℕ) (w : W) → length bs ≡ chunk → HasLength size (more bs w))
      → HasLength size (after_window os address x more)
  after_window-HasLength chunk size (refused e, w) more h k = tt
  after_window-HasLength chunk size (valid bs, w) more h k = k bs w h

  chunk_size_lem :
      (size offset : ℕ)
      → chunk_size os address size offset + (size - (offset + 256)) ≡ size - offset
  chunk_size_lem size offset = ground arith

  read_windows-HasLength :
      (n base size offset : ℕ) (so_far : List ℕ) (w : W)
      → length so_far + (size - offset) ≡ size
      → size ≤ offset + 256 * n
      → HasLength size (read_windows os address n base size offset so_far w)
  unfolding read_windows
  read_windows-HasLength zero base size offset so_far w h le = omega arith
  read_windows-HasLength (suc n) base size offset so_far w h le =
      after_window-HasLength (chunk_size os address size offset) size _ _
        (window-HasLength _ (chunk_size os address size offset) w)
        (λ bs w' e.
          read_windows-HasLength n base size (offset + 256) (so_far ++ bs) w'
            (omega (arith, length-append so_far bs, chunk_size_lem size offset, e, h))
            (omega arith))

-- The bus is closed, and a success has as many bytes as asked for.
abbrev Ended : {W : Type 0} → (W → Bool) → ℕ → OtpReadResult × W → Type 0
Ended is_open size (r, w) = (is_open w ≡ false) × (r.ok ≡ true → length r.bytes ≡ size)

-- The same, and a success can be decoded.
abbrev pub Answers : {D W : Type 0} → Reals D → (W → Bool) → ℕ → OtpReadResult × W → Type 0
Answers reals is_open size (r, w) =
    (is_open w ≡ false)
    × (r.ok ≡ true → (length r.bytes ≡ size) × (is_valid (decode_ox01f10_otp reals r.bytes) ≡ true))

module _ {W : Type 0} (os : I2c W) (is_open : W → Bool) (law : IsBus os is_open)
    (c : OtpSource) where
  fail-Ended :
      (bus : ℕ) (m : String) (x : Option String × W) (size : ℕ)
      → Ended is_open size (close_failed os c bus m x)
  fail-Ended bus m (none, w) size = (law.closes w, (λ e. cc))
  fail-Ended bus m (some e, w) size = (law.closes w, (λ e. cc))

  finish-Ended :
      (bus : ℕ) (path : String) (bs : List ℕ) (x : Option String × W) (size : ℕ)
      → length bs ≡ size
      → Ended is_open size (finish os c bus path bs x)
  finish-Ended bus path bs (some e, w) size h = (law.closes w, (λ e. cc))
  finish-Ended bus path bs (none, w) size h = (law.closes w, (λ e. h))

  read_all-Ended :
      (bus : ℕ) (path : String) (x : Configured (List ℕ) × W) (size : ℕ)
      → HasLength size x
      → Ended is_open size (read_all os c bus path x)
  read_all-Ended bus path (refused e, w) size h = fail-Ended bus _ _ size
  read_all-Ended bus path (valid bs, w) size h = finish-Ended bus path bs _ size h

  read_initialized-Ended :
      (bus : ℕ) (path : String) (x : Option String × W)
      → Ended is_open (read_size os c) (read_initialized os c bus path x)
  read_initialized-Ended bus path (some e, w) = (law.closes w, (λ e. cc))
  read_initialized-Ended bus path (none, w) = read_all-Ended bus path _ (read_size os c) (
      read_windows-HasLength os is_open law _ ((read_size os c + 255) / 256) c.otp_read_offset
        (read_size os c) 0 [] w (omega arith) (omega arith))

  read_otp_from_bus-Ended :
      (bus : ℕ) (w : W)
      → is_open w ≡ false
      → Ended is_open (read_size os c) (read_otp_from_bus os c bus w)
  unfolding read_otp_from_bus
  read_otp_from_bus-Ended bus w h =
      let path = append "/dev/i2c-" (to_string bus) in
      let (opened, w') = os.open_bus path w in
      let Good = Ended is_open (read_size os c) in
      elim (Bool-cases opened) [
        | inl good ↦
            subst Good (sym (if-false (not opened) _ _ (ap not good)))
              (read_initialized-Ended bus path (initialize_ox01f10_otp_access os _ w'))
        | inr bad ↦
            subst Good (sym (if-true (not opened) _ _ (ap not bad)))
              (law.refuses path w bad ∙ h, (λ e. cc))
      ]

  module _ {D : Type 0} (reals : Reals D) where
    judged-Answers :
        (r : OtpReadResult) (x : Configured (List ℕ × CameraCalibration D)) (w : W) (size : ℕ)
        → x ≡ decode_ox01f10_otp reals r.bytes
        → Ended is_open size (r, w)
        → Answers reals is_open size (judged os c reals r x, w)
    judged-Answers r (valid x) w size e (shut, h) = (shut, (λ ok. (h ok, sym (ap is_valid e))))
    judged-Answers r (refused m) w size e (shut, h) = (shut, (λ ok. cc))

    decoded-Answers :
        (r : OtpReadResult) (w : W) (size : ℕ)
        → Ended is_open size (r, w)
        → Answers reals is_open size (decoded os c reals r, w)
    decoded-Answers r w size h =
        let Good = λ (x : OtpReadResult). Answers reals is_open size (x, w) in
        elim (Bool-cases r.ok) [
          | inl good ↦
              subst Good (sym (if-false (not r.ok) _ _ (ap not good)))
                (judged-Answers r _ w size refl h)
          | inr bad ↦
              subst Good (sym (if-true (not r.ok) _ _ (ap not bad))) (h.0, (λ ok. absurd cc))
        ]

    -- Whatever fails on the way, a bus that was closed is closed after the reading; and a reading
    -- that says that it went well has as many bytes as the configuration asks for, which can be
    -- decoded.
    pub read-Answers :
        (w : W) → is_open w ≡ false → Answers reals is_open c.otp_read_size (read os c reals w)
    unfolding read
    read-Answers w h =
        let Good = Answers reals is_open c.otp_read_size in
        let none_asked = is_negative c.otp_read_size || (c.otp_read_size == 0) in
        elim (Bool-cases none_asked) [
          | inl good ↦ subst Good (sym (if-true none_asked _ _ good)) (h, (λ e. cc))
          | inr bad ↦
              let size : read_size os c ≡ c.otp_read_size =
                if-false (is_negative c.otp_read_size) _ _ (ground (arith, bad)) in
              let (r, w') = read_otp_from_bus os c c.otp_i2c_bus w in
              let ended = read_otp_from_bus-Ended c.otp_i2c_bus w h in
              subst Good (sym (if-false none_asked _ _ bad)) (
                both_branches Good (is_negative c.otp_i2c_bus) _ _ (h, (λ e. cc))
                  (decoded-Answers r w' c.otp_read_size
                    (subst (λ n. Ended is_open n (r, w')) size ended)))
        ]
