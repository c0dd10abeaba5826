-- ===== src/Imu/Decoder/Frames.antt =====
-- How the decoder treats whole frames.
use device_manager.Common.{
  ℕ, suc, bit_or, ◌+◌, ◌*◌, ◌/◌, ◌%◌, ◌^◌, ◌<◌, Bool, true, false, List, [], ◌∷◌, ◌++◌, none, ◌≡◌,
  inl, inr, refl, sym, ap, ◌∙◌, arith, length, length-append, append_assoc, bit_or_low, bit_and,
  Bool-cases, bit_and-byte, ◌==◌, if◌then◌else◌, not,
}
use device_manager.Imu.Crc.{crc16_update}
use device_manager.Imu.Decoder.{
  FloatOps, ImuSolPacket, HipnucDecoder, State, sof1, sof2, feed, feed_state, process_frame,
  accept_payload, push_some, expected_crc,
}

-- The frame format of the header's comment: start bytes, length and checksum with the low byte
-- first, payload. `crc` is the checksum that the sender wrote.
abbrev header : ℕ → ℕ → List ℕ
header n crc = sof1 ∷ sof2 ∷ (n % 2 ^ 8) ∷ (n / 2 ^ 8) ∷ (crc % 2 ^ 8) ∷ (crc / 2 ^ 8) ∷ []

abbrev pub frame_bytes : ℕ → List ℕ → List ℕ
frame_bytes crc payload = header (length payload) crc ++ payload

-- The checksum of the format: start bytes and length, then the payload.
abbrev pub checksum : List ℕ → ℕ
checksum payload =
    crc16_update 0
      ((sof1 ∷ sof2 ∷ (length payload % 2 ^ 8) ∷ (length payload / 2 ^ 8) ∷ []) ++ payload)

crc16_update-append :
    (xs ys : List ℕ) (crc : ℕ) → crc16_update crc (xs ++ ys) ≡ crc16_update (crc16_update crc xs) ys
unfolding crc16_update
crc16_update-append [] ys crc = refl
crc16_update-append (x ∷ xs) ys crc = crc16_update-append xs ys _

if_not : {A : Type 0} (t : Bool) (x y : A) → (if not t then x else y) ≡ (if t then y else x)
if_not true x y = refl
if_not false x y = refl

expected-checksum :
    (payload : List ℕ)
    → length payload < 2 ^ 16
    → expected_crc (length payload) payload ≡ checksum payload
unfolding expected_crc
expected-checksum payload h =
    let n = length payload in
    let low : bit_and n 0xFF ≡ n % 2 ^ 8 = bit_and-byte n in
    let high : bit_and (n / 2 ^ 8) 0xFF ≡ n / 2 ^ 8 = omega (arith, bit_and-byte (n / 2 ^ 8)) in
    rw (low, high)
      (sym (crc16_update-append (sof1 ∷ sof2 ∷ (n % 2 ^ 8) ∷ (n / 2 ^ 8) ∷ []) payload 0))

module _ {F : Type 0} (float : FloatOps F) where
  -- The decoder that has read the header of a frame, and the bytes `buf` of its payload.
  abbrev in_data : ℕ → ℕ → ℕ → List ℕ → HipnucDecoder
  in_data n lo crc buf = record {
    state = State.at_data;
    payload_len = n;
    crc_lo = lo;
    crc_rx = crc;
    buf = buf;
  }

  -- What follows the last byte of a payload.
  abbrev after_frame : List ℕ → ℕ → ℕ → ℕ → List ℕ → List (ImuSolPacket F) × HipnucDecoder
  after_frame payload n lo crc rest =
      let (p, d') = process_frame float (in_data n lo crc payload) in
      let (qs, d'') = feed float d' rest in (push_some float p qs, d'')

  feed-last :
      (buf : List ℕ) (b : ℕ) (rest : List ℕ) (n lo crc : ℕ)
      → (length (buf ++ b ∷ []) == n) ≡ true
      → feed float (in_data n lo crc buf) (b ∷ rest) ≡ after_frame (buf ++ b ∷ []) n lo crc rest
  unfolding feed
  feed-last buf b rest n lo crc e = rw e

  feed-more :
      (buf : List ℕ) (b : ℕ) (rest : List ℕ) (n lo crc : ℕ)
      → (length (buf ++ b ∷ []) == n) ≡ false
      → feed float (in_data n lo crc buf) (b ∷ rest)
        ≡ feed float (in_data n lo crc (buf ++ b ∷ [])) rest
  unfolding feed
  feed-more buf b rest n lo crc e = rw e

  feed-payload :
      (b : ℕ) (ps buf rest : List ℕ) (n lo crc : ℕ)
      → length buf + suc (length ps) ≡ n
      → feed float (in_data n lo crc buf) (b ∷ (ps ++ rest))
        ≡ after_frame (buf ++ b ∷ ps) n lo crc rest
  feed-payload b [] buf rest n lo crc e =
      feed-last buf b rest n lo crc (ground (arith, length-append buf (b ∷ [])))
  feed-payload b (c ∷ ps) buf rest n lo crc e =
      feed-more buf b (c ∷ (ps ++ rest)) n lo crc (ground (arith, length-append buf (b ∷ [])))
      ∙ feed-payload c ps (buf ++ b ∷ []) rest n lo crc (omega (arith, length-append buf (b ∷ [])))
      ∙ rw (append_assoc buf (b ∷ []) (c ∷ ps))

  -- The decoder that waits for the second byte of the checksum.
  abbrev at_checksum : ℕ → ℕ → HipnucDecoder → HipnucDecoder
  at_checksum n lo d = record d { state = State.at_crc2; payload_len = n; crc_lo = lo; buf = [] }

  -- What follows the header of a frame.
  abbrev from_header : ℕ → ℕ → ℕ → List ℕ → List (ImuSolPacket F) × HipnucDecoder
  from_header n lo crc rest =
      if n == 0 then after_frame [] n lo crc rest else feed float (in_data n lo crc []) rest

  feed-crc2 :
      (n lo hi : ℕ) (rest : List ℕ) (d : HipnucDecoder)
      → feed float (at_checksum n lo d) (hi ∷ rest)
        ≡ from_header n lo (bit_or lo (hi * 2 ^ 8) % 2 ^ 16) rest
  unfolding feed feed_state process_frame
  feed-crc2 n lo hi rest d = elim (Bool-cases (n == 0)) [ inl z ↦ rw z | inr z ↦ rw z ]

  feed-header_at :
      (n crc : ℕ) (d : HipnucDecoder) (rest : List ℕ)
      → bit_or (n % 2 ^ 8) (n / 2 ^ 8 * 2 ^ 8) % 2 ^ 16 ≡ n
      → bit_or (crc % 2 ^ 8) (crc / 2 ^ 8 * 2 ^ 8) % 2 ^ 16 ≡ crc
      → feed float (record d { state = State.at_sof1 }) (header n crc ++ rest)
        ≡ from_header n (crc % 2 ^ 8) crc rest
  unfolding feed feed_state
  feed-header_at n crc d rest e k =
      ap (λ m. feed float (at_checksum m (crc % 2 ^ 8) d) ((crc / 2 ^ 8) ∷ rest)) e
      ∙ feed-crc2 n (crc % 2 ^ 8) (crc / 2 ^ 8) rest d
      ∙ ap (λ c. from_header n (crc % 2 ^ 8) c rest) k

  feed-header :
      (n crc : ℕ) (d : HipnucDecoder) (rest : List ℕ)
      → n < 2 ^ 16
      → crc < 2 ^ 16
      → d.state ≡ State.at_sof1
      → feed float d (header n crc ++ rest) ≡ from_header n (crc % 2 ^ 8) crc rest
  feed-header n crc d rest h k s =
      ap (λ st. feed float (record d { state = st }) (header n crc ++ rest)) s
      ∙ feed-header_at n crc d rest (omega (arith, bit_or_low 8 (n % 2 ^ 8) (n / 2 ^ 8)))
          (omega (arith, bit_or_low 8 (crc % 2 ^ 8) (crc / 2 ^ 8)))

  nonzero : (n : ℕ) → (suc n == 0) ≡ false
  nonzero n = ground arith

  from_header-payload :
      (payload rest : List ℕ) (lo crc : ℕ)
      → from_header (length payload) lo crc (payload ++ rest)
        ≡ after_frame payload (length payload) lo crc rest
  from_header-payload [] rest lo crc = refl
  from_header-payload (b ∷ ps) rest lo crc =
      ap
        (λ t.
          if t
          then after_frame [] (suc (length ps)) lo crc (b ∷ (ps ++ rest))
          else feed float (in_data (suc (length ps)) lo crc []) (b ∷ (ps ++ rest)))
        (nonzero (length ps))
      ∙ feed-payload b ps [] rest (suc (length ps)) lo crc (omega arith)

  -- The decoder after a whole frame.
  abbrev pub after : ℕ → HipnucDecoder
  after crc = record {
    state = State.at_sof1;
    payload_len = 0;
    crc_lo = crc % 2 ^ 8;
    crc_rx = crc;
    buf = [];
  }

  after_frame-checksum :
      (payload rest : List ℕ) (crc : ℕ)
      → length payload < 2 ^ 16
      → let (qs, d') = feed float (after crc) rest in
        after_frame payload (length payload) (crc % 2 ^ 8) crc rest ≡ (
          push_some float
              (if checksum payload == crc then accept_payload float payload else none)
              qs,
          d',
        )
  unfolding process_frame
  after_frame-checksum payload rest crc h =
      let (qs, d') = feed float (after crc) rest in
      let accepted = accept_payload float payload in
      ap (λ c. (push_some float (if not (c == crc) then none else accepted) qs, d'))
        (expected-checksum payload h)
      ∙ ap (λ q. (push_some float q qs, d')) (if_not (checksum payload == crc) none accepted)

  -- Between frames, the bytes of a frame with the checksum `crc` are read as one frame: the packet
  -- is that of the payload if `crc` is the payload's checksum, and there is none otherwise. Either
  -- way the decoder then stands between frames again.
  pub feed-frame_bytes :
      (payload rest : List ℕ) (crc : ℕ) (d : HipnucDecoder)
      → d.state ≡ State.at_sof1
      → length payload < 2 ^ 16
      → crc < 2 ^ 16
      → let (qs, d') = feed float (after crc) rest in
        feed float d (frame_bytes crc payload ++ rest) ≡ (
          push_some float
              (if checksum payload == crc then accept_payload float payload else none)
              qs,
          d',
        )
  feed-frame_bytes payload rest crc d s h k =
      feed-header (length payload) crc d (payload ++ rest) h k s
      ∙ from_header-payload payload rest (crc % 2 ^ 8) crc
      ∙ after_frame-checksum payload rest crc h

  double_sof-at :
      (d : HipnucDecoder) (rest : List ℕ)
      → feed float (record d { state = State.at_sof1 }) (sof1 ∷ sof1 ∷ rest)
        ≡ feed float (record d { state = State.at_sof1 }) rest
  unfolding feed feed_state
  double_sof-at d rest = refl

  -- Between frames, two start bytes in a row are dropped together: the second one does not begin a
  -- frame, so that a frame behind a stray start byte is read from its second byte on.
  pub feed-double_sof :
      (d : HipnucDecoder) (rest : List ℕ)
      → d.state ≡ State.at_sof1
      → feed float d (sof1 ∷ sof1 ∷ rest) ≡ feed float d rest
  feed-double_sof d rest s =
      ap (λ st. feed float (record d { state = st }) (sof1 ∷ sof1 ∷ rest)) s
      ∙ double_sof-at d rest
      ∙ ap (λ st. feed float (record d { state = st }) rest) (sym s)
