-- ===== src/Pager/Driver/Link.antt =====
-- Two pager drivers on one line: what one sends, the other hands on.
use device_manager.Common.{
  not, ◌||◌, ℕ, ◌+◌, ◌^◌, ◌≤◌, ◌<◌, String, true, false, Option, none, some, List, [], ◌∷◌, ◌++◌,
  ◌≡◌, refl, sym, ap, subst, ◌∙◌, arith, length, append_assoc, append-nil, IsBytes, All, bit_and,
  bit_and-byte,
}
use device_manager.Drivers.Transport.{Serial, received}
use device_manager.Pager.Frame.{max_payload_size, feed, feed_byte, initial, SerialFrame}
use device_manager.Pager.Frame.RoundTrip.{
  Message, IsMessage, frames_of, wire, wires, encode_frame-wire, feed-wires,
}
use device_manager.Pager.Driver.{
  Pager100LoraConfig, Pager100LoraDriver, frame_type_data, payloads, send, written, read_port,
}

-- A payload that `send` takes.
abbrev pub IsPayload : List ℕ → Type 0
IsPayload p = IsBytes p × (length p ≤ max_payload_size)

-- The messages that the payloads become, with consecutive sequence numbers.
abbrev message : List ℕ → ℕ → Message
message p n = record { payload = p; sequence = n; frame_type = frame_type_data }

abbrev pub messages : List (List ℕ) → ℕ → List Message
messages [] n = []
messages (p ∷ ps) n = message p n ∷ messages ps (bit_and (n + 1) 0xFF)

message-IsMessage : (p : List ℕ) (n : ℕ) → IsPayload p → n < 2 ^ 8 → IsMessage (message p n)
message-IsMessage p n (bytes, fits) h = record {
  payload_bytes = bytes;
  payload_fits = fits;
  sequence_byte = h;
  type_byte = omega arith;
}

messages-IsMessage :
    (ps : List (List ℕ)) (n : ℕ) → All IsPayload ps → n < 2 ^ 8 → All IsMessage (messages ps n)
messages-IsMessage [] n h k = tt
messages-IsMessage (p ∷ ps) n (h, hs) k =
    (message-IsMessage p n h k, messages-IsMessage ps _ hs (omega (arith, bit_and-byte (n + 1))))

payloads-frames_of : (ps : List (List ℕ)) (n : ℕ) → payloads (frames_of (messages ps n)) ≡ ps
unfolding payloads
payloads-frames_of [] n = refl
payloads-frames_of (p ∷ ps) n = ap (λ qs. p ∷ qs) (payloads-frames_of ps _)

-- The line starts with the delimiter of a frame, which begins one in a new decoder as well.
feed-initial : (ms : List Message) → All IsMessage ms → (feed initial (wires ms)).0 ≡ frames_of ms
unfolding feed feed_byte
feed-initial [] v = refl
feed-initial (m ∷ ms) v = ap (λ (x : List SerialFrame × _). x.0) (feed-wires (m ∷ ms) v)

module _ {W : Type 0} (serial : Serial Pager100LoraConfig W)
    (write : List ℕ → W → Option String × W) (line : W → List ℕ) where
  -- A port that stays open and puts all that is written on the line.
  pub record IsReliable : Type 0 where
    pub is_open : (w : W) → serial.is_open w ≡ true
    pub writes : (bs : List ℕ) (w : W) → (write bs w).0 ≡ none
    pub puts : (bs : List ℕ) (w : W) → line (write bs w).1 ≡ line w ++ bs

  -- One `send` after the other.
  unfoldable pub send_all : List (List ℕ) → Pager100LoraDriver → W → Pager100LoraDriver × W
  send_all [] d w = (d, w)
  send_all (p ∷ ps) d w = let (o, d', w') = send serial write p d w in send_all ps d' w'

  written-none :
      (x : Option String × W) (d : Pager100LoraDriver)
      → x.0 ≡ none
      → written serial write x d
        ≡ (none, record d { tx_sequence = bit_and (d.tx_sequence + 1) 0xFF }, x.1)
  unfolding written
  written-none (none, w) d e = refl
  written-none (some m, w) d e = absurd (ground arith)

  send-line :
      (p : List ℕ) (d : Pager100LoraDriver) (w : W)
      → IsReliable
      → IsPayload p
      → d.has_transport ≡ true
      → d.tx_sequence < 2 ^ 8
      → send serial write p d w ≡ (
        none,
        record d { tx_sequence = bit_and (d.tx_sequence + 1) 0xFF },
        (write (wire (message p d.tx_sequence)) w).1,
      )
  unfolding send written
  send-line p d w ok v h k =
      let m = message p d.tx_sequence in
      let e = encode_frame-wire m (message-IsMessage p d.tx_sequence v k) in
      let guard : (not d.has_transport || not (serial.is_open w)) ≡ false =
        rw (h, ok.is_open w) refl in
      rw guard (rw e (written-none (write (wire m) w) d (ok.writes (wire m) w)))

  -- The bytes of the messages follow each other on the line.
  send_all-line :
      (ps : List (List ℕ)) (d : Pager100LoraDriver) (w : W)
      → IsReliable
      → All IsPayload ps
      → d.has_transport ≡ true
      → d.tx_sequence < 2 ^ 8
      → line (send_all ps d w).1 ≡ line w ++ wires (messages ps d.tx_sequence)
  unfolding send_all
  send_all-line [] d w ok v h k = sym (append-nil (line w))
  send_all-line (p ∷ ps) d w ok (v, vs) h k =
      let m = message p d.tx_sequence in
      let sent : Pager100LoraDriver = record d { tx_sequence = bit_and (d.tx_sequence + 1) 0xFF } in
      subst
        (λ (x : Option String × Pager100LoraDriver × W).
          line (send_all ps x.1 x.2).1 ≡ line w ++ wires (messages (p ∷ ps) d.tx_sequence))
        (sym (send-line p d w ok v h k))
        (send_all-line ps sent _ ok vs h (omega (arith, bit_and-byte (d.tx_sequence + 1)))
          ∙ ap (λ bs. bs ++ wires (messages ps sent.tx_sequence)) (ok.puts (wire m) w)
          ∙ append_assoc (line w) (wire m) (wires (messages ps sent.tx_sequence)))

  -- Payloads of bytes within the limit, sent one after the other over a reliable port on an empty
  -- line, by a driver that has its port, arrive: a new driver whose read returns the whole line
  -- hands on exactly these payloads, in order, with no fault.
  pub send_all-read_port :
      (ps : List (List ℕ)) (d : Pager100LoraDriver) (w : W) (e : Pager100LoraDriver) (v : W)
      → IsReliable
      → All IsPayload ps
      → d.has_transport ≡ true
      → d.tx_sequence < 2 ^ 8
      → line w ≡ []
      → e.decoder ≡ initial
      → (serial.read e.config.read_chunk_size v).0 ≡ received (line (send_all ps d w).1)
      → let r = read_port serial true e v in (r.payloads ≡ ps) × (r.notices ≡ [])
  unfolding read_port
  send_all-read_port ps d w e v ok valid h k empty_line new got =
      let ms = messages ps d.tx_sequence in
      let bytes : line (send_all ps d w).1 ≡ wires ms =
        send_all-line ps d w ok valid h k ∙ ap (λ bs. bs ++ wires ms) empty_line in
      let decoded : payloads (feed e.decoder (wires ms)).0 ≡ ps =
        ap (λ c. payloads (feed c (wires ms)).0) new
        ∙ ap payloads (feed-initial ms (messages-IsMessage ps d.tx_sequence valid k))
        ∙ payloads-frames_of ps d.tx_sequence in
      rw (got, bytes) (decoded, refl)
