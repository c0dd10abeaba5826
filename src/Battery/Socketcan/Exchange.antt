-- ===== src/Battery/Socketcan/Exchange.antt =====
-- A request over the CAN bus: the response comes back, and the loop ends.
use device_manager.Common.{
  ℕ, zero, suc, ◌+◌, ◌-◌, ◌*◌, ◌<◌, ◌≤◌, Bool, true, false, List, [], ◌∷◌, Option, none, some, ◌≡◌,
  refl, ap, ◌∙◌, arith, length, length-append, All, ◌==◌, leb, if-false, not,
}
use device_manager.Battery.Assembler.{
  Assembler, AssemblyStatus, incomplete, complete, failed, initial,
}
use device_manager.Battery.Assembler as Assembler
use device_manager.Battery.Assembler.Whole.{
  assemble, go_on, joined, holding, response_size, IsFragment, assemble-complete,
}
use device_manager.Battery.Driver.{Answer, bytes}
use device_manager.Battery.Can.{
  CanFrame, SocketCanTransport, wire_id, masked, accept_frame, fragment, request_bytes, append_crc,
  accept_response,
}
use device_manager.Battery.Can.Response.{response_of, accept_response-response_of}
use device_manager.Battery.Socketcan.{
  Socket, Ready, select_failed, timed_out, readable, after_read, after_select, Exchanged, response,
  receive_frame, exchange_loop, exchange_frame, after_append, read_holding_registers, rounds, await,
  send_frame, flush_receive_buffer, after_flush, deadline_at, broken, running, answer,
}

abbrev pub frame_of : SocketCanTransport → List ℕ → CanFrame
frame_of t bs = record { can_id = wire_id t; payload = bs }

-- The identifier is one of the transport's kind, as the constructor makes it.
abbrev pub IsMasked : SocketCanTransport → Type 0
IsMasked t = masked t.use_extended_frame t.can_id ≡ t.can_id

accept_frame-own :
    (extended : Bool) (t : SocketCanTransport) (bs : List ℕ)
    → t.use_extended_frame ≡ extended
    → IsMasked t
    → accept_frame t (frame_of t bs) ≡ fragment bs
unfolding accept_frame
accept_frame-own true t bs e h = ground arith
accept_frame-own false t bs e h = ground arith

module _ {W : Type 0} (os : Socket W) (t : SocketCanTransport) (deadline : ℕ) where
  -- Frames of the transport come in one after the other, before the deadline.
  abbrev pub Arrives : List (List ℕ) → W → Type 0
  Arrives [] w = Unit
  Arrives (f ∷ fs) w =
      let (now, w1) = os.now w in
      let (ready, w2) = os.select (deadline - now) w1 in
      let (m, w3) = os.read w2 in
      (now < deadline) × (ready ≡ readable) × (m ≡ some (frame_of t f)) × Arrives fs w3

  -- The world behind the next frame.
  abbrev after_frame : W → W
  after_frame w = let (now, w1) = os.now w in (os.read (os.select (deadline - now) w1).1).1

  after_read-some :
      (x : Option CanFrame × W) (g : CanFrame)
      → x.0 ≡ some g
      → after_read os x t ≡ (accept_frame t g, x.1)
  after_read-some (none, w) g h = absurd cc
  after_read-some (some f, w) g h = cc

  after_select-readable :
      (x : Ready × W) → x.0 ≡ readable → after_select os x t ≡ after_read os (os.read x.1) t
  after_select-readable (select_failed, w) h = absurd cc
  after_select-readable (timed_out, w) h = absurd cc
  after_select-readable (readable, w) h = refl

  receive_frame-own :
      (f : List ℕ) (fs : List (List ℕ)) (w : W)
      → IsMasked t
      → Arrives (f ∷ fs) w
      → receive_frame os t deadline w ≡ (fragment f, after_frame w)
  unfolding receive_frame
  receive_frame-own f fs w m (early, ready, came, rest) =
      if-false (leb deadline (os.now w).0) _ _ (ground arith)
      ∙ after_select-readable _ ready
      ∙ after_read-some _ _ came
      ∙ ap (λ r. (r, after_frame w)) (accept_frame-own t.use_extended_frame t f refl m)

  after_append-complete :
      (x : AssemblyStatus × Assembler) (a : Assembler) (fs : List (List ℕ))
      (more : Assembler → W → Exchanged × W) (w : W)
      → go_on x (assemble fs) ≡ (complete, a)
      → ((b : Assembler) → assemble fs b ≡ (complete, a) → (more b w).0 ≡ response a.bytes)
      → (after_append os x more w).0 ≡ response a.bytes
  after_append-complete (incomplete, b) a fs more w h ih = ih b h
  after_append-complete (complete, b) a fs more w h ih = cc
  after_append-complete (failed e, b) a fs more w h ih = absurd cc

  exchange_loop-assemble :
      (fuel : ℕ) (fs : List (List ℕ)) (a b : Assembler) (w : W)
      → IsMasked t
      → length fs ≤ fuel
      → Arrives fs w
      → assemble fs a ≡ (complete, b)
      → (exchange_loop os fuel t deadline a w).0 ≡ response b.bytes
  unfolding exchange_loop assemble
  exchange_loop-assemble fuel [] a b w m le arr h = absurd cc
  exchange_loop-assemble zero (f ∷ fs) a b w m le arr h = absurd (omega arith)
  exchange_loop-assemble (suc fuel) (f ∷ fs) a b w m le arr h =
      rw (receive_frame-own f fs w m arr) (
        after_append-complete (Assembler.append f a) b fs _ (after_frame w) h
          (λ c k. exchange_loop-assemble fuel fs c b (after_frame w) m (omega arith) arr.3 k))

length-joined : (fs : List (List ℕ)) → All IsFragment fs → length fs ≤ length (joined fs)
length-joined [] v = omega arith
length-joined ([] ∷ fs) v = absurd (v.0 refl)
length-joined ((x ∷ f) ∷ fs) v = omega (arith, length-append f (joined fs), length-joined fs v.1)

length-append_crc : (bs : List ℕ) → length (append_crc bs) ≡ length bs + 2
unfolding append_crc
length-append_crc bs = length-append bs _

some_registers : (count : ℕ) → 0 < count → (count == 0) ≡ false
some_registers count h = ground arith

response_size-response_of :
    (device : ℕ) (values : List ℕ)
    → response_size (response_of device values) ≡ some (length values + 5)
unfolding append_crc
response_size-response_of device values = refl

module _ {W : Type 0} (os : Socket W) (t : SocketCanTransport) where
  -- `n` frames can be read off, and then there is none.
  abbrev pub Drains : ℕ → W → Type 0
  Drains zero w = (os.read w).0 ≡ none
  Drains (suc n) w = (f : CanFrame) × ((os.read w).0 ≡ some f) × Drains n (os.read w).1

  abbrev pub drained : ℕ → W → W
  drained zero w = (os.read w).1
  drained (suc n) w = drained n (os.read w).1

  flush_none :
      (fuel : ℕ) (x : Option CanFrame × W)
      → x.0 ≡ none
      → (elim x.0 as (λ _. Bool × W) [
        | none ↦ (true, x.1)
        | some _ ↦ flush_receive_buffer os fuel x.1
      ])
        ≡ (true, x.1)
  flush_none fuel (none, w) h = refl
  flush_none fuel (some f, w) h = absurd cc

  flush_some :
      (fuel : ℕ) (x : Option CanFrame × W) (f : CanFrame)
      → x.0 ≡ some f
      → (elim x.0 as (λ _. Bool × W) [
        | none ↦ (true, x.1)
        | some _ ↦ flush_receive_buffer os fuel x.1
      ])
        ≡ flush_receive_buffer os fuel x.1
  flush_some fuel (none, w) f h = absurd cc
  flush_some fuel (some g, w) f h = refl

  -- The flush ends if its fuel is more than the frames that are there.
  pub flush_receive_buffer-Drains :
      (n fuel : ℕ) (w : W)
      → n < fuel
      → Drains n w
      → flush_receive_buffer os fuel w ≡ (true, drained n w)
  unfolding flush_receive_buffer
  flush_receive_buffer-Drains n zero w le h = absurd (omega arith)
  flush_receive_buffer-Drains zero (suc fuel) w le h = flush_none fuel (os.read w) h
  flush_receive_buffer-Drains (suc n) (suc fuel) w le (f, e, h) =
      flush_some fuel (os.read w) f e
      ∙ flush_receive_buffer-Drains n fuel (os.read w).1 (omega arith) h

  -- The world behind the write of a request, and whether it was written.
  abbrev pub sent : List ℕ → W → Bool × W
  sent request w = os.write (frame_of t request) w

  -- Behind the flush, the bus takes the request and brings the fragments before the time is over.
  abbrev pub Replies : List ℕ → List (List ℕ) → W → Type 0
  Replies request fs w =
      let (written, w1) = sent request w in
      let (now, w2) = os.now w1 in
      (written ≡ true) × Arrives os t (deadline_at os now t.timeout_ms) fs w2

  send_frame-written :
      (request : List ℕ) (w : W)
      → length request ≡ 8
      → (os.write (frame_of t request) w).0 ≡ true
      → send_frame os request t w ≡ (none, (os.write (frame_of t request) w).1)
  send_frame-written [] w n h = absurd (omega arith)
  send_frame-written (x ∷ xs) w n h = ground arith

  exchange_frame-Replies :
      (n fuel : ℕ) (request : List ℕ) (f : List ℕ) (fs : List (List ℕ)) (b : Assembler) (w : W)
      → n < fuel
      → Drains n w
      → IsMasked t
      → t.connected ≡ true
      → length request ≡ 8
      → length fs < rounds os
      → Replies request (f ∷ fs) (drained n w)
      → assemble (f ∷ fs) initial ≡ (complete, b)
      → (exchange_frame os fuel request t w).0 ≡ response b.bytes
  unfolding exchange_frame
  exchange_frame-Replies n fuel request f fs b w more empties m c size le (written, came) h =
      let w0 = drained n w in
      let w1 = (sent request w0).1 in
      let (now, w2) = os.now w1 in
      ap (λ (x : Exchanged × W). x.0)
        (if-false (not t.connected) _ _ (ground arith)
          ∙ ap (λ x. after_flush os x request t) (flush_receive_buffer-Drains n fuel w more empties)
          ∙ ap (λ x. await os x t) (send_frame-written request w0 size written))
      ∙ exchange_loop-assemble os t (deadline_at os now t.timeout_ms) (rounds os) (f ∷ fs) initial b
          w2 m (omega arith) came h

  answer-response :
      (device count : ℕ) (x : Exchanged × W) (r : List ℕ)
      → x.0 ≡ response r
      → (answer os device count x).0 ≡ accept_response device count r
  answer-response device count (response q, w) r h = cc
  answer-response device count (broken e, w) r h = absurd cc
  answer-response device count (running, w) r h = absurd cc

  -- A read of 1 to 125 registers over a connected transport gives their values, if the frames that
  -- are there at its start can be read off within the fuel, and the bus then takes the request and
  -- brings the response of the device before the timeout, cut into any non-empty frames of the
  -- transport's kind and identifier.
  pub read_holding_registers-values :
      (n fuel device address count : ℕ) (values f : List ℕ) (fs : List (List ℕ)) (w : W)
      → n < fuel
      → Drains n w
      → IsMasked t
      → t.connected ≡ true
      → 0 < count
      → count ≤ 125
      → length values ≡ count * 2
      → All IsFragment (f ∷ fs)
      → joined (f ∷ fs) ≡ response_of device values
      → Replies (request_bytes device address count) (f ∷ fs) (drained n w)
      → (read_holding_registers os fuel device address count t w).0 ≡ bytes values
  unfolding read_holding_registers request_bytes append_crc
  read_holding_registers-values n fuel device address count values f fs w more empties m c low high
        size v e reply =
      let request = request_bytes device address count in
      let r = joined (f ∷ fs) in
      let total : length r ≡ count * 2 + 5 =
        ap length e ∙ omega (arith, length-append_crc (device ∷ 3 ∷ length values ∷ values)) in
      let whole : response_size r ≡ some (length r) =
        ap response_size e ∙ response_size-response_of device values ∙ ap some (omega arith) in
      let came =
        exchange_frame-Replies n fuel request f fs (holding r) w more empties m c refl
          (omega (arith, length-joined (f ∷ fs) v)) reply (assemble-complete f fs v whole) in
      ap (λ (x : Answer × W). x.0) (if-false (count == 0) _ _ (some_registers count low))
      ∙ answer-response device count (exchange_frame os fuel request t w) r came
      ∙ ap (accept_response device count) e
      ∙ accept_response-response_of device count values size
