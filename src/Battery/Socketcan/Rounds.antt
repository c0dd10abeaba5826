-- ===== src/Battery/Socketcan/Rounds.antt =====
-- The loop of `exchange_frame` ends within its fuel.
use device_manager.Common.{
  ℕ, zero, suc, ◌+◌, ◌<◌, ◌≤◌, not, List, [], ◌∷◌, ◌++◌, Option, none, some, String, ◌≡◌, ◌≢◌, refl,
  sym, subst, arith, length, length-append, All-append, IsByte, IsBytes, leb, ◌==◌, both_branches,
}
use device_manager.Battery.Assembler.{
  Assembler, AssemblyStatus, incomplete, complete, failed, initial, status_of,
}
use device_manager.Battery.Assembler as Assembler
use device_manager.Battery.Assembler.Whole.{holding, response_size, append-holding}
use device_manager.Battery.Can.{
  CanFrame, SocketCanTransport, accept_frame, same_kind, is_extended, masked, Received, fragment,
  timeout, refused,
}
use device_manager.Battery.Socketcan.{
  Socket, Ready, select_failed, timed_out, readable, after_read, after_select, receive_frame,
  Exchanged, running, after_append, after_receive, exchange_loop, exchange_frame, rounds, await,
  send_frame, after_flush,
}
use device_manager.Battery.Socketcan.Exchange.{Drains, drained, flush_receive_buffer-Drains}

-- Before a response is complete it is shorter than the longest one.
status_of-incomplete :
    (bs : List ℕ) → IsBytes bs → status_of (response_size bs) bs ≡ incomplete → length bs ≤ 260
unfolding status_of
status_of-incomplete [] v h = omega arith
status_of-incomplete (x ∷ []) v h = omega arith
status_of-incomplete (x ∷ f ∷ []) v h = omega arith
status_of-incomplete (x ∷ f ∷ n ∷ rest) v h = ground arith

abbrev Brings : Received → Type 0
Brings (fragment bs) = IsBytes bs
Brings r = Unit

module _ {W : Type 0} (os : Socket W) (t : SocketCanTransport) where
  -- What is read from the socket is made of bytes.
  abbrev pub ReadsBytes : Type 0
  ReadsBytes = (w : W) (f : CanFrame) → (os.read w).0 ≡ some f → IsBytes f.payload

  accept_frame-Brings : (f : CanFrame) → IsBytes f.payload → Brings (accept_frame t f)
  unfolding accept_frame
  accept_frame-Brings f h =
      both_branches Brings (not (same_kind (is_extended f.can_id) t.use_extended_frame)) _ _ tt
        (both_branches Brings (not (masked t.use_extended_frame f.can_id == t.can_id)) _ _ tt h)

  after_read-Brings :
      (x : Option CanFrame × W)
      → ((f : CanFrame) → x.0 ≡ some f → IsBytes f.payload)
      → Brings (after_read os x t).0
  after_read-Brings (none, w) h = tt
  after_read-Brings (some f, w) h = accept_frame-Brings f (h f refl)

  after_select-Brings : (x : Ready × W) → ReadsBytes → Brings (after_select os x t).0
  after_select-Brings (select_failed, w) h = tt
  after_select-Brings (timed_out, w) h = tt
  after_select-Brings (readable, w) h = after_read-Brings (os.read w) (h w)

  receive_frame-Brings :
      (deadline : ℕ) (w : W) → ReadsBytes → Brings (receive_frame os t deadline w).0
  unfolding receive_frame
  receive_frame-Brings deadline w h =
      both_branches (λ (x : Received × W). Brings x.0) (leb deadline (os.now w).0) _ _ tt
        (after_select-Brings _ h)

  abbrev Ends : Exchanged × W → Type 0
  Ends x = x.0 ≢ running

  after_append-Ends :
      (f bs : List ℕ) (more : Assembler → W → Exchanged × W) (w : W)
      → IsBytes bs
      → IsBytes f
      → ((zs : List ℕ)
          → IsBytes zs
          → length bs < length zs
          → length zs ≤ 260
          → Ends (more (holding zs) w))
      → Ends (after_append os (Assembler.append f (holding bs)) more w)
  unfolding Assembler.append
  after_append-Ends [] bs more w v u ih = λ z. cc
  after_append-Ends (y ∷ ys) bs more w v u ih =
      let zs = bs ++ (y ∷ ys) in
      subst (λ x. Ends (after_append os x more w)) (sym (append-holding bs (y ∷ ys) (λ e. cc)))
        (settled (status_of (response_size zs) zs) refl)
    where
      settled :
          (s : AssemblyStatus)
          → status_of (response_size (bs ++ (y ∷ ys))) (bs ++ (y ∷ ys)) ≡ s
          → Ends (after_append os (s, holding (bs ++ (y ∷ ys))) more w)
      settled incomplete e =
          let vs = All-append IsByte bs (y ∷ ys) v u in
          ih (bs ++ (y ∷ ys)) vs (omega (arith, length-append bs (y ∷ ys)))
            (status_of-incomplete _ vs e)
      settled complete e = λ z. cc
      settled (failed e') e = λ z. cc

  after_receive-Ends :
      (x : Received × W) (bs : List ℕ) (more : Assembler → W → Exchanged × W)
      → Brings x.0
      → IsBytes bs
      → ((zs : List ℕ) (w : W)
          → IsBytes zs
          → length bs < length zs
          → length zs ≤ 260
          → Ends (more (holding zs) w))
      → Ends (after_receive os x (holding bs) more)
  after_receive-Ends (fragment f, w) bs more b v ih =
      after_append-Ends f bs more w v b (λ zs. ih zs w)
  after_receive-Ends (timeout, w) bs more b v ih = λ z. cc
  after_receive-Ends (refused m, w) bs more b v ih = λ z. cc

  exchange_loop-Ends :
      (fuel deadline : ℕ) (bs : List ℕ) (w : W)
      → ReadsBytes
      → IsBytes bs
      → length bs ≤ 260
      → rounds os ≤ fuel + length bs
      → Ends (exchange_loop os fuel t deadline (holding bs) w)
  unfolding exchange_loop
  exchange_loop-Ends zero deadline bs w h v short enough = absurd (omega arith)
  exchange_loop-Ends (suc fuel) deadline bs w h v short enough =
      after_receive-Ends (receive_frame os t deadline w) bs (exchange_loop os fuel t deadline)
        (receive_frame-Brings deadline w h) v
        (λ zs w' u longer le. exchange_loop-Ends fuel deadline zs w' h u le (omega arith))

  await-Ends : (x : Option String × W) → ReadsBytes → Ends (await os x t)
  await-Ends (some e, w) h = λ z. cc
  await-Ends (none, w) h = exchange_loop-Ends _ _ [] _ h tt (omega arith) (omega arith)

  -- The exchange of a request for a response ends in a response or an error, whatever the bus does
  -- after the flush and however the time goes by, if the frames that are there at the start can be
  -- read off within the fuel of the flush, and what is read from the socket is made of bytes.
  pub exchange_frame-ends :
      (n fuel : ℕ) (request : List ℕ) (w : W)
      → ReadsBytes
      → n < fuel
      → Drains os t n w
      → (exchange_frame os fuel request t w).0 ≢ running
  unfolding exchange_frame
  exchange_frame-ends n fuel request w h more empties =
      both_branches Ends (not t.connected) _ _ (λ z. cc)
        (subst (λ x. Ends (after_flush os x request t))
          (sym (flush_receive_buffer-Drains os t n fuel w more empties))
          (await-Ends (send_frame os request t (drained os t n w)) h))
