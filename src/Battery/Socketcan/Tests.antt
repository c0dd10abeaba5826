-- ===== src/Battery/Socketcan/Tests.antt =====
-- The theorems of the CAN transport on concrete buses.
use device_manager.Common.{
  ℕ, Bool, true, List, [], ◌∷◌, false, if◌then◌else◌, Option, none, some, ◌≡◌, ◌≢◌, refl, subst,
  arith, IsBytes,
}
use device_manager.Battery.Driver.{bytes}
use device_manager.Battery.Can.{CanFrame, SocketCanTransport, request_bytes, append_crc}
use device_manager.Battery.Can.Response.{checksum}
use device_manager.Battery.Socketcan.{
  Socket, readable, running, exchange_frame, read_holding_registers,
}
use device_manager.Battery.Socketcan.Exchange.{frame_of, read_holding_registers-values}
use device_manager.Battery.Socketcan.Rounds.{exchange_frame-ends}

-- A bus with frames that are there and frames that a request brings, on a machine whose calls
-- succeed but for `bind`, as told.
abbrev Wire : Type 0
Wire = List CanFrame × List CanFrame

abbrev bus : Bool → Socket Wire
bus bound = record {
  socket = λ w. (true, w);
  set_options = λ w. w;
  set_filter = λ id mask w. (true, w);
  set_nonblocking = λ w. (true, w);
  interface_index = λ name w. (some 3, w);
  bind = λ index w. (bound, w);
  close = λ w. w;
  strerror = λ w. "No such device";
  write = λ f (there, coming). (true, (coming, []));
  select = λ remaining w. (readable, w);
  read =
      λ (there, coming). elim there [ [] ↦ (none, ([], coming)) | f ∷ fs ↦ (some f, (fs, coming)) ];
  now = λ w. (0, w);
}

abbrev up : SocketCanTransport
up = record {
  interface_name = "can1";
  can_id = 0x41;
  use_extended_frame = true;
  timeout_ms = 600;
  connected = true;
}

-- The values 7 and 8 of one register, in two frames.
abbrev first : List ℕ
first = 1 ∷ 3 ∷ 2 ∷ []

abbrev second : List ℕ
second = 7 ∷ 8 ∷ checksum (1 ∷ 3 ∷ 2 ∷ 7 ∷ 8 ∷ [])

-- A late frame is there, and the response will come.
abbrev frames : Wire
frames = (frame_of up second ∷ [], frame_of up first ∷ frame_of up second ∷ [])

read_holding_registers-values_example :
    (read_holding_registers (bus true) 2 1 0x9000 1 up frames).0 ≡ bytes (7 ∷ 8 ∷ [])
unfolding append_crc
read_holding_registers-values_example =
    read_holding_registers-values (bus true) up 1 2 1 0x9000 1 (7 ∷ 8 ∷ []) first (second ∷ [])
      frames (omega arith) (frame_of up second, refl, refl) refl refl (omega arith) (omega arith)
      refl ((λ e. cc), ((λ e. cc), tt)) refl
      (refl, (omega arith, refl, refl, (omega arith, refl, refl, tt)))

-- A bus that babbles without an end once a request was written.
abbrev babble : Socket Bool
babble = record {
  socket = λ w. (true, w);
  set_options = λ w. w;
  set_filter = λ id mask w. (true, w);
  set_nonblocking = λ w. (true, w);
  interface_index = λ name w. (some 3, w);
  bind = λ index w. (true, w);
  close = λ w. w;
  strerror = λ w. "No such device";
  write = λ f w. (true, true);
  select = λ remaining w. (readable, w);
  read = λ w. (if w then some (frame_of up (9 ∷ [])) else none, w);
  now = λ w. (0, w);
}

abbrev HasBytes : Option CanFrame → Type 0
HasBytes none = Unit
HasBytes (some f) = IsBytes f.payload

babble-HasBytes : (w : Bool) → HasBytes (babble.read w).0
babble-HasBytes true = (omega arith, tt)
babble-HasBytes false = tt

exchange_frame-ends_example :
    (exchange_frame babble 1 (request_bytes 1 0x9000 1) up false).0 ≢ running
exchange_frame-ends_example =
    exchange_frame-ends babble up 0 1 (request_bytes 1 0x9000 1) false
      (λ w f h. subst HasBytes h (babble-HasBytes w)) (omega arith) refl
