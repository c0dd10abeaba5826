-- ===== src/Battery/Tests.antt =====
-- The theorems of the battery on concrete inputs, with integers for floats.
use device_manager.Common.{
  true, none, some, not, ◌||◌, ◌+◌, empty, length, Option, String, both_branches, inl, inr, ◌-◌,
  ◌/◌, if◌then◌else◌, ℕ, List, [], ◌∷◌, ◌≡◌, refl, arith, ltb, leb, ◌==◌,
}
use device_manager.Battery.Assembler.{Assembler, complete, initial}
use device_manager.Battery.Assembler.Whole.{assemble, holding, joined, assemble-complete}
use device_manager.Battery.Soc.{SocOps, SocSpikeFilter, accept, filter_all, filter_all-confirms}
use device_manager.Battery.Snapshot.{sanitize_identity_string}
use device_manager.Battery.Snapshot.Sanitized.{sanitize_identity_string-padded}
use device_manager.Battery.Driver.{
  BatteryDriverConfig, Answer, no_answer, Transport, FloatOps, TwsBatteryDriver, make_driver,
  configure, cleanup,
}
use device_manager.Battery.Poll.{poll_once}
use device_manager.Core.Runtime.{returns}
use device_manager.Core.Runtime.Dispatch.{LawfulRuntime}
use device_manager.Battery.Session.{TwsBatteryRuntime}
use device_manager.Battery.Runtime.{battery_device_runtime}
use device_manager.Battery.Runtime.Lifecycle.{state_of, IsFit, battery_device_runtime-lawful}
use device_manager.Battery.Poll.Online.{IsConsistent, Agrees, driver-IsConsistent}
use device_manager.Battery.Poll.Failures.{polls, IsUnanswered, IsMute, polls-mute}
use device_manager.Battery.Can.{
  SocketCanTransport, make_transport, request_bytes, Received, fragment, timeout, refused,
}
use device_manager.Battery.Socketcan.{
  Socket, timed_out, Exchanged, response, broken, running, after_receive, receive_frame, await,
  answer, exchange_loop, flush_receive_buffer, exchange_frame, read_holding_registers, socketcan,
}

-- A response with two bytes of data, in three fragments.
abbrev fragments : List (List ℕ)
fragments = (1 ∷ []) ∷ (3 ∷ 2 ∷ 7 ∷ []) ∷ (8 ∷ 0xAA ∷ 0xBB ∷ []) ∷ []

assemble-complete_example : assemble fragments initial ≡ (complete, holding (joined fragments))
assemble-complete_example =
    assemble-complete (1 ∷ []) ((3 ∷ 2 ∷ 7 ∷ []) ∷ (8 ∷ 0xAA ∷ 0xBB ∷ []) ∷ [])
      ((λ e. cc), ((λ e. cc), ((λ e. cc), tt))) refl

abbrev percent : SocOps ℕ
percent = record { same = ◌==◌; is_full = leb 100; below_near_full = λ x. ltb x 99 }

abbrev at_half : SocSpikeFilter ℕ
at_half = (accept 50).1

filter_all-confirms_example :
    filter_all percent (100 ∷ 100 ∷ 51 ∷ []) at_half ≡ (50 ∷ 50 ∷ 51 ∷ [], (accept 51).1)
filter_all-confirms_example =
    filter_all-confirms percent at_half 100 100 51 refl refl refl refl refl

abbrev whole : FloatOps ℕ
whole = record {
  soc_ops = record { same = ◌==◌; is_full = leb 100; below_near_full = λ x. ltb x 99 };
  from_unsigned = λ n. n;
  from_signed = λ n. n;
  div = ◌/◌;
  sub = ◌-◌;
  thousand = 1000;
  forty = 40;
  null = 0;
  print_fixed = λ n. "";
}

-- A bus that is up, on which nothing answers.
abbrev mute_bus : Transport ℕ
mute_bus = record {
  create = λ c w. (true, w);
  connect = λ w. (none, w);
  disconnect = λ w. w;
  is_connected = λ w. true;
  read_holding_registers = λ d a c w. (no_answer "timeout", w);
}

abbrev config : BatteryDriverConfig
config = record {
  can_interface = "can1";
  can_id = 0x41;
  use_extended_frame = true;
  timeout_ms = 600;
  poll_interval_ms = 1000;
  identity_poll_divider = 30;
  device_address = 1;
}

-- A driver after a successful poll.
abbrev polled : TwsBatteryDriver ℕ
polled = record (make_driver whole config) {
  has_transport = true;
  has_successful_poll = true;
  status_transition_tracker = record { online = true; current_work_state = 2 };
  last_snapshot = record ((make_driver whole config).last_snapshot) { connected = true };
}

driver-IsConsistent_example :
    IsConsistent (configure mute_bus config polled 0).1
    × IsConsistent (cleanup mute_bus polled 0).0
    × Agrees (poll_once whole mute_bus polled 0)
driver-IsConsistent_example =
    driver-IsConsistent mute_bus whole config polled 0 (λ e. (refl, omega arith))

-- A machine whose calls succeed, on a bus on which nothing is ever heard.
abbrev silence : Socket ℕ
silence = record {
  socket = λ w. (true, w);
  set_options = λ w. w;
  set_filter = λ id mask w. (true, w);
  set_nonblocking = λ w. (true, w);
  interface_index = λ name w. (some 3, w);
  bind = λ index w. (true, w);
  close = λ w. w;
  strerror = λ w. "Resource temporarily unavailable";
  write = λ f w. (true, w);
  select = λ remaining w. (timed_out, w + remaining);
  read = λ w. (none, w);
  now = λ w. (w, w);
}

abbrev IsBroken : Exchanged → Type 0
IsBroken (broken e) = Unit
IsBroken x = ⊥

abbrev IsTimeout : Received → Type 0
IsTimeout timeout = Unit
IsTimeout x = ⊥

receive_frame-silence :
    (t : SocketCanTransport) (deadline w : ℕ) → IsTimeout (receive_frame silence t deadline w).0
unfolding receive_frame
receive_frame-silence t deadline w =
    both_branches (λ (x : Received × ℕ). IsTimeout x.0) (leb deadline w) _ _ tt tt

after_receive-timeout :
    (x : Received × ℕ) (a : Assembler) (more : Assembler → ℕ → Exchanged × ℕ)
    → IsTimeout x.0
    → IsBroken (after_receive silence x a more).0
after_receive-timeout (timeout, w) a more h = tt
after_receive-timeout (fragment bs, w) a more h = absurd h
after_receive-timeout (refused m, w) a more h = absurd h

exchange_frame-silence :
    (request : List ℕ) (t : SocketCanTransport) (w : ℕ)
    → IsBroken (exchange_frame silence 1 request t w).0
unfolding exchange_frame flush_receive_buffer exchange_loop
exchange_frame-silence request t w =
    both_branches (λ (x : Exchanged × ℕ). IsBroken x.0) (not t.connected) _ _ tt
      (both_branches (λ (x : Option String × ℕ). IsBroken (await silence x t).0)
        (empty request || ltb 8 (length request)) _ _ tt
        (after_receive-timeout _ _ _ (receive_frame-silence t _ w)))

answer-broken :
    (device count : ℕ) (x : Exchanged × ℕ)
    → IsBroken x.0
    → IsUnanswered (answer silence device count x).0
answer-broken device count (broken e, w) h = tt
answer-broken device count (response r, w) h = absurd h
answer-broken device count (running, w) h = absurd h

abbrev IsUp : SocketCanTransport × ℕ → Type 0
IsUp x = x.0.connected ≡ true

read_holding_registers-silence :
    (device address count : ℕ) (t : SocketCanTransport) (w : ℕ)
    → IsUnanswered (read_holding_registers silence 1 device address count t w).0
unfolding read_holding_registers
read_holding_registers-silence device address count t w =
    both_branches (λ (x : Answer × ℕ). IsUnanswered x.0) (count == 0) _ _ tt
      (answer-broken device count _
        (exchange_frame-silence (request_bytes device address count) t w))

silence-IsMute : IsMute {F = ℕ} whole (socketcan silence 1) IsUp
silence-IsMute = record {
  connected = λ w u. u;
  silent = λ d a c w u. (read_holding_registers-silence d a c w.0 w.1, u);
}

-- The transport of the program, connected.
abbrev can_up : SocketCanTransport × ℕ
can_up = (record (make_transport config) { connected = true }, 0)

polls-mute_example :
    let (reports, d, w) = polls whole (socketcan silence 1) 5 polled can_up in
    (reports ≡ (if ltb 5 3 then 0 else 1)) × (d.last_snapshot.connected ≡ ltb 5 3)
polls-mute_example =
    polls-mute whole (socketcan silence 1) IsUp 5 polled can_up silence-IsMute refl (record {
      has_transport = refl;
      connected = refl;
      online = refl;
      polled = refl;
      failures = refl;
    })

battery_device_runtime-lawful_example :
    LawfulRuntime {W = TwsBatteryRuntime ℕ ℕ} state_of IsFit
      (battery_device_runtime whole mute_bus (λ w. (w, w)) (λ w. (returns tt, w)) (λ w. true))
battery_device_runtime-lawful_example =
    battery_device_runtime-lawful whole mute_bus (λ w. (w, w)) (λ w. (returns tt, w)) (λ w. true)
      (λ w. refl)

-- `A B` behind a NUL and in front of a blank and 0xFF.
sanitize_identity_string-padded_example :
    sanitize_identity_string (0 ∷ 0x41 ∷ 0x20 ∷ 0x42 ∷ 0x20 ∷ 0xFF ∷ []) ≡ 0x41 ∷ 0x20 ∷ 0x42 ∷ []
sanitize_identity_string-padded_example =
    sanitize_identity_string-padded (0x41 ∷ 0x20 ∷ 0x42 ∷ []) (0 ∷ []) (0x20 ∷ 0xFF ∷ [])
      (record { kept = (refl, (refl, (refl, tt))); starts = refl; ends = refl }) (inl refl, tt)
      (inr (inr refl), (inr (inl refl), tt))
