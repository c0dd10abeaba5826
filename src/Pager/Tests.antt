-- ===== src/Pager/Tests.antt =====
-- The frame theorems on a message with bytes that need escapes.
use device_manager.Common.{
  true, none, Option, String, ℕ, List, [], ◌∷◌, ◌++◌, ◌≡◌, refl, arith, length,
}
use device_manager.Pager.Frame.{SerialFrameDecoder, feed}
use device_manager.Pager.Frame.Feeding.{reading}
use device_manager.Pager.Frame.RoundTrip.{Message, IsMessage, frames_of, wires, feed-wires}
use device_manager.Pager.Frame.Bound.{escapes, feed-escapes}
use device_manager.Core.Runtime.{returns}
use device_manager.Drivers.Transport.{Serial, received}
use device_manager.Pager.Driver.{Pager100LoraConfig, Pager100LoraDriver, make_driver, read_port}
use device_manager.Pager.Driver.Link.{IsReliable, send_all, send_all-read_port}

abbrev page : Message
page = record { payload = 0x7E ∷ 0x7D ∷ 5 ∷ []; sequence = 9; frame_type = 1 }

page-IsMessage : IsMessage page
page-IsMessage = record {
  payload_bytes = (omega arith, (omega arith, (omega arith, tt)));
  payload_fits = omega arith;
  sequence_byte = omega arith;
  type_byte = omega arith;
}

-- In the middle of a frame that was cut off.
abbrev noisy : SerialFrameDecoder
noisy = reading (1 ∷ 2 ∷ [])

feed-wires_example :
    feed (reading []) (wires (page ∷ page ∷ [])) ≡ (frames_of (page ∷ page ∷ []), reading [])
feed-wires_example = feed-wires (page ∷ page ∷ []) (page-IsMessage, (page-IsMessage, tt))

feed-escapes_example : length (feed (reading []) (escapes 100 1)).1.buffer ≡ 100
feed-escapes_example = feed-escapes 100 1 [] (λ e. cc)

-- A port whose world is the line.
abbrev line_port : Serial Pager100LoraConfig (List ℕ)
line_port = record {
  create = λ c w. (returns tt, w);
  open_port = λ name baud w. (none, w);
  close_port = λ w. w;
  is_open = λ w. true;
  read = λ n w. (received w, w);
  now = λ w. (0, w);
  spawn = λ w. (returns tt, w);
  join_thread = λ w. w;
  sleep = λ n w. w;
}

abbrev put : List ℕ → List ℕ → Option String × List ℕ
put bs w = (none, w ++ bs)

abbrev line : List ℕ → List ℕ
line w = w

line_port-IsReliable : IsReliable line_port put line
line_port-IsReliable = record { is_open = λ w. refl; writes = λ bs w. refl; puts = λ bs w. refl }

abbrev driver : Pager100LoraDriver
driver =
    record (make_driver (record {
      port = "line";
      baudrate = 115200;
      read_chunk_size = 128;
      reconnect_backoff_ms = 1000;
    })) { has_transport = true; configured = true; connected = true; tx_sequence = 255 }

abbrev pages : List (List ℕ)
pages = (0x7E ∷ 5 ∷ []) ∷ [] ∷ []

send_all-read_port_example :
    let r = read_port line_port true driver (send_all line_port put line pages driver []).1 in
    (r.payloads ≡ pages) × (r.notices ≡ [])
send_all-read_port_example =
    send_all-read_port line_port put line pages driver [] driver
      (send_all line_port put line pages driver []).1 line_port-IsReliable
      (((omega arith, (omega arith, tt)), omega arith), ((tt, omega arith), tt)) refl (omega arith)
      refl refl refl
