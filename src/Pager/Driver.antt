-- ===== src/Pager/Driver.antt =====
-- `Pager100LoraDriver` of drivers/pager100_lora_bridge/src/pager100_lora_driver.cpp. What goes to
-- the handlers are lists, and the port's `write` is a parameter beside the others of the port.
pub mod Link
use device_manager.Common.{
  to_string, ℕ, zero, suc, ltb, length, ◌/◌, ◌+◌, ◌%◌, ◌^◌, String, Bool, true, false, not, ◌||◌,
  List, [], ◌∷◌, ◌++◌, Option, none, some, bit_and, ◌==◌, append, if◌then◌else◌,
}
use device_manager.Core.Runtime.{Call, returns, throws, throws_unknown}
use device_manager.Drivers.Transport.{Serial, received, read_failed}
use device_manager.Pager.Frame.{SerialFrame, SerialFrameDecoder, encode_frame, feed}
use device_manager.Pager.Frame as Frame

abbrev pub frame_type_data : ℕ
frame_type_data = 0x01

-- `int` and `std::size_t` fields are their bit patterns.
pub record Pager100LoraConfig : Type 0 where
  pub port : String
  pub baudrate : ℕ
  pub read_chunk_size : ℕ
  pub reconnect_backoff_ms : ℕ

pub record Pager100LoraSnapshot : Type 0 where
  pub connected : Bool
  pub last_error : String
  pub frame_count : ℕ

-- `joinable` is `read_thread_.joinable()`, and `has_transport` that the pointer is set.
pub record Pager100LoraDriver : Type 0 where
  pub config : Pager100LoraConfig
  pub decoder : SerialFrameDecoder
  pub running : Bool
  pub joinable : Bool
  pub has_transport : Bool
  pub configured : Bool
  pub connected : Bool
  pub last_error : String
  pub frame_count : ℕ
  pub tx_sequence : ℕ

abbrev pub make_driver : Pager100LoraConfig → Pager100LoraDriver
make_driver c = record {
  config = c;
  decoder = Frame.initial;
  running = false;
  joinable = false;
  has_transport = false;
  configured = false;
  connected = false;
  last_error = "";
  frame_count = 0;
  tx_sequence = 0;
}

-- What `notify_connection` passes to the handler.
abbrev Notice : Type 0
Notice = Bool × String

-- The payloads that the handler gets of the frames.
unfoldable pub payloads : List SerialFrame → List (List ℕ)
payloads [] = []
payloads (f ∷ fs) =
    let rest = payloads fs in if f.frame_type == frame_type_data then f.payload ∷ rest else rest

-- A round of the read loop: what the handlers get, and the driver after it.
pub record Round (W : Type 0) : Type 0 where
  pub notices : List Notice
  pub payloads : List (List ℕ)
  pub driver : Pager100LoraDriver
  pub world : W

module _ {W : Type 0} (serial : Serial Pager100LoraConfig W) where
  open serial use {create, open_port, close_port, is_open, read, spawn, join_thread, sleep}

  -- The flag is set before the thread is made, which may throw.
  abbrev pub started :
      Call (Unit {0}) × W → Pager100LoraDriver → Call (Unit {0}) × Pager100LoraDriver × W
  started (returns _, w) d = (returns tt, record d { running = true; joinable = true }, w)
  started (c, w) d = (c, record d { running = true }, w)

  unfoldable pub start : Pager100LoraDriver → W → Call (Unit {0}) × Pager100LoraDriver × W
  start d w = if d.running then (returns tt, d, w) else started (spawn w) d

  unfoldable pub stop : Pager100LoraDriver → W → Pager100LoraDriver × W
  stop d w =
      if d.joinable
      then (record d { running = false; joinable = false }, join_thread w)
      else (record d { running = false }, w)

  unfoldable pub cleanup : Pager100LoraDriver → W → Pager100LoraDriver × W
  unfolding stop
  cleanup d w =
      let (d', w') = stop d w in
      (
        record d' { has_transport = false; configured = false; connected = false },
        if d'.has_transport then close_port w' else w',
      )

  -- What `configure` stores, by the answer of the port: the text of the error, if there is one.
  unfoldable pub opened :
      Option String → Pager100LoraDriver → W → Option String × Pager100LoraDriver × W
  opened (some e) d w =
      (some e, record d { configured = false; connected = false; last_error = e }, w)
  opened none d w = (
    none,
    record d {
      has_transport = true;
      configured = true;
      connected = true;
      last_error = "";
      frame_count = 0;
      tx_sequence = 0;
    },
    w,
  )

  -- What `configure` does with the answer of the factory.
  abbrev pub made :
      Call (Unit {0}) × W
      → Pager100LoraConfig
      → Pager100LoraDriver
      → Call (Option String) × Pager100LoraDriver × W
  made (returns _, w) c d =
      let (refusal, w') = open_port c.port c.baudrate w in
      let (e, d', w'') = opened refusal (record d { config = c }) w' in (returns e, d', w'')
  made (throws m, w) c d = (throws m, record d { config = c }, w)
  made (throws_unknown, w) c d = (throws_unknown, record d { config = c }, w)

  unfoldable pub configure :
      Pager100LoraConfig → Pager100LoraDriver → W → Call (Option String) × Pager100LoraDriver × W
  unfolding cleanup opened
  configure c d w = let (d', w') = cleanup d w in made (create c w') c d'

  pub snapshot : Pager100LoraDriver → Pager100LoraSnapshot
  snapshot d = record {
    connected = d.connected;
    last_error = d.last_error;
    frame_count = d.frame_count;
  }

  -- Only the first fault of a connection is a notice.
  unfoldable pub handle_fault : String → Pager100LoraDriver → W → Round W
  handle_fault m d w = record {
    notices = if d.connected then (false, m) ∷ [] else [];
    payloads = [];
    driver = record d { connected = false; last_error = m };
    world = close_port w;
  }

  -- `++frame_count_` for each of the data frames.
  unfoldable pub count_frames : List SerialFrame → ℕ → ℕ
  count_frames [] n = n
  count_frames (f ∷ fs) n =
      count_frames fs (if f.frame_type == frame_type_data then (n + 1) % 2 ^ 64 else n)

  -- The read in `read_loop`. `still` is what the second load of `running_` gives. A call of `feed`
  -- on no bytes finds no frame and leaves the decoder.
  unfoldable pub read_port : Bool → Pager100LoraDriver → W → Round W
  unfolding payloads count_frames handle_fault
  read_port still d w =
      let (r, w') = read d.config.read_chunk_size w in
      if not still then record { notices = []; payloads = []; driver = d; world = w' } else elim r [
        | received bs ↦
            (let (fs, decoder) = feed d.decoder bs in
              record {
                notices = [];
                payloads = payloads fs;
                driver = record d {
                  decoder = decoder;
                  frame_count = count_frames fs d.frame_count;
                };
                world = w';
              })
        | read_failed m ↦ handle_fault (append "读取串口失败: " m) d w'
      ]

  -- One round of the loop in `read_loop`, whose test `running_` held.
  unfoldable pub read_round : Bool → Pager100LoraDriver → W → Round W
  unfolding read_port
  read_round still d w =
      if is_open w
      then read_port still d w
      else (let (refusal, w') = open_port d.config.port d.config.baudrate w in
          elim refusal [
            | none ↦
                (let r = read_port still (record d { connected = true; last_error = "" }) w' in
                  record r { notices = (true, "串口已恢复连接") ∷ r.notices })
            | some e ↦ record {
              notices = [];
              payloads = [];
              driver = record d { last_error = e };
              world = sleep d.config.reconnect_backoff_ms w';
            }
          ])

  -- `write` returns the text of the error, if it fails.
  module _ (write : List ℕ → W → Option String × W) where
    -- `send` behind the encoding: the text of the error, if there is one.
    unfoldable pub written :
        Option String × W → Pager100LoraDriver → Option String × Pager100LoraDriver × W
    written (some e, w) d = (some e, record d { connected = false; last_error = e }, close_port w)
    written (none, w) d = (none, record d { tx_sequence = bit_and (d.tx_sequence + 1) 0xFF }, w)

    unfoldable pub send : List ℕ → Pager100LoraDriver → W → Option String × Pager100LoraDriver × W
    unfolding written to_string
    send payload d w =
        if not d.has_transport || not (is_open w)
        then (some "串口尚未打开", d, w)
        else elim (encode_frame payload d.tx_sequence frame_type_data) [
          | none ↦ (some (append "payload too large: " (to_string (length payload))), d, w)
          | some frame ↦ written (write frame w) d
        ]
