-- ===== src/Imu/Driver.antt =====
-- `Ch020ImuDriver` of drivers/ch020_imu_driver/src/ch020_imu_driver.cpp. The serial port, the
-- threads and the steady clock (in nanoseconds) are a parameter, with a world `W` that their calls
-- take along. The notices and packets that go to the handlers are lists.
use device_manager.Common.{
  ℕ, ◌+◌, ◌-◌, ◌*◌, ◌%◌, ◌^◌, String, Bool, true, false, not, List, [], ◌∷◌, ◌++◌, Option, none,
  some, ltb, append, if◌then◌else◌,
}
use device_manager.Core.Runtime.{Call, returns, throws, throws_unknown}
use device_manager.Drivers.Transport.{Serial, received, read_failed}
use device_manager.Imu.Decoder.{FloatOps, ImuSolPacket, HipnucDecoder, feed}
use device_manager.Imu.Decoder as Decoder

-- `int` and `std::size_t` fields are their bit patterns.
pub record Ch020ImuConfig : Type 0 where
  pub port : String
  pub baudrate : ℕ
  pub read_chunk_size : ℕ
  pub data_timeout_ms : ℕ
  pub reconnect_backoff_ms : ℕ

pub record Ch020ImuSnapshot : Type 0 where
  pub connected : Bool
  pub last_error : String
  pub frame_count : ℕ

-- `joinable` is `read_thread_.joinable()`, and `has_transport` that the pointer is set.
pub record Ch020ImuDriver : Type 0 where
  pub config : Ch020ImuConfig
  pub decoder : HipnucDecoder
  pub running : Bool
  pub joinable : Bool
  pub has_transport : Bool
  pub configured : Bool
  pub connected : Bool
  pub last_error : String
  pub frame_count : ℕ
  pub last_frame_time : ℕ

abbrev pub make_driver : Ch020ImuConfig → Ch020ImuDriver
make_driver c = record {
  config = c;
  decoder = Decoder.initial;
  running = false;
  joinable = false;
  has_transport = false;
  configured = false;
  connected = false;
  last_error = "";
  frame_count = 0;
  last_frame_time = 0;
}

-- What `notify_connection` passes to the handler.
abbrev pub Notice : Type 0
Notice = Bool × String

module _ {W : Type 0} (serial : Serial Ch020ImuConfig W) where
  open serial use {create, open_port, close_port, is_open, read, now, spawn, join_thread, sleep}

  -- The flag is set before the thread is made, which may throw.
  abbrev pub started : Call (Unit {0}) × W → Ch020ImuDriver → Call (Unit {0}) × Ch020ImuDriver × W
  started (returns _, w) d = (returns tt, record d { running = true; joinable = true }, w)
  started (c, w) d = (c, record d { running = true }, w)

  unfoldable pub start : Ch020ImuDriver → W → Call (Unit {0}) × Ch020ImuDriver × W
  start d w = if d.running then (returns tt, d, w) else started (spawn w) d

  unfoldable pub stop : Ch020ImuDriver → W → Ch020ImuDriver × W
  stop d w =
      if d.joinable
      then (record d { running = false; joinable = false }, join_thread w)
      else (record d { running = false }, w)

  unfoldable pub cleanup : Ch020ImuDriver → W → Ch020ImuDriver × W
  unfolding stop
  cleanup d w =
      let (d', w') = stop d w in
      (
        record d' { has_transport = false; configured = false; connected = false },
        if d'.has_transport then close_port w' else w',
      )

  -- What `configure` stores, by the answer of the port: the text of the error, if there is one.
  unfoldable pub opened :
      Ch020ImuConfig → Option String → Ch020ImuDriver → W → Option String × Ch020ImuDriver × W
  opened c (some e) d w = (
    some e,
    record d {
      config = c;
      has_transport = false;
      configured = false;
      connected = false;
      last_error = e;
    },
    w,
  )
  opened c none d w =
      let (t, w') = now w in
      (
        none,
        record d {
          config = c;
          has_transport = true;
          configured = true;
          connected = true;
          last_error = "";
          frame_count = 0;
          last_frame_time = t;
        },
        w',
      )

  -- What `configure` does with the answer of the factory.
  abbrev pub made :
      Call (Unit {0}) × W
      → Ch020ImuConfig
      → Ch020ImuDriver
      → Call (Option String) × Ch020ImuDriver × W
  made (returns _, w) c d =
      let (refusal, w') = open_port c.port c.baudrate w in
      let (e, d', w'') = opened c refusal d w' in (returns e, d', w'')
  made (throws m, w) c d = (throws m, record d { config = c }, w)
  made (throws_unknown, w) c d = (throws_unknown, record d { config = c }, w)

  unfoldable pub configure :
      Ch020ImuConfig → Ch020ImuDriver → W → Call (Option String) × Ch020ImuDriver × W
  unfolding cleanup opened
  configure c d w = let (d', w') = cleanup d w in made (create c w') c d'

  pub snapshot : Ch020ImuDriver → Ch020ImuSnapshot
  snapshot d = record {
    connected = d.connected;
    last_error = d.last_error;
    frame_count = d.frame_count;
  }

  -- Only the first fault of a connection is a notice.
  unfoldable pub handle_fault : String → Ch020ImuDriver → W → List Notice × Ch020ImuDriver × W
  handle_fault m d w = (
    if d.connected then (false, m) ∷ [] else [],
    record d { connected = false; last_error = m },
    close_port w,
  )

  -- The bookkeeping of `handle_packet` for each of the packets.
  unfoldable pub count_packets : {A : Type 0} → List A → Ch020ImuDriver → W → Ch020ImuDriver × W
  count_packets [] d w = (d, w)
  count_packets (p ∷ ps) d w =
      let (t, w') = now w in
      count_packets ps
        (record d { last_frame_time = t; frame_count = (d.frame_count + 1) % 2 ^ 64 }) w'

  -- A negative `int` is a timeout that has always passed.
  unfoldable pub data_stalled : Ch020ImuDriver → W → Bool × W
  data_stalled d w =
      if d.connected
      then (
        if ltb d.config.data_timeout_ms (2 ^ 31)
            then ltb (d.config.data_timeout_ms * 10 ^ 6) ((now w).0 - d.last_frame_time)
            else true,
        (now w).1,
      )
      else (false, w)

  module _ {F : Type 0} (float : FloatOps F) where
    pub record Round : Type 0 where
      pub notices : List Notice
      pub packets : List (ImuSolPacket F)
      pub driver : Ch020ImuDriver
      pub world : W

    -- The end of a round of `read_loop`.
    unfoldable pub check_stalled : List Notice → List (ImuSolPacket F) → Ch020ImuDriver → W → Round
    unfolding data_stalled handle_fault
    check_stalled ns ps d w =
        let (stalled, w') = data_stalled d w in
        if stalled
        then (let (ms, d', w'') = handle_fault "串口数据停滞超时" d w' in
            record { notices = ns ++ ms; packets = ps; driver = d'; world = w'' })
        else record { notices = ns; packets = ps; driver = d; world = w' }

    -- A read in `read_loop`. `still` is what the second load of `running_` gives.
    unfoldable pub read_port : Bool → List Notice → Ch020ImuDriver → W → Round
    unfolding feed count_packets check_stalled handle_fault
    read_port still ns d w =
        let (r, w') = read d.config.read_chunk_size w in
        if not still
        then record { notices = ns; packets = []; driver = d; world = w' }
        else elim r [
          | received bs ↦
              (let (ps, decoder) = feed float d.decoder bs in
                let (d', w'') = count_packets ps (record d { decoder = decoder }) w' in
                check_stalled ns ps d' w'')
          | read_failed m ↦
              (let (ms, d', w'') = handle_fault (append "读取串口失败: " m) d w' in
                record { notices = ns ++ ms; packets = []; driver = d'; world = w'' })
        ]

    -- One round of the loop in `read_loop`, whose test `running_` held.
    unfoldable pub read_round : Bool → Ch020ImuDriver → W → Round
    unfolding read_port
    read_round still d w =
        if is_open w
        then read_port still [] d w
        else (let (refusal, w') = open_port d.config.port d.config.baudrate w in
            elim refusal [
              | none ↦
                  read_port still ((true, "串口已恢复连接") ∷ [])
                    (record d { connected = true; last_error = ""; last_frame_time = (now w').0 })
                    (now w').1
              | some e ↦ record {
                notices = [];
                packets = [];
                driver = record d { last_error = e };
                world = sleep d.config.reconnect_backoff_ms w';
              }
            ])
