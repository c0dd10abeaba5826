-- ===== src/Smit/Driver.antt =====
-- `SmitLidarDriver` of drivers/smit_ros_driver/src/smit_lidar_driver.cpp. What goes to the handlers
-- are lists.
use device_manager.Common.{
  ℕ, ◌+◌, ◌-◌, ◌*◌, ◌%◌, ◌^◌, String, Bool, true, false, not, List, [], ◌∷◌, ◌++◌, Option, none,
  some, ltb, append, if◌then◌else◌,
}
use device_manager.Core.Runtime.{Call, returns, throws, throws_unknown}
use device_manager.Drivers.Transport.{Serial, received, read_failed}
use device_manager.Smit.Protocol.{FloatOps, SmitConfigInfo, Decoded, config_info, point_packet}
use device_manager.Smit.Protocol
use device_manager.Smit.Scan.{
  DoubleOps, SmitScan, SmitScanAssembler, make_assembler, reset, set_window, set_config, add_packet,
}

-- `int` and `std::size_t` fields are their bit patterns.
pub record SmitLidarConfig (D : Type 0) : Type 0 where
  pub port : String
  pub baudrate : ℕ
  pub angle_min_deg : D
  pub angle_max_deg : D
  pub read_chunk_size : ℕ
  pub data_timeout_ms : ℕ
  pub reconnect_backoff_ms : ℕ

pub record SmitLidarSnapshot : Type 0 where
  pub connected : Bool
  pub config_received : Bool
  pub last_error : String
  pub frame_count : ℕ

-- `buffer` is that of the protocol, `joinable` is `read_thread_.joinable()`, and `has_transport`
-- that the pointer is set.
pub record SmitLidarDriver (F D : Type 0) : Type 0 where
  pub config : SmitLidarConfig D
  pub buffer : List ℕ
  pub assembler : SmitScanAssembler F D
  pub running : Bool
  pub joinable : Bool
  pub has_transport : Bool
  pub configured : Bool
  pub connected : Bool
  pub config_received : Bool
  pub last_error : String
  pub frame_count : ℕ
  pub last_frame_time : ℕ

-- What `notify_connection` passes to the handler.
abbrev Notice : Type 0
Notice = Bool × String

-- What the handlers get during a call, and the driver after it.
pub record Handled (F D W : Type 0) : Type 0 where
  pub notices : List Notice
  pub configs : List (SmitConfigInfo F)
  pub scans : List (SmitScan F D)
  pub driver : SmitLidarDriver F D
  pub world : W

abbrev quiet : {F D W : Type 0} → SmitLidarDriver F D → W → Handled F D W
quiet d w = record { notices = []; configs = []; scans = []; driver = d; world = w }

-- Two calls, one after the other.
abbrev and_then : {F D W : Type 0} → Handled F D W → Handled F D W → Handled F D W
and_then x y = record {
  notices = x.notices ++ y.notices;
  configs = x.configs ++ y.configs;
  scans = x.scans ++ y.scans;
  driver = y.driver;
  world = y.world;
}

module _ {F D W : Type 0} (double : DoubleOps F D) (serial : Serial (SmitLidarConfig D) W) where
  open serial use {create, open_port, close_port, is_open, read, now, spawn, join_thread, sleep}

  abbrev pub make_driver : SmitLidarConfig D → SmitLidarDriver F D
  make_driver c = record {
    config = c;
    buffer = [];
    assembler = make_assembler double c.angle_min_deg c.angle_max_deg;
    running = false;
    joinable = false;
    has_transport = false;
    configured = false;
    connected = false;
    config_received = false;
    last_error = "";
    frame_count = 0;
    last_frame_time = 0;
  }

  -- The flag is set before the thread is made, which may throw.
  abbrev pub started :
      Call (Unit {0}) × W → SmitLidarDriver F D → Call (Unit {0}) × SmitLidarDriver F D × W
  started (returns _, w) d = (returns tt, record d { running = true; joinable = true }, w)
  started (c, w) d = (c, record d { running = true }, w)

  unfoldable pub start : SmitLidarDriver F D → W → Call (Unit {0}) × SmitLidarDriver F D × W
  start d w = if d.running then (returns tt, d, w) else started (spawn w) d

  unfoldable pub stop : SmitLidarDriver F D → W → SmitLidarDriver F D × W
  stop d w =
      if d.joinable
      then (record d { running = false; joinable = false }, join_thread w)
      else (record d { running = false }, w)

  unfoldable pub cleanup : SmitLidarDriver F D → W → SmitLidarDriver F D × W
  unfolding stop
  cleanup d w =
      let (d', w') = stop d w in
      (
        record d' {
          has_transport = false;
          configured = false;
          connected = false;
          config_received = false;
        },
        if d'.has_transport then close_port w' else w',
      )

  -- What `configure` stores, by the answer of the port: the text of the error, if there is one.
  unfoldable pub opened :
      Option String → SmitLidarDriver F D → W → Option String × SmitLidarDriver F D × W
  opened (some e) d w = (
    some e,
    record d { has_transport = false; configured = false; connected = false; last_error = e },
    w,
  )
  opened none d w =
      let (t, w') = now w in
      (
        none,
        record d {
          has_transport = true;
          configured = true;
          connected = true;
          config_received = false;
          last_error = "";
          frame_count = 0;
          last_frame_time = t;
        },
        w',
      )

  -- What `configure` does with the answer of the factory.
  abbrev pub made :
      Call (Unit {0}) × W
      → SmitLidarConfig D
      → SmitLidarDriver F D
      → Call (Option String) × SmitLidarDriver F D × W
  made (returns _, w) c d =
      let (refusal, w') = open_port c.port c.baudrate w in
      let (e, d', w'') = opened refusal (record d { config = c }) w' in (returns e, d', w'')
  made (throws m, w) c d = (throws m, record d { config = c }, w)
  made (throws_unknown, w) c d = (throws_unknown, record d { config = c }, w)

  unfoldable pub configure :
      SmitLidarConfig D → SmitLidarDriver F D → W → Call (Option String) × SmitLidarDriver F D × W
  unfolding cleanup opened
  configure c d w =
      let (d', w') = cleanup d w in
      let windowed = set_window double c.angle_min_deg c.angle_max_deg d'.assembler in
      made (create c w') c (record d' { assembler = windowed })

  pub snapshot : SmitLidarDriver F D → SmitLidarSnapshot
  snapshot d = record {
    connected = d.connected;
    config_received = d.config_received;
    last_error = d.last_error;
    frame_count = d.frame_count;
  }

  -- Only the first fault of a connection is a notice.
  unfoldable pub handle_fault : String → SmitLidarDriver F D → W → Handled F D W
  handle_fault m d w = record {
    notices = if d.connected then (false, m) ∷ [] else [];
    configs = [];
    scans = [];
    driver = record d { connected = false; last_error = m };
    world = close_port w;
  }

  -- What both packet handlers do first.
  abbrev count_frame : SmitLidarDriver F D → W → SmitLidarDriver F D
  count_frame d w = record d {
    last_frame_time = (now w).0;
    frame_count = (d.frame_count + 1) % 2 ^ 64;
  }

  -- `handle_config` and `handle_point_packet`, with `handle_scan`.
  unfoldable pub handle : Decoded F → SmitLidarDriver F D → W → Handled F D W
  handle (config_info c) d w =
      let d' = count_frame d w in
      record {
        notices = [];
        configs = c ∷ [];
        scans = [];
        driver = record d' {
          config_received = true;
          assembler = set_config double c.motor_speed c.lidar_freq d'.assembler;
        };
        world = (now w).1;
      }
  handle (point_packet p) d w =
      let d' = count_frame d w in
      let (scans, a) = add_packet double p d'.assembler in
      record {
        notices = [];
        configs = [];
        scans = scans;
        driver = record d' { assembler = a };
        world = (now w).1;
      }

  unfoldable pub handle_all : List (Decoded F) → SmitLidarDriver F D → W → Handled F D W
  unfolding handle
  handle_all [] d w = quiet d w
  handle_all (x ∷ xs) d w = let h = handle x d w in and_then h (handle_all xs h.driver h.world)

  -- A negative `int` is a timeout that has always passed.
  unfoldable pub data_stalled : SmitLidarDriver F D → W → Bool × W
  data_stalled d w =
      if d.connected
      then (
        if ltb d.config.data_timeout_ms (2 ^ 31)
            then ltb (d.config.data_timeout_ms * 10 ^ 6) ((now w).0 - d.last_frame_time)
            else true,
        (now w).1,
      )
      else (false, w)

  -- The end of a round of `read_loop`.
  unfoldable pub check_stalled : SmitLidarDriver F D → W → Handled F D W
  unfolding data_stalled handle_fault
  check_stalled d w =
      let (stalled, w') = data_stalled d w in
      if stalled then handle_fault "串口数据停滞超时" d w' else quiet d w'

  module _ (float : FloatOps F) where
    -- A read in `read_loop`. `still` is what the second load of `running_` gives.
    unfoldable pub read_port : Bool → SmitLidarDriver F D → W → Handled F D W
    unfolding handle_all check_stalled handle_fault
    read_port still d w =
        let (r, w') = read d.config.read_chunk_size w in
        if not still then quiet d w' else elim r [
          | received [] ↦ check_stalled d w'
          | received (b ∷ bs) ↦
              (let (decoded, buffer) = Protocol.feed float d.buffer (b ∷ bs) in
                let h = handle_all decoded (record d { buffer = buffer }) w' in
                and_then h (check_stalled h.driver h.world))
          | read_failed m ↦ handle_fault (append "读取串口失败: " m) d w'
        ]

    -- One round of the loop in `read_loop`, whose test `running_` held.
    unfoldable pub read_round : Bool → SmitLidarDriver F D → W → Handled F D W
    unfolding read_port
    read_round still d w =
        if is_open w
        then read_port still d w
        else (let (refusal, w') = open_port d.config.port d.config.baudrate w in
            elim refusal [
              | none ↦
                  (let (t, w'') = now w' in
                    let h =
                      read_port still
                        (record d {
                          assembler = reset double d.assembler;
                          connected = true;
                          last_error = "";
                          last_frame_time = t;
                        })
                        w'' in
                    record h { notices = (true, "串口已恢复连接") ∷ h.notices })
              | some e ↦
                  quiet (record d { last_error = e }) (sleep d.config.reconnect_backoff_ms w')
            ])
