-- ===== src/Battery/Socketcan.antt =====
-- `SocketCanTransport` of drivers/tws_battery_driver_ros2/src/socketcan_transport.cpp: the
-- connection and the exchange of a request for a response. The calls of the operating system are a
-- parameter, with a world `W`.
pub mod Exchange
pub mod Rounds
pub mod Connection
mod Tests
use device_manager.Common.{
  ℕ, zero, suc, ◌+◌, ◌-◌, ◌*◌, ◌^◌, String, append, Bool, true, false, not, ◌||◌, List, Option,
  none, some, length, ltb, leb, empty, ◌==◌, if◌then◌else◌,
}
use device_manager.Battery.Assembler.{
  Assembler, AssemblyStatus, incomplete, complete, failed, initial,
}
use device_manager.Battery.Assembler as Assembler
use device_manager.Battery.Driver.{BatteryDriverConfig, Answer, bytes, no_answer, Transport}
use device_manager.Battery.Can.{
  CanFrame, SocketCanTransport, make_transport, wire_id, filter_mask, Received, fragment, timeout,
  refused, accept_frame, assembly_text, timeout_error, request_bytes, accept_response,
}

-- What `select` returns: a negative number, zero or a positive one.
pub data Ready : Type 0 where
  select_failed timed_out readable : Ready

-- `socket`, `setsockopt` and the like tell whether they succeeded. `set_options` is the two calls
-- whose result is ignored, a `read` of none is one that gives no frame, and `now` is in
-- microseconds.
pub record Socket (W : Type 0) : Type 0 where
  pub socket : W → Bool × W
  pub set_options : W → W
  pub set_filter : ℕ → ℕ → W → Bool × W
  pub set_nonblocking : W → Bool × W
  pub interface_index : String → W → Option ℕ × W
  pub bind : ℕ → W → Bool × W
  pub close : W → W
  pub strerror : W → String
  pub write : CanFrame → W → Bool × W
  pub select : ℕ → W → Ready × W
  pub read : W → Option CanFrame × W
  pub now : W → ℕ × W

-- How `exchange_frame` ends; `running` is that the fuel is used up.
pub data Exchanged : Type 0 where
  response : List ℕ → Exchanged
  broken : String → Exchanged
  running : Exchanged

module _ {W : Type 0} (os : Socket W) where
  abbrev errno_to_string : String → W → String
  errno_to_string prefix w = append prefix (append ": " (os.strerror w))

  unfoldable pub disconnect : SocketCanTransport → W → SocketCanTransport × W
  disconnect t w = if t.connected then (record t { connected = false }, os.close w) else (t, w)

  -- An error on the way closes the descriptor.
  abbrev pub give_up : String → SocketCanTransport → W → Option String × SocketCanTransport × W
  give_up m t w = let (t', w') = disconnect t w in (some (errno_to_string m w), t', w')

  abbrev pub bind_to : Option ℕ × W → SocketCanTransport → Option String × SocketCanTransport × W
  bind_to (none, w) t = give_up "读取 CAN 接口索引失败" t w
  bind_to (some index, w) t =
      let (bound, w') = os.bind index w in
      if bound then (none, t, w') else give_up "绑定 CAN 接口失败" t w'

  -- `connect` with an open descriptor.
  unfoldable pub set_up : SocketCanTransport → W → Option String × SocketCanTransport × W
  unfolding disconnect
  set_up t w =
      let (filtered, w1) = os.set_filter (wire_id t) (filter_mask t) (os.set_options w) in
      let (nonblocking, w2) = os.set_nonblocking w1 in
      if not filtered
      then give_up "设置 CAN 过滤器失败" t w1
      else if not nonblocking
      then give_up "设置 CAN socket 非阻塞失败" t w2
      else bind_to (os.interface_index t.interface_name w2) t

  unfoldable pub connect : SocketCanTransport → W → Option String × SocketCanTransport × W
  unfolding disconnect set_up
  connect t w =
      let (t', w0) = disconnect t w in
      let (made, w1) = os.socket w0 in
      if not made
      then (some (errno_to_string "创建 CAN socket 失败" w1), t', w1)
      else set_up (record t' { connected = true }) w1

  abbrev pub send_frame : List ℕ → SocketCanTransport → W → Option String × W
  send_frame payload t w =
      if empty payload || ltb 8 (length payload)
      then (some "CAN 经典帧只支持 1~8 字节 payload", w)
      else (let (written, w') = os.write (record { can_id = wire_id t; payload = payload }) w in
          (if written then none else some (errno_to_string "发送 CAN 帧失败" w'), w'))

  abbrev pub after_read : Option CanFrame × W → SocketCanTransport → Received × W
  after_read (none, w) t = (refused (errno_to_string "读取 CAN 响应失败" w), w)
  after_read (some f, w) t = (accept_frame t f, w)

  abbrev pub after_select : Ready × W → SocketCanTransport → Received × W
  after_select (select_failed, w) t = (refused (errno_to_string "等待 CAN 响应失败" w), w)
  after_select (timed_out, w) t = (timeout, w)
  after_select (readable, w) t = after_read (os.read w) t

  unfoldable pub receive_frame : SocketCanTransport → ℕ → W → Received × W
  unfolding accept_frame
  receive_frame t deadline w =
      let (now, w') = os.now w in
      if leb deadline now then (timeout, w') else after_select (os.select (deadline - now) w') t

  -- A round of the loop of `exchange_frame` behind `append`; `more` is the rounds that follow.
  abbrev pub after_append :
      AssemblyStatus × Assembler → (Assembler → W → Exchanged × W) → W → Exchanged × W
  after_append (incomplete, a) more w = more a w
  after_append (complete, a) more w = (response a.bytes, w)
  after_append (failed e, a) more w = (broken (assembly_text e), w)

  abbrev pub after_receive :
      Received × W → Assembler → (Assembler → W → Exchanged × W) → Exchanged × W
  after_receive (fragment bs, w) a more = after_append (Assembler.append bs a) more w
  after_receive (timeout, w) a more = (broken (timeout_error a), w)
  after_receive (refused m, w) a more = (broken m, w)

  unfoldable pub exchange_loop : ℕ → SocketCanTransport → ℕ → Assembler → W → Exchanged × W
  unfolding receive_frame Assembler.append assembly_text timeout_error
  exchange_loop zero t deadline a w = (running, w)
  exchange_loop (suc fuel) t deadline a w =
      after_receive (receive_frame t deadline w) a (exchange_loop fuel t deadline)

  -- Every round but the last adds a byte, and a response has at most 260 of them.
  abbrev pub rounds : ℕ
  rounds = 262

  -- `now` and `timeout_ms_`, an `int` whose bit pattern this is: a negative one is a deadline that
  -- has passed.
  abbrev pub deadline_at : ℕ → ℕ → ℕ
  deadline_at now timeout_ms =
      if ltb timeout_ms (2 ^ 31)
      then now + timeout_ms * 1000
      else now - (2 ^ 32 - timeout_ms) * 1000

  abbrev pub await : Option String × W → SocketCanTransport → Exchanged × W
  await (some e, w) t = (broken e, w)
  await (none, w) t =
      let (now, w') = os.now w in exchange_loop rounds t (deadline_at now t.timeout_ms) initial w'

  -- The loop reads as long as there is a frame, which has no end if the bus does not fall silent:
  -- the flag tells whether it has ended within the fuel.
  unfoldable pub flush_receive_buffer : ℕ → W → Bool × W
  flush_receive_buffer zero w = (false, w)
  flush_receive_buffer (suc fuel) w =
      let (frame, w') = os.read w in
      elim frame [ none ↦ (true, w') | some _ ↦ flush_receive_buffer fuel w' ]

  abbrev pub after_flush : Bool × W → List ℕ → SocketCanTransport → Exchanged × W
  after_flush (false, w) request t = (running, w)
  after_flush (true, w) request t = await (send_frame request t w) t

  unfoldable pub exchange_frame : ℕ → List ℕ → SocketCanTransport → W → Exchanged × W
  unfolding exchange_loop flush_receive_buffer
  exchange_frame fuel request t w =
      if not t.connected
      then (broken "CAN 尚未连接", w)
      else after_flush (flush_receive_buffer fuel w) request t

  -- What still runs when the fuel is used up has no answer yet.
  abbrev pub answer : ℕ → ℕ → Exchanged × W → Answer × W
  answer device count (response r, w) = (accept_response device count r, w)
  answer device count (broken e, w) = (no_answer e, w)
  answer device count (running, w) = (no_answer "", w)

  unfoldable pub read_holding_registers : ℕ → ℕ → ℕ → ℕ → SocketCanTransport → W → Answer × W
  unfolding exchange_frame request_bytes accept_response
  read_holding_registers fuel device address count t w =
      if count == 0
      then (no_answer "寄存器数量不能为 0", w)
      else answer device count (exchange_frame fuel (request_bytes device address count) t w)

  -- The transport that the driver's default factory makes, as the driver sees it.
  abbrev pub socketcan : ℕ → Transport (SocketCanTransport × W)
  socketcan fuel = record {
    create = λ c (t, w). (true, (make_transport c, w));
    connect = λ (t, w). let (e, t', w') = connect t w in (e, (t', w'));
    disconnect = λ (t, w). disconnect t w;
    is_connected = λ (t, w). t.connected;
    read_holding_registers =
        λ d a c (t, w). let (r, w') = read_holding_registers fuel d a c t w in (r, (t, w'));
  }
