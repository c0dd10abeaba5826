-- ===== src/Battery/Can.antt =====
-- The frames and the checks of `SocketCanTransport` of
-- drivers/tws_battery_driver_ros2/src/socketcan_transport.cpp. A mask of ones is `%`, a shift is
-- `/`, and `|` of a flag is `+`, since an identifier has no flag.
pub mod Response
use device_manager.Common.{
  ℕ, zero, suc, ◌+◌, ◌-◌, ◌*◌, ◌/◌, ◌%◌, ◌^◌, String, append, Bool, true, false, not, ◌&&◌, ◌||◌,
  List, [], ◌∷◌, ◌++◌, Option, none, some, length, take, drop, get_or, ltb, leb, ◌==◌, bit_or,
  to_string, digit, if◌then◌else◌,
}
use device_manager.Pager.Crc as Crc
use device_manager.Battery.Assembler.{
  Assembler, AssemblyError, empty_fragment, too_long, AssemblyStatus, incomplete, complete, failed,
}
use device_manager.Battery.Assembler as Assembler
use device_manager.Battery.Driver.{BatteryDriverConfig, Answer, bytes, no_answer, Transport}

-- `struct can_frame`; the flags stand above the identifier.
pub record CanFrame : Type 0 where
  pub can_id : ℕ
  pub payload : List ℕ

-- `socket_fd_` is a descriptor if `connected`.
pub record SocketCanTransport : Type 0 where
  pub interface_name : String
  pub can_id : ℕ
  pub use_extended_frame : Bool
  pub timeout_ms : ℕ
  pub connected : Bool

-- `CAN_EFF_MASK` and `CAN_SFF_MASK` have 29 and 11 ones.
abbrev pub masked : Bool → ℕ → ℕ
masked extended can_id = if extended then can_id % 2 ^ 29 else can_id % 2 ^ 11

-- `CAN_EFF_FLAG`, for an extended frame.
abbrev pub flag : Bool → ℕ
flag extended = if extended then 2 ^ 31 else 0

-- The constructor.
abbrev pub make_transport : BatteryDriverConfig → SocketCanTransport
make_transport c = record {
  interface_name = c.can_interface;
  can_id = masked c.use_extended_frame c.can_id;
  use_extended_frame = c.use_extended_frame;
  timeout_ms = c.timeout_ms;
  connected = false;
}

abbrev pub wire_id : SocketCanTransport → ℕ
wire_id t = t.can_id + flag t.use_extended_frame

abbrev pub filter_mask : SocketCanTransport → ℕ
filter_mask t = if t.use_extended_frame then 2 ^ 29 - 1 + 2 ^ 31 else 2 ^ 11 - 1

abbrev pub is_extended : ℕ → Bool
is_extended can_id = can_id / 2 ^ 31 % 2 == 1

abbrev pub same_kind : Bool → Bool → Bool
same_kind true b = b
same_kind false b = not b

-- The same loop as in the codec of drivers/pager100_lora_bridge.
abbrev pub crc16 : List ℕ → ℕ
crc16 = Crc.crc16

unfoldable pub append_crc : List ℕ → List ℕ
append_crc bs = let crc = crc16 bs in bs ++ (crc % 256 ∷ crc / 256 % 256 ∷ [])

unfoldable pub validate_crc : List ℕ → Bool
validate_crc bs =
    let n = length bs in
    if ltb n 4
    then false
    else crc16 (take (n - 2) bs) == bit_or (get_or bs (n - 2) 0) (get_or bs (n - 1) 0 * 2 ^ 8)

abbrev hex : ℕ → String
hex n =
    if ltb n 10
    then digit n
    else if n == 10
    then "a"
    else if n == 11
    then "b"
    else if n == 12
    then "c"
    else if n == 13
    then "d"
    else if n == 14
    then "e"
    else "f"

-- A byte under `std::hex`.
unfoldable pub byte_to_hex : ℕ → String
byte_to_hex n = if ltb n 16 then hex n else append (hex (n / 16)) (hex (n % 16))

abbrev expected_actual : String → ℕ → String → ℕ → String
expected_actual before expected between actual =
    append before (append (to_string expected) (append between (to_string actual)))

-- The texts of the assembler's errors.
unfoldable pub assembly_text : AssemblyError → String
unfolding to_string
assembly_text empty_fragment = "收到空 CAN 响应分片"
assembly_text (too_long expected actual) =
    append (expected_actual "Modbus 多帧响应长度超限，期望 " expected " 字节，实际 " actual) " 字节"

abbrev expected_text : Option ℕ → String
expected_text none = ""
expected_text (some n) = append "，期望 " (append (to_string n) " 字节")

-- `ModbusResponseAssembler::timeout_error`.
unfoldable pub timeout_error : Assembler → String
unfolding to_string
timeout_error a = elim a.bytes [
  | [] ↦ "等待 BMS 响应超时"
  | _ ∷ _ ↦
      append "等待 BMS 响应超时，已收到 "
        (append (to_string (length a.bytes)) (append " 字节" (expected_text a.expected_size)))
]

-- What `receive_frame` ends with.
pub data Received : Type 0 where
  fragment : List ℕ → Received
  timeout : Received
  refused : String → Received

-- The tests of the frame that was read.
unfoldable pub accept_frame : SocketCanTransport → CanFrame → Received
accept_frame t f =
    if not (same_kind (is_extended f.can_id) t.use_extended_frame)
    then refused "收到的 CAN 帧类型与配置不一致"
    else if not (masked t.use_extended_frame f.can_id == t.can_id)
    then refused "收到的 CAN ID 与配置不一致"
    else fragment f.payload

-- The checks of a response, from that of its length on.
unfoldable pub accept_data : ℕ → ℕ → List ℕ → Answer
unfolding to_string
accept_data device count r =
    let expected = count * 2 in
    if not (length r == expected + 5)
    then no_answer
        (append (expected_actual "读寄存器响应长度异常，期望 " (expected + 5) " 字节，实际 " (length r)) " 字节")
    else if not (get_or r 0 0 == device) || not (get_or r 1 0 == 3)
    then no_answer "读寄存器响应头不匹配"
    else if not (get_or r 2 0 == expected)
    then no_answer (expected_actual "读寄存器字节数异常，期望 " expected "，实际 " (get_or r 2 0))
    else bytes (take expected (drop 3 r))

unfoldable pub accept_response : ℕ → ℕ → List ℕ → Answer
unfolding accept_data validate_crc byte_to_hex
accept_response device count r =
    if not (validate_crc r)
    then no_answer "BMS 响应 CRC 校验失败"
    else if length r == 5 && (get_or r 1 0 == 0x83)
    then no_answer (append "BMS 返回异常码 0x" (byte_to_hex (get_or r 2 0)))
    else accept_data device count r

unfoldable pub request_bytes : ℕ → ℕ → ℕ → List ℕ
unfolding append_crc
request_bytes device address count = append_crc (
    device ∷ 3 ∷ (address / 256 % 256) ∷ (address % 256) ∷ (count / 256 % 256) ∷ (count % 256) ∷ [])
