-- ===== src/Battery/Poll.antt =====
-- `TwsBatteryDriver::poll_once` of drivers/tws_battery_driver_ros2/src/tws_battery_driver.cpp and
-- what it calls.
pub mod Online
pub mod Failures
use device_manager.Common.{
  ℕ, ◌+◌, ◌%◌, ◌^◌, ◌*◌, String, append, Bool, true, false, not, ◌&&◌, ◌||◌, List, [], ◌∷◌, ◌++◌,
  Option, none, some, ◌==◌, ltb, to_string, if◌then◌else◌,
}
use device_manager.Battery.Registers.{
  BatteryFastRegisterValues, BatteryIdentityRegisterValues, BlockError, bad_block_a, bad_block_b,
  bad_identity_block, decoded, refused, fast_block_a_count, fast_block_b_count,
  identity_block_count, decode_fast_register_blocks, decode_identity_register_block,
}
use device_manager.Battery.Registers as Registers
use device_manager.Battery.Soc.{SocOps, SocSpikeFilter, BatterySocTransitionEvent, filter, observe}
use device_manager.Battery.Snapshot.{BatterySnapshot, sanitize_identity_string, version_to_text}
use device_manager.Battery.Status.{
  BatteryStatusTransitionEvent, BatteryStatusTransitionTracker, BatteryStatusLogRecord, info, warn,
  observe_online, observe_offline, make_battery_status_log_record, make_battery_soc_log_record,
}
use device_manager.Battery.Status as Status
use device_manager.Battery.Driver.{
  Answer, bytes, no_answer, Transport, FloatOps, TwsBatteryDriver, ensure_connected,
}

pub record BatteryPollResult (F : Type 0) : Type 0 where
  pub ok : Bool
  pub report_failure_event : Bool
  pub error_message : String
  pub snapshot : BatterySnapshot F
  pub log_records : List BatteryStatusLogRecord

abbrev pub consecutive_poll_failures_to_offline : ℕ
consecutive_poll_failures_to_offline = 3

abbrev pub fast_block_a_start : ℕ
fast_block_a_start = 0x9000

abbrev fast_block_b_start : ℕ
fast_block_b_start = 0x9028

abbrev identity_block_start : ℕ
identity_block_start = 0x9016

-- The text of a block with the wrong length.
abbrev block_text : String → ℕ → ℕ → String
block_text name expected actual = append name (
    append "长度异常，期望 "
      (append (to_string expected) (append " 字节，实际 " (append (to_string actual) " 字节"))))

pub error_text : BlockError → String
unfolding to_string
error_text (bad_block_a n) = block_text "快速寄存器块 A " (fast_block_a_count * 2) n
error_text (bad_block_b n) = block_text "快速寄存器块 B " (fast_block_b_count * 2) n
error_text (bad_identity_block n) = block_text "身份寄存器块" (identity_block_count * 2) n

-- What a read of registers comes to: a value, or the text of the error.
pub data Reading (A : Type 0) : Type 0 where
  read_value : A → Reading A
  read_error : String → Reading A

abbrev pub is_some : {A : Type 0} → Option A → Bool
is_some none = false
is_some (some x) = true

module _ {F W : Type 0} (float : FloatOps F) (transport : Transport W) where
  open float use {soc_ops, from_unsigned, from_signed, div, sub, thousand, forty, print_fixed}
  open transport use {read_holding_registers}

  abbrev status_log : Option BatteryStatusTransitionEvent → List BatteryStatusLogRecord
  status_log none = []
  status_log (some e) = make_battery_status_log_record e ∷ []

  abbrev soc_log : Option (BatterySocTransitionEvent F) → List BatteryStatusLogRecord
  soc_log none = []
  soc_log (some e) = make_battery_soc_log_record print_fixed e ∷ []

  unfoldable pub make_poll_failure_result :
      String → TwsBatteryDriver F → BatteryPollResult F × TwsBatteryDriver F
  unfolding observe_offline
  make_poll_failure_result m d =
      let snapshot : BatterySnapshot F = record (d.last_snapshot) {
        device_address = d.config.device_address;
      } in
      let failures = (d.consecutive_poll_failures + 1) % 2 ^ 64 in
      let (transition, tracker) = observe_offline m d.status_transition_tracker in
      let lost : BatterySnapshot F = record snapshot { connected = false; last_error = m } in
      if d.last_snapshot.connected && ltb failures consecutive_poll_failures_to_offline
      then (
        record {
          ok = false;
          report_failure_event = false;
          error_message = m;
          snapshot = snapshot;
          log_records = record { level = warn; message = append "电池轮询失败，暂不判定掉线: " m } ∷ [];
        },
        record d { consecutive_poll_failures = failures },
      )
      else (
        record {
          ok = false;
          report_failure_event = is_some transition || not d.has_successful_poll;
          error_message = m;
          snapshot = lost;
          log_records = status_log transition;
        },
        record d {
          consecutive_poll_failures = failures;
          status_transition_tracker = tracker;
          last_snapshot = lost;
        },
      )

  pub decode_temperature_c : ℕ → F
  decode_temperature_c raw = sub (from_unsigned raw) forty

  abbrev milli : ℕ → F
  milli n = div (from_unsigned n) thousand

  -- What `read_fast_snapshot` stores.
  unfoldable pub store_values :
      BatteryFastRegisterValues → F → BatterySnapshot F → BatterySnapshot F
  unfolding decode_temperature_c
  store_values v soc s = record s {
    work_state = v.work_state;
    pack_voltage_v = milli v.pack_voltage_mv;
    pack_current_a = div (from_signed v.pack_current_ma) thousand;
    max_cell_voltage_v = milli v.max_cell_voltage_mv;
    min_cell_voltage_v = milli v.min_cell_voltage_mv;
    max_cell_temperature_c = decode_temperature_c v.max_cell_temp;
    min_cell_temperature_c = decode_temperature_c v.min_cell_temp;
    max_board_temperature_c = decode_temperature_c v.max_board_temp;
    min_board_temperature_c = decode_temperature_c v.min_board_temp;
    protect_status = v.protect_status;
    io_status = v.io_status;
    soc = soc;
    soh = from_unsigned v.soh;
    remain_capacity_mah = from_unsigned v.remain_capacity_mah;
    cycle_count = v.cycle_count;
  }

  abbrev decode_fast : List ℕ → Answer → Reading BatteryFastRegisterValues
  decode_fast a (no_answer e) = read_error e
  decode_fast a (bytes b) = elim (decode_fast_register_blocks a b) [
    | decoded v ↦ read_value v
    | refused e ↦ read_error (error_text e)
  ]

  abbrev pub after_block_a : Answer × W → TwsBatteryDriver F → Reading BatteryFastRegisterValues × W
  after_block_a (no_answer e, w) d = (read_error e, w)
  after_block_a (bytes a, w) d =
      let (b, w') =
        read_holding_registers d.config.device_address fast_block_b_start fast_block_b_count w in
      (decode_fast a b, w')

  -- The two reads of `read_fast_snapshot` and the decoding.
  unfoldable pub read_fast_values : TwsBatteryDriver F → W → Reading BatteryFastRegisterValues × W
  unfolding decode_fast_register_blocks error_text
  read_fast_values d w =
      after_block_a
        (read_holding_registers d.config.device_address fast_block_a_start fast_block_a_count w) d

  abbrev with_warning : String → BatterySnapshot F → BatterySnapshot F × List BatteryStatusLogRecord
  with_warning m s = (s, record { level = warn; message = m } ∷ [])

  abbrev store_identity :
      Answer → BatterySnapshot F → BatterySnapshot F × List BatteryStatusLogRecord
  store_identity (no_answer e) s = with_warning (append "读取电池身份信息失败: " e) s
  store_identity (bytes block) s = elim (decode_identity_register_block block) [
    | refused e ↦ with_warning (append "解析电池身份信息失败: " (error_text e)) s
    | decoded v ↦ (
      record s {
        serial_number = sanitize_identity_string v.serial_number_bytes;
        software_version = version_to_text v.software_version;
        hardware_version = version_to_text v.hardware_version;
      },
      [],
    )
  ]

  -- `read_identity_snapshot`: the snapshot and what is logged.
  unfoldable pub read_identity_snapshot :
      BatterySnapshot F
      → TwsBatteryDriver F
      → W
      → BatterySnapshot F × List BatteryStatusLogRecord × W
  unfolding decode_identity_register_block error_text sanitize_identity_string version_to_text
  read_identity_snapshot s d w =
      let (answer, w') =
        read_holding_registers d.config.device_address identity_block_start identity_block_count
          w in
      let (s', logs) = store_identity answer s in (s', logs, w')

  -- The test of the divider, an `int`.
  abbrev identity_due : TwsBatteryDriver F → Bool
  identity_due d =
      let n = d.config.identity_poll_divider in
      ltb 0 n && ltb n (2 ^ 31) && (d.poll_counter % n == 0)

  -- `poll_once` from the successful read of the fast blocks on.
  unfoldable pub accept_values :
      BatteryFastRegisterValues
      → TwsBatteryDriver F
      → W
      → BatteryPollResult F × TwsBatteryDriver F × W
  unfolding store_values read_identity_snapshot observe_online filter observe
  accept_values v d w =
      let (soc, soc_filter) = filter soc_ops (from_unsigned v.soc) d.soc_filter in
      let fast =
        store_values v soc
          (record (d.last_snapshot) { device_address = d.config.device_address }) in
      let (identified, logs, w') =
        if identity_due d then read_identity_snapshot fast d w else (fast, [], w) in
      let snapshot : BatterySnapshot F = record identified { connected = true; last_error = "" } in
      let (transition, tracker) = observe_online snapshot.work_state d.status_transition_tracker in
      let (change, current_soc) = observe soc_ops snapshot.soc d.current_soc in
      (
        record {
          ok = true;
          report_failure_event = false;
          error_message = "";
          snapshot = snapshot;
          log_records = logs ++ status_log transition ++ soc_log change;
        },
        record d {
          status_transition_tracker = tracker;
          current_soc = current_soc;
          soc_filter = soc_filter;
          last_snapshot = snapshot;
          has_successful_poll = true;
          consecutive_poll_failures = 0;
          poll_counter = (d.poll_counter + 1) % 2 ^ 64;
        },
        w',
      )

  abbrev pub fail_poll :
      String → TwsBatteryDriver F → W → BatteryPollResult F × TwsBatteryDriver F × W
  fail_poll m d w = let (r, d') = make_poll_failure_result m d in (r, d', w)

  abbrev pub after_values :
      Reading BatteryFastRegisterValues × W
      → TwsBatteryDriver F
      → BatteryPollResult F × TwsBatteryDriver F × W
  after_values (read_error e, w) d = fail_poll e d w
  after_values (read_value v, w) d = accept_values v d w

  abbrev pub after_connect :
      Option String × TwsBatteryDriver F × W → BatteryPollResult F × TwsBatteryDriver F × W
  after_connect (some e, d, w) = fail_poll e d w
  after_connect (none, d, w) = after_values (read_fast_values d w) d

  unfoldable pub poll_once : TwsBatteryDriver F → W → BatteryPollResult F × TwsBatteryDriver F × W
  unfolding ensure_connected read_fast_values accept_values make_poll_failure_result
  poll_once d w = after_connect (ensure_connected transport d w)
