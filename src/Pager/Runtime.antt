-- ===== src/Pager/Runtime.antt =====
-- `Pager100LoraRuntime` of drivers/pager100_lora_bridge/src/pager100_lora_runtime.cpp: what it adds
-- to the runtime of Drivers/Runtime.antt.
pub mod Lifecycle
use device_manager.Common.{ℕ, ◌%◌, ◌^◌, String, Bool, false, List, Option, none, some}
use device_manager.Core.Types.{ParameterMap, DeviceDefinition}
use device_manager.Core.Runtime.{Runtime, LifecycleMethods}
use device_manager.Drivers.Transport.{Serial}
use device_manager.Drivers.Parameters.{as_string, as_integer, Configured, valid, read_into}
use device_manager.Drivers.Runtime.{
  Driver, Texts, DriverRuntime, make_runtime, methods, device_runtime,
}
use device_manager.Pager.Driver.{
  Pager100LoraConfig, Pager100LoraSnapshot, Pager100LoraDriver, make_driver,
}
use device_manager.Pager.Driver as Port

-- The integers are the 64-bit patterns of the parameters, and an `int` keeps the low half.
unfoldable pub config_from : ParameterMap → Pager100LoraConfig → Configured Pager100LoraConfig
unfolding read_into
config_from ps c0 =
    let c1 =
      read_into as_string (λ v c. record c { port = v }) ps "device.interface.serial_port"
        (valid c0) in
    let c2 =
      read_into as_integer (λ v c. record c { baudrate = v % 2 ^ 32 }) ps
        "device.interface.serial_baudrate" c1 in
    let c3 =
      read_into as_integer (λ v c. record c { read_chunk_size = v }) ps "read_chunk_size" c2 in
    read_into as_integer (λ v c. record c { reconnect_backoff_ms = v % 2 ^ 32 }) ps
      "reconnect_backoff_ms" c3

-- `initialize` reads nothing.
abbrev pub Pager100LoraRuntime : Type 0 → Type 0
Pager100LoraRuntime W = DriverRuntime Pager100LoraConfig Pager100LoraDriver (Unit {0}) W

abbrev pub texts : Texts
texts = record {
  source = "pager100_lora_bridge";
  online = "pager100.online";
  disconnected = "pager100.disconnected";
  connect_failed = "pager100.connect_failed";
  not_configured = "lora driver is not configured";
}

abbrev pub make_pager_runtime : {W : Type 0} → Pager100LoraConfig → W → Pager100LoraRuntime W
make_pager_runtime c = make_runtime c tt

module _ {W : Type 0} (serial : Serial Pager100LoraConfig W) (clock : W → ℕ × W) where
  abbrev pub driver_ops : Driver Pager100LoraConfig Pager100LoraDriver W
  driver_ops = record {
    make = make_driver;
    config = λ d. d.config;
    is_configured = λ d. d.configured;
    start = Port.start serial;
    stop = Port.stop serial;
    cleanup = Port.cleanup serial;
    configure = Port.configure serial;
  }

  abbrev pub pager_methods : LifecycleMethods (Pager100LoraRuntime W)
  pager_methods = methods driver_ops texts config_from clock

  abbrev pub pager_device_runtime : Runtime (Pager100LoraRuntime W)
  pager_device_runtime = device_runtime driver_ops texts config_from clock (λ def r. r)

  pub snapshot : Pager100LoraRuntime W → Pager100LoraSnapshot
  snapshot r = elim r.driver [
    | some d ↦ Port.snapshot serial d
    | none ↦ record { connected = false; last_error = ""; frame_count = 0 }
  ]

  -- A message on the transmit topic. What `send` refuses is only logged.
  pub on_tx :
      (List ℕ → W → Option String × W) → List ℕ → Pager100LoraRuntime W → Pager100LoraRuntime W
  on_tx write payload r = elim r.driver [
    | none ↦ r
    | some d ↦
        (let (refusal, d', w) = Port.send serial write payload d r.serial in
          record r { driver = some d'; serial = w })
  ]
