-- ===== src/Pager.antt =====
-- drivers/pager100_lora_bridge: the pager's LoRa bridge.
pub mod Crc
pub mod Frame
pub mod Driver
pub mod Runtime
mod Tests
