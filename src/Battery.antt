-- ===== src/Battery.antt =====
-- The TWS battery of drivers/tws_battery_driver_ros2.
pub mod Assembler
pub mod Registers
pub mod Soc
pub mod Snapshot
pub mod Status
pub mod Driver
pub mod Poll
pub mod Can
pub mod Socketcan
pub mod Session
pub mod Watch
pub mod Messages
pub mod Runtime
mod Tests
