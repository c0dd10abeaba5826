-- ===== src/Imu.antt =====
-- The CH020 inertial measurement unit of drivers/ch020_imu_driver.
pub mod Crc
pub mod Decoder
pub mod Driver
pub mod Stamp
pub mod Recovery
pub mod Runtime
mod Tests
