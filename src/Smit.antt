-- ===== src/Smit.antt =====
-- The SMIT serial lidar of drivers/smit_ros_driver.
pub mod Protocol
pub mod Scan
pub mod Driver
pub mod Runtime
mod Tests
