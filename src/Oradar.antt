-- ===== src/Oradar.antt =====
-- The Oradar lidar of drivers/oradar_ros_driver.
pub mod Client
pub mod Settings
pub mod Session
pub mod Runtime
pub mod Scan
pub mod Reader
mod Tests
