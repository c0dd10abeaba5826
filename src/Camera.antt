-- ===== src/Camera.antt =====
-- The GMSL camera of drivers/gmsl_v4l2_camera_driver.
pub mod Otp
pub mod Sensor
pub mod Calibration
pub mod Capture
mod Tests
