-- ===== src/Core.antt =====
-- device_manager_core: the ROS-independent core.
pub mod Types
pub mod Runtime
pub mod Device
pub mod Queue
pub mod Execute
pub mod Worker
pub mod Manager
pub mod Application
mod Tests
