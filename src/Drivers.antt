-- ===== src/Drivers.antt =====
-- What the serial drivers under drivers/ have a copy of each: the interface of the serial port and
-- the reading of typed parameters, and the runtime that leads a driver through its lifecycle.
pub mod Transport
pub mod Parameters
pub mod Runtime
