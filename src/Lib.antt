-- ===== src/Lib.antt =====
-- A model of device-manager: the core that leads devices through their lifecycle, and the parts of
-- the drivers that decode bytes and answer lifecycle requests.
--
-- Parts and files. A client calls the application, which passes its calls to the manager; the
-- manager holds one device for each id; a device holds a runtime and a queue with a worker thread;
-- the worker sends the requests of the queue to the runtime, and the runtime drives the hardware.
--   Core/Types         the types of device_manager_core/include/device_manager_core/
--                      device_manager.hpp, `standard_parameter_transitions`, `is_contiguous`
--   Core/Runtime       `IDeviceRuntime` and the dispatch in `DeviceRuntimeBase`
--   Core/Device        `Device` and `DeviceQueue` of device_manager_core/src/device_manager.cpp, as
--                      one record, with the observations
--   Core/Queue         `DeviceQueue::enqueue`, `enqueue_parameter_patch`, what `run` takes next
--   Core/Execute       `DeviceQueue::execute`, `execute_parameter_patch`, `finalize`, the records
--   Core/Worker        `DeviceQueue::start`, `stop` and `run`
--   Core/Manager       `Device::start`, `Device::stop`, `DeviceManager`
--   Core/Application   device_manager_core/src/device_manager_application.cpp
--   Drivers            what the serial drivers' packages have a copy of each: the serial port, the
--                      typed parameters, and the runtime that leads a driver through its lifecycle,
--                      after drivers/ch020_imu_driver/src/ch020_imu_runtime.cpp
--   Pager              drivers/pager100_lora_bridge: the frame codec (serial_frame.cpp), the driver
--                      (pager100_lora_driver.cpp), the runtime (pager100_lora_runtime.cpp)
--   Imu                drivers/ch020_imu_driver: decoder (hipnuc_decoder.cpp), driver
--                      (ch020_imu_driver.cpp), runtime, recovery and time stamps
--                      (ch020_imu_runtime.cpp)
--   Smit               drivers/smit_ros_driver: the protocol (smit_protocol.cpp), the scan assembler
--                      and the driver (smit_lidar_driver.cpp), the runtime (smit_lidar_runtime.cpp)
--   Battery            drivers/tws_battery_driver_ros2: the response assembly, the registers and the
--                      state of charge (the headers modbus_response_assembler.hpp,
--                      battery_register_blocks.hpp, soc_spike_filter.hpp and
--                      battery_soc_transition_tracker.hpp), the snapshot's texts
--                      (battery_snapshot.cpp), the status (battery_status_transition_tracker.hpp,
--                      battery_status_transition_log.hpp, battery_state_projection.hpp), the driver
--                      and its polls (tws_battery_driver.cpp), the CAN transport
--                      (socketcan_transport.cpp), the runtime (tws_battery_runtime.cpp)
--   Oradar             drivers/oradar_ros_driver: the client's interface (oradar_lidar_client.hpp),
--                      the configuration, the settings of the device, the runtime, the scan message
--                      and the read loop (oradar_lidar_runtime.cpp)
--   Camera             drivers/gmsl_v4l2_camera_driver: the sensor's memory with the serial number
--                      and the calibration, its reading over I2C and its use, the capture loop
--                      (gmsl_v4l2_camera_runtime.cpp)
--   Common             lists, maps by strings, bits and tests that the parts share
-- The modules below these hold the proofs, and a module Tests of each part the theorems at concrete
-- inputs.
--
-- How the model stands for the code. A runtime is a record of functions on a world `W`, which is
-- the driver, the hardware and the clock; every call returns the world after it, and may throw.
-- The threads are atomic steps: what the code does under a mutex is one step of the model, and
-- the worker's phase says which critical section or runtime call comes next. The step relation
-- lets every order of the steps happen. A device's event handler is a step as well. Exceptions
-- are values. Maps are association lists with distinct keys; the order in which the manager
-- visits its devices is the order of the list. Counters of 64 bits wrap; the theorem on patches
-- assumes fewer than 2^64 of them. Integers of the hardware are their bit patterns. `float` and
-- what is done with it are a parameter of the decoders, the scan assembler and the battery's
-- driver, and so are the serial port, its threads and its clock. The constructor of a
-- `std::thread` and a driver's factory may throw: they are calls whose result is a value, and
-- the theorems that need a thread or a transport say so. The battery's driver takes any
-- transport, whose calls return and do not throw; the CAN transport, whose exceptions are values
-- as well, fills this interface over the calls of the operating system, which are a parameter,
-- and the Oradar lidar's runtime stands over its client. The calls on the camera's I2C bus are a
-- parameter too. The interface between the core and a runtime is Core/Runtime, and the laws that
-- the core relies on are a record in Core/Runtime/Dispatch, which the drivers' runtimes fill.
--
-- Fuel. The loop of the lidar's `feed` runs on one more unit of fuel than the buffer has bytes;
-- every round but the last one takes bytes off the buffer. The loop of the CAN transport's
-- `exchange_frame` runs for 262 rounds; a response has at most 260 bytes, and every round but
-- the last one brings a byte of it. The flush before it is on fuel that is given; it ends if
-- fewer frames than that are there at its start. What has run out of fuel has no answer yet. The
-- loop of the camera that leads the next time past the present runs for one more round than that
-- time lies in the past, in nanoseconds; a period has at least one. The other loops are
-- recursion on lists, a number of rounds or single rounds.
--
-- Not modelled: the ROS adapters (device_manager_ros) and the publishers of the runtimes, the
-- system calls behind the transports, the camera's lifecycle and configuration, its V4L2 calls
-- and image processing, the Oradar lidar's SDK, which is the vendor's, and the setters of the
-- drivers' handlers. The poll thread of the battery is there or not, and its waiting is left
-- out.
pub mod Common
pub mod Core
pub mod Drivers
pub mod Pager
pub mod Imu
pub mod Smit
pub mod Battery
pub mod Oradar
pub mod Camera
