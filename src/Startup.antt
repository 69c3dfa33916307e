-- ===== src/Startup.antt =====
-- app/src/main.cpp: the start of the firmware, and the configurations that it writes.
pub mod Calls
pub mod Steps
pub mod Main
pub mod Configurations
pub mod Canbus
pub mod Logging
pub mod Sensors
mod Tests
