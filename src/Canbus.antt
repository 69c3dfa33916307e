-- ===== src/Canbus.antt =====
-- app/src/domain/canbus_domain: what the firmware sends on the CAN bus.
pub mod Platform
pub mod Frame
pub mod Script
pub mod Task
pub mod Scheduler
pub mod Tests
