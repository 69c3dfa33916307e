-- ===== src/Controllers.antt =====
-- app/src/controllers: the display and the logging controller.
pub mod Display
pub mod Logging
