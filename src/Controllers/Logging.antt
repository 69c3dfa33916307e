-- ===== src/Controllers/Logging.antt =====
-- app/src/controllers/logging_controller.{h,cpp}: `LoggingController`, which starts and stops the
-- log writer and shows the status "log" on the display.
pub mod Sync
pub mod Shown
pub mod Tests
use eerie_leap_rt.Common.{
  ℕ, Bool, true, false, Option, none, some, List, ℤ, pos, is_zero, codes, if◌then◌else◌, Eff, deref,
  and_then, ◌>>=◌, returns,
}
use eerie_leap_rt.Controllers.Display.{Display, add_status, remove_status}

-- `LogWriterService`: its state, and how its two calls change it and what they return.
pub record LogWriter : Type 1 where
  pub World : Type 0
  pub is_running : World → Bool
  pub writer_start : World → ℤ × World
  pub writer_stop : World → ℤ × World

abbrev pub log_status : List ℕ
log_status = codes "log"

module _ (l : LogWriter) where
  open l use {World}

  pub record Logging : Type 0 where
    pub writer : World
    pub display : Display

  -- A return code other than 0 leaves the display alone.
  unfoldable pub started : ℤ × World → Logging → ℤ × Logging
  started (res, w) s =
      if is_zero res
      then (res, record { writer = w; display = add_status log_status s.display })
      else (res, record s { writer = w })

  unfoldable pub log_writer_start : Logging → ℤ × Logging
  unfolding started
  log_writer_start s =
      if l.is_running s.writer then (pos 0, s) else started (l.writer_start s.writer) s

  unfoldable pub stopped : ℤ × World → Logging → ℤ × Logging
  stopped (res, w) s =
      if is_zero res
      then (res, record { writer = w; display = remove_status log_status s.display })
      else (res, record s { writer = w })

  unfoldable pub log_writer_stop : Logging → ℤ × Logging
  unfolding stopped
  log_writer_stop s =
      if l.is_running s.writer then stopped (l.writer_stop s.writer) s else (pos 0, s)

  abbrev to_answer : ℤ × Logging → Bool × Logging
  to_answer (res, s) = (is_zero res, s)

  -- The handler of the CAN command LOGGING; the command, if there is one, says start or stop.
  unfoldable pub handle_command : Option Bool → Logging → Bool × Logging
  unfolding log_writer_start log_writer_stop
  handle_command none s = (false, s)
  handle_command (some true) s = to_answer (log_writer_start s)
  handle_command (some false) s = to_answer (log_writer_stop s)

  -- What the constructor uses of the MDF logger and of `SetLogger`.
  pub record Loggers : Type 1 where
    pub Sensors : Type 0
    pub Logger : Type 0
    pub new_logger : Sensors → Logger
    pub set_logger : Logger → World → World

  -- What the constructor leaves: the logger and the handler that it has set for LOGGING.
  pub record Constructed (g : Loggers) : Type 0 where
    pub logger : g.Logger
    pub handler : Option Bool → Logging → Bool × Logging

  -- The constructor, with what `sensors_configuration_manager_->Get()` returns.
  unfoldable pub construct : (g : Loggers) → Option g.Sensors → Eff Logging (Constructed g)
  unfolding handle_command
  construct g got = do
    sensors ← deref got
    λ s. (
      returns (record { logger = g.new_logger sensors; handler = handle_command }),
      record s { writer = g.set_logger (g.new_logger sensors) s.writer },
    )
