-- ===== src/Canbus/Task.antt =====
-- app/src/domain/canbus_domain/services/canbus_scheduler_service.cpp,
-- ProcessCanbusWorkTask: one run of a task on the work queue.
pub mod Sends
pub mod Paced
use eerie_leap_rt.Common.{
  ℕ, Bool, true, false, List, [], ◌∷◌, codes, Outcome, returns, and_then, Eff, pure, catching,
  ◌>>=◌, ◌>>◌,
}
use eerie_leap_rt.Canbus.Platform.{Platform, CanbusTask}
use eerie_leap_rt.Canbus.Frame.{build}
use eerie_leap_rt.Canbus.Script.{process}

-- `WorkQueueTaskResult`; K_NO_WAIT is a delay of 0.
pub record WorkQueueTaskResult : Type 0 where
  pub reschedule : Bool
  pub delay : ℕ

-- A processor's data takes the place of the frame's, unless it is empty.
abbrev pub replaced : List ℕ → List ℕ → List ℕ
replaced [] can_frame_data = can_frame_data
replaced (b ∷ bs) can_frame_data = b ∷ bs

module _ (p : Platform) where
  open p use {World, Config, Message, Canbus}

  -- `ICanFrameProcessor::Process`.
  abbrev pub Processor : Type 0
  Processor = Message → List ℕ → Eff World (List ℕ)

  -- The processors that the constructor makes.
  abbrev pub can_frame_processors : List Processor
  can_frame_processors = process p (codes "process_can_frame") ∷ []

  unfoldable pub run_processors : List Processor → Message → List ℕ → Eff World (List ℕ)
  run_processors [] message can_frame_data = pure can_frame_data
  run_processors (processor ∷ processors) message can_frame_data = do
    processed_data ← processor message can_frame_data
    run_processors processors message (replaced processed_data can_frame_data)

  unfoldable pub send_nonempty : Canbus → ℕ → List ℕ → Eff World (Unit {0})
  send_nonempty canbus frame_id [] = pure tt
  send_nonempty canbus frame_id (b ∷ bs) = p.send_frame canbus frame_id (b ∷ bs)

  -- The `try` block, after the test of the bus.
  unfoldable pub process_frame : Config → CanbusTask p → Eff World (Unit {0})
  unfolding run_processors send_nonempty
  process_frame k task = do
    built ← build p k (task.bus_channel) (p.frame_id (task.message_configuration))
    can_frame_data ← run_processors can_frame_processors (task.message_configuration) built
    send_nonempty (task.canbus) (p.frame_id (task.message_configuration)) can_frame_data

  unfoldable pub run_valid : Config → CanbusTask p → Bool → Eff World WorkQueueTaskResult
  unfolding process_frame
  run_valid k task false w = (returns (record { reschedule = false; delay = 0 }), w)
  run_valid k task true w =
      and_then (catching (process_frame k task w) (λ e. pure tt))
        (λ _. pure (record { reschedule = true; delay = task.task_interval_ms }))

  -- `ProcessCanbusWorkTask`.
  unfoldable pub process_canbus_work_task : Config → CanbusTask p → Eff World WorkQueueTaskResult
  unfolding run_valid
  process_canbus_work_task k task w = run_valid k task (p.is_valid (task.canbus) w) w
