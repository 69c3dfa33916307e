-- ===== src/Canbus/Task/Sends.antt =====
-- ProcessCanbusWorkTask: what a run of a task sends and answers.
use eerie_leap_rt.Common.{
  ℕ, ◌≡◌, refl, ◌⊎◌, inl, inr, Bool, true, false, if◌then◌else◌, List, [], ◌∷◌, length, ◌==◌, codes,
  Outcome, returns, throws, faults, pure, catching, and_then, Ends, arith,
}
use eerie_leap_rt.Canbus.Platform.{Platform, CanbusTask}
use eerie_leap_rt.Canbus.Frame.{build}
use eerie_leap_rt.Canbus.Script.{process}
use eerie_leap_rt.Canbus.Task.{
  WorkQueueTaskResult, process_canbus_work_task, run_valid, process_frame, run_processors,
  send_nonempty, replaced,
}

module _ (p : Platform) where
  open p use {World, Config}

  -- What the work queue is told: to come again, unless the bus is not valid.
  unfoldable pub result_of : CanbusTask p → Bool → WorkQueueTaskResult
  result_of task valid = record {
    reschedule = valid;
    delay = if valid then task.task_interval_ms else 0;
  }

  caught_result :
      {S : Type 0} {B : Type 0} (r : Outcome (Unit {0}) × S) (b : B)
      → ((and_then (catching r (λ e. pure tt)) (λ _. pure b)).0 ≡ faults)
        ⊎ ((and_then (catching r (λ e. pure tt)) (λ _. pure b)).0 ≡ returns b)
  caught_result (returns a, s) b = inr refl
  caught_result (throws e, s) b = inr refl
  caught_result (faults, s) b = inl refl

  run_valid_result :
      (k : Config) (task : CanbusTask p) (valid : Bool) (w : World)
      → ((run_valid p k task valid w).0 ≡ faults)
        ⊎ ((run_valid p k task valid w).0 ≡ returns (result_of task valid))
  unfolding run_valid result_of
  run_valid_result k task false w = inr refl
  run_valid_result k task true w =
      caught_result (process_frame p k task w)
        (record { reschedule = true; delay = task.task_interval_ms })

  -- A run of a task throws nothing. If it returns, whatever happened to the frame, the task is
  -- rescheduled after its interval exactly where its bus is valid, and else not at all.
  pub process_canbus_work_task_result :
      (k : Config) (task : CanbusTask p) (w : World)
      → ((process_canbus_work_task p k task w).0 ≡ faults)
        ⊎ ((process_canbus_work_task p k task w).0
            ≡ returns (result_of task (p.is_valid task.canbus w)))
  unfolding process_canbus_work_task
  process_canbus_work_task_result k task w = run_valid_result k task (p.is_valid task.canbus w) w

  -- The data to send: what the processor returned, unless it returned no bytes.
  unfoldable pub chosen : List ℕ → List ℕ → List ℕ
  chosen processed built = if length processed == 0 then built else processed

  replaced-chosen : (processed built : List ℕ) → replaced processed built ≡ chosen processed built
  unfolding chosen
  replaced-chosen [] built = refl
  replaced-chosen (b ∷ bs) built = ground arith

  -- The world after a frame went out; an empty one does not.
  unfoldable pub after_send : CanbusTask p → List ℕ → World → World
  after_send task [] w = w
  after_send task (b ∷ bs) w =
      (p.send_frame task.canbus (p.frame_id task.message_configuration) (b ∷ bs) w).1

  caught-Ends :
      {S : Type 0} (r : Outcome (Unit {0}) × S)
      → Ends r.0
      → catching r (λ e. pure tt) ≡ (returns tt, r.1)
  caught-Ends (returns a, s) h = refl
  caught-Ends (throws e, s) h = refl
  caught-Ends (faults, s) h = absurd h

  send_nonempty_caught :
      (task : CanbusTask p) (frame : List ℕ) (w : World)
      → Ends (p.send_frame task.canbus (p.frame_id task.message_configuration) frame w).0
      → catching
          (send_nonempty p task.canbus (p.frame_id task.message_configuration) frame w)
          (λ e. pure tt)
        ≡ (returns tt, after_send task frame w)
  unfolding send_nonempty after_send
  send_nonempty_caught task [] w h = refl
  send_nonempty_caught task (b ∷ bs) w h =
      caught-Ends (p.send_frame task.canbus (p.frame_id task.message_configuration) (b ∷ bs) w) h

  -- A run of a task on a valid bus, where Build and the Lua processor return and sending does not
  -- fault, sends one frame: the data that the Lua function returned, or the frame built from the
  -- readings where that is empty. If both are empty nothing is sent. The task is rescheduled after
  -- its interval, also when sending throws.
  pub process_canbus_work_task_sends :
      (k : Config) (task : CanbusTask p) (w w1 w2 : World) (built processed : List ℕ)
      → p.is_valid task.canbus w ≡ true
      → build p k task.bus_channel (p.frame_id task.message_configuration) w ≡ (returns built, w1)
      → process p (codes "process_can_frame") task.message_configuration built w1
        ≡ (returns processed, w2)
      → Ends
          (p.send_frame task.canbus
            (p.frame_id task.message_configuration)
            (chosen processed built)
            w2).0
      → process_canbus_work_task p k task w
        ≡ (returns (result_of task true), after_send task (chosen processed built) w2)
  unfolding process_canbus_work_task run_valid process_frame run_processors result_of
  process_canbus_work_task_sends k task w w1 w2 built processed valid b q h =
      rw (valid, process_canbus_work_task)
        (rw (b, run_valid)
          (rw q (
            rw (replaced-chosen processed built)
              (rw (send_nonempty_caught task (chosen processed built) w2 h) refl))))

  -- Where the bus is valid, Build returns and the Lua processor throws, nothing is sent, and the task
  -- is rescheduled after its interval.
  pub process_canbus_work_task_throws :
      (k : Config) (task : CanbusTask p) (w w1 w2 : World) (built error : List ℕ)
      → p.is_valid task.canbus w ≡ true
      → build p k task.bus_channel (p.frame_id task.message_configuration) w ≡ (returns built, w1)
      → process p (codes "process_can_frame") task.message_configuration built w1
        ≡ (throws error, w2)
      → process_canbus_work_task p k task w ≡ (returns (result_of task true), w2)
  unfolding process_canbus_work_task run_valid process_frame run_processors result_of
  process_canbus_work_task_throws k task w w1 w2 built error valid b q =
      rw (valid, process_canbus_work_task) (rw (b, run_valid) (rw q refl))
