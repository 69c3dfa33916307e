-- ===== src/Canbus/Scheduler.antt =====
-- app/src/domain/canbus_domain/services/canbus_scheduler_service.{h,cpp}:
-- the tasks that send the configured messages.
pub mod Start
pub mod Pause
pub mod Restart
pub mod Calls
use eerie_leap_rt.Common.{
  ℕ, zero, suc, Bool, true, false, ◌&&◌, not, Option, none, some, List, [], ◌∷◌, ◌++◌, Outcome,
  returns, and_then, Eff, pure, fault, deref, if◌then◌else◌, ◌>>=◌, ◌>>◌,
}
use eerie_leap_rt.Canbus.Platform.{Platform, CanbusTask}
use eerie_leap_rt.Canbus.Frame.{read}

-- `CanbusSchedulerService`. `thread_ready`: Initialize has made the work queue's thread. A
-- `WorkQueueTask` is its task and its handle.
pub record Scheduler (p : Platform) : Type 0 where
  pub thread_ready : Bool
  pub work_queue_tasks : List (CanbusTask p × p.Handle)
  pub world : p.World

-- What follows a loop that has ended.
abbrev pub then_option : {A B : Type 0} → Option A → (A → Option B) → Option B
then_option none f = none
then_option (some a) f = f a

module _ (p : Platform) where
  open p use {World, Config, Message, Handle}

  -- The constructor: no thread and no tasks. Its builder and processors are those of `Canbus.Task`.
  unfoldable pub construct : World → Scheduler p
  construct w = record { thread_ready = false; work_queue_tasks = []; world = w }

  -- `Initialize`; its thread starts with an empty queue.
  unfoldable pub initialize : Scheduler p → Scheduler p
  initialize s = record s { thread_ready = true }

  abbrev register_functions : Option p.Script → World → World
  register_functions none w = w
  register_functions (some script) w =
      p.register_update_sensor_value script (p.register_get_sensor_value script w)

  -- `InitializeScript`.
  unfoldable pub initialize_script : Message → World → World
  initialize_script message w = register_functions (p.lua_script message) w

  -- Whether the DBC that a channel was loaded with knows the message.
  abbrev pub knows_message : Message → Option p.Dbc → Bool
  knows_message message none = false
  knows_message message (some dbc) = p.has_message dbc (p.frame_id message)

  abbrev pub new_task : ℕ → Message → p.Canbus → ℕ → CanbusTask p
  new_task bus_channel message canbus interval = record {
    task_interval_ms = interval;
    bus_channel = bus_channel;
    message_configuration = message;
    canbus = canbus;
  }

  abbrev pub periodic_task : ℕ → Message → p.Canbus → Option ℕ → Eff World (Option (CanbusTask p))
  periodic_task bus_channel message canbus none w = (returns none, w)
  periodic_task bus_channel message canbus (some interval) w =
      (returns (some (new_task bus_channel message canbus interval)), initialize_script message w)

  abbrev pub known_task : ℕ → Message → p.Canbus → Bool → Eff World (Option (CanbusTask p))
  known_task bus_channel message canbus false = pure none
  known_task bus_channel message canbus true =
      periodic_task bus_channel message canbus (p.send_interval_ms message)

  unfoldable pub task_on :
      Config → ℕ → Message → Option p.Canbus → Eff World (Option (CanbusTask p))
  unfolding initialize_script
  task_on k bus_channel message none = pure none
  task_on k bus_channel message (some canbus) = do
    found ← read p (p.get_channel_configuration k bus_channel)
    channel ← deref found
    known_task bus_channel message canbus (knows_message message (p.dbc channel))

  -- `CreateTask`; none is its null pointer.
  unfoldable pub create_task : Config → ℕ → Message → Eff World (Option (CanbusTask p))
  unfolding task_on
  create_task k bus_channel message = task_on k bus_channel message (p.get_canbus k bus_channel)

  -- `work_queue_thread_->CreateTask` and `push_back`; without a thread, the pointer is null.
  abbrev pub queue_task : CanbusTask p → Scheduler p → Bool → Outcome (Unit {0}) × Scheduler p
  queue_task task s false = fault s
  queue_task task s true =
      let (handle, w) =
        p.create_work_item task.task_interval_ms task.bus_channel task.message_configuration
          task.canbus s.world in
      (
        returns tt,
        record s { work_queue_tasks = s.work_queue_tasks ++ ((task, handle) ∷ []); world = w },
      )

  unfoldable pub push_task : Option (CanbusTask p) → Eff (Scheduler p) (Unit {0})
  push_task none s = (returns tt, s)
  push_task (some task) s = queue_task task s s.thread_ready

  -- A computation on the world, run in the scheduler.
  abbrev pub in_world {ℓ} : {A : Type ℓ} → Eff World A → Eff (Scheduler p) A
  in_world m s = let (result, w) = m s.world in (result, record s { world = w })

  -- The loops of `Start` over the channels and their messages.
  unfoldable pub create_channel : Config → ℕ → List Message → Eff (Scheduler p) (Unit {0})
  unfolding create_task push_task
  create_channel k bus_channel [] = pure tt
  create_channel k bus_channel (message ∷ messages) = do
    task ← in_world (create_task k bus_channel message)
    pushed ← push_task task
    create_channel k bus_channel messages

  unfoldable pub create_channels : Config → List (ℕ × List Message) → Eff (Scheduler p) (Unit {0})
  unfolding create_channel
  create_channels k [] = pure tt
  create_channels k ((bus_channel, messages) ∷ channels) =
      create_channel k bus_channel messages >> create_channels k channels

  unfoldable pub schedule_all : List (CanbusTask p × Handle) → World → World
  schedule_all [] w = w
  schedule_all ((task, handle) ∷ tasks) w = schedule_all tasks (p.schedule handle w)

  unfoldable pub start_tasks : Eff (Scheduler p) (Unit {0})
  unfolding schedule_all
  start_tasks s =
      (returns tt, record s { world = p.sleep 1 (schedule_all s.work_queue_tasks s.world) })

  unfoldable pub start : Config → Eff (Scheduler p) (Unit {0})
  unfolding create_channels start_tasks
  start k = do
    channels ← deref (p.channel_configurations k)
    created ← create_channels k channels
    start_tasks

  unfoldable pub resume : Scheduler p → Scheduler p
  unfolding schedule_all
  resume s = record s { world = schedule_all s.work_queue_tasks s.world }

  -- `while(work_queue_task.Cancel()) k_sleep(K_MSEC(1));`, none when the fuel runs out.
  unfoldable pub wait_canceled : ℕ → Handle → World → Option World
  wait_canceled zero handle w = none
  wait_canceled (suc fuel) handle w =
      let rest = wait_canceled fuel handle (p.sleep 1 (p.cancel handle w).1) in
      if (p.cancel handle w).0 then rest else some (p.cancel handle w).1

  unfoldable pub cancel_all : ℕ → List (CanbusTask p × Handle) → World → Option World
  unfolding wait_canceled
  cancel_all fuel [] w = some w
  cancel_all fuel ((task, handle) ∷ tasks) w =
      then_option (wait_canceled fuel handle w) (cancel_all fuel tasks)

  unfoldable pub pause : ℕ → Scheduler p → Option (Scheduler p)
  unfolding cancel_all
  pause fuel s =
      then_option (cancel_all fuel s.work_queue_tasks s.world) (λ w. some (record s { world = w }))

  -- `Restart`, after `Pause`.
  unfoldable pub restart_paused : Config → Eff (Scheduler p) (Unit {0})
  unfolding start
  restart_paused k s =
      start k (record s { work_queue_tasks = []; world = p.clear_readings s.world })

  unfoldable pub restart : ℕ → Config → Scheduler p → Option (Outcome (Unit {0}) × Scheduler p)
  unfolding pause restart_paused
  restart fuel k s = then_option (pause fuel s) (λ paused. some (restart_paused k paused))
