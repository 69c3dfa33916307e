-- ===== src/Canbus/Tests.antt =====
-- The theorems on the CAN domain, applied to two messages on a bench with a small Lua stack.
pub mod Sample
use eerie_leap_rt.Common.{
  ℕ, suc, ◌+◌, ◌*◌, ◌≤◌, ◌≡◌, refl, Bool, true, false, Option, none, some, List, [], ◌∷◌, map,
  codes, length, ltb, if◌then◌else◌, ◌⊎◌, ◌↔◌, returns, faults, arith,
}
use eerie_leap_rt.Canbus.Platform.{Platform, CanbusTask}
use eerie_leap_rt.Canbus.Frame.{build}
use eerie_leap_rt.Canbus.Frame.Build.{Encoded, Stopped, build_returns}
use eerie_leap_rt.Canbus.Script.{process}
use eerie_leap_rt.Canbus.Script.Stack.{LuaStack, process_depth, process_failed}
use eerie_leap_rt.Canbus.Task.{process_canbus_work_task}
use eerie_leap_rt.Canbus.Task.Sends.{
  result_of, after_send, chosen, process_canbus_work_task_result, process_canbus_work_task_sends,
  process_canbus_work_task_throws,
}
use eerie_leap_rt.Canbus.Task.Paced.{Run, Follows, Runs, once, again, scheduled, Runs-paced}
use eerie_leap_rt.Canbus.Scheduler.{Scheduler, construct, initialize, start, pause}
use eerie_leap_rt.Canbus.Scheduler.Start.{Adds, IsConfigured, expected_tasks, start-Adds}
use eerie_leap_rt.Canbus.Scheduler.Calls.{
  Call, starts, restarts, pauses, resumes, copies, run_tasks,
}
use eerie_leap_rt.Canbus.Scheduler.Calls
use eerie_leap_rt.Canbus.Scheduler.Pause.{Stops, pause_ends}
use eerie_leap_rt.Canbus.Tests.Sample.{
  Bench, Behaviour, answers, fails, refuses, Value, bench, bench-LuaStack, bench-Stops,
}

-- Two messages on channel 0, one of them without an interval, one on channel 1, and one on a
-- channel without a bus.
abbrev messages : List (ℕ × List (ℕ × Option ℕ × Option (Unit {0})))
messages =
    (0, (100, some 20, some tt) ∷ (101, none, none) ∷ [])
    ∷ (1, (102, some 50, none) ∷ [])
    ∷ (2, (103, some 50, none) ∷ [])
    ∷ []

messages-IsConfigured : IsConfigured bench messages
messages-IsConfigured b canbus h = (b, refl)

abbrev at_rest : Behaviour → Bench
at_rest b = record { stack = []; behaviour = b; frames = []; running = false }

abbrev scripted : CanbusTask bench
scripted = record {
  task_interval_ms = 20;
  bus_channel = 0;
  message_configuration = (100, some 20, some tt);
  canbus = 0;
}

abbrev running_scheduler : Scheduler bench
running_scheduler = record {
  thread_ready = true;
  work_queue_tasks = (scripted, tt) ∷ [];
  world = record { stack = []; behaviour = answers; frames = []; running = true };
}

abbrev encoded : List ℕ
encoded = 5 ∷ 0 ∷ []

build_returns_example :
    (build bench messages 0 100 (at_rest answers) ≡ (returns encoded, at_rest answers)) ↔ (
      Encoded bench messages 0 100 (at_rest answers) encoded (at_rest answers)
      ⊎ ((encoded ≡ []) × Stopped bench messages 0 100 (at_rest answers) (at_rest answers)))
build_returns_example =
    build_returns bench messages 0 100 (at_rest answers) (at_rest answers) encoded

process_depth_example :
    length
      (process bench
        (codes "process_can_frame")
        (100, some 20, some tt)
        (1 ∷ [])
        (at_rest refuses)).1.stack
    ≡ 0
unfolding process bench-LuaStack
process_depth_example =
    process_depth bench bench-LuaStack (codes "process_can_frame") (100, some 20, some tt) (1 ∷ [])
      (at_rest refuses) tt tt refl refl

process_failed_example :
    (process bench (codes "process_can_frame") (100, some 20, some tt) (1 ∷ []) (at_rest fails)).0
    ≡ faults
unfolding bench-LuaStack
process_failed_example =
    process_failed bench bench-LuaStack (codes "process_can_frame") (100, some 20, some tt) (1 ∷ [])
      (at_rest fails) tt tt refl refl refl refl refl

process_canbus_work_task_result_example :
    ((process_canbus_work_task bench messages scripted (at_rest answers)).0 ≡ faults)
    ⊎ ((process_canbus_work_task bench messages scripted (at_rest answers)).0
        ≡ returns (result_of bench scripted true))
process_canbus_work_task_result_example =
    process_canbus_work_task_result bench messages scripted (at_rest answers)

process_canbus_work_task_sends_example :
    process_canbus_work_task bench messages scripted (at_rest answers) ≡ (
      returns (result_of bench scripted true),
      record { stack = []; behaviour = answers; frames = (100, 7 ∷ 0 ∷ []) ∷ []; running = false },
    )
unfolding after_send chosen build process
process_canbus_work_task_sends_example =
    process_canbus_work_task_sends bench messages scripted (at_rest answers) (at_rest answers)
      (at_rest answers) (5 ∷ 0 ∷ []) (7 ∷ 0 ∷ []) refl refl refl tt

start-Adds_example :
    Adds bench running_scheduler
      (start bench messages running_scheduler)
      (expected_tasks bench messages messages)
start-Adds_example =
    start-Adds bench messages messages running_scheduler refl messages-IsConfigured refl

-- Started twice, restarted and started again.
abbrev calls : List Call
calls = starts ∷ starts ∷ pauses ∷ restarts ∷ resumes ∷ starts ∷ []

run_tasks_example :
    (t : Scheduler bench) × (Calls.run bench 2 messages calls
        (initialize bench (construct bench (at_rest answers)))
      ≡ some (returns tt, t))
    × (map (λ x. x.0) t.work_queue_tasks ≡ copies 2 (expected_tasks bench messages messages))
run_tasks_example =
    run_tasks bench 2 messages messages bench-Stops messages-IsConfigured (at_rest answers) calls
      refl

pause_ends_example :
    (t : Scheduler bench) × (pause bench 2 running_scheduler ≡ some t)
    × (t.work_queue_tasks ≡ running_scheduler.work_queue_tasks)
    × (t.thread_ready ≡ running_scheduler.thread_ready)
pause_ends_example = pause_ends bench 2 bench-Stops running_scheduler

-- A run of the task at a time.
abbrev run_at : ℕ → Run bench messages scripted
run_at t = record { at = t; before = at_rest answers }

abbrev every_20 : (t : ℕ) → Follows bench messages scripted (run_at t) (run_at (t + 20))
unfolding process_canbus_work_task build process
every_20 t = record {
  result = record { reschedule = true; delay = 20 };
  answered = refl;
  asked = refl;
  waited = omega arith;
}

-- The second run is asked for by the first one, and the third one scheduled by a Resume.
Runs-paced_example : (0 + 2 * 20 ≤ 45) × (bench.is_valid 0 (at_rest answers) ≡ true)
Runs-paced_example =
    Runs-paced bench messages scripted (run_at 0) (run_at 25) (run_at 45) 1
      (scheduled (again once (every_20 0)) (omega arith)) (every_20 25)
