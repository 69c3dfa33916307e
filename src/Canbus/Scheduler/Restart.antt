-- ===== src/Canbus/Scheduler/Restart.antt =====
-- CanbusSchedulerService::Restart: which tasks there are after it.
use eerie_leap_rt.Common.{ℕ, ◌≡◌, ap, ◌∙◌, true, some, List, [], map, returns}
use eerie_leap_rt.Canbus.Platform.{Platform}
use eerie_leap_rt.Canbus.Scheduler.{Scheduler, start, restart, restart_paused}
use eerie_leap_rt.Canbus.Scheduler.Pause.{Stops, pause_ends}
use eerie_leap_rt.Canbus.Scheduler.Start.{IsConfigured, expected_tasks, start-Adds}

module _ (p : Platform) where
  open p use {Config, Message}

  -- Where Initialize has made the thread, the configuration of every channel with a bus can be read,
  -- and every work item that is being cancelled stops within the limit, Restart returns, and
  -- whatever tasks there were, the scheduler then has exactly those of the configuration.
  pub restart_tasks :
      (limit : ℕ) (stops : Stops p limit) (k : Config) (channels : List (ℕ × List Message))
      (s : Scheduler p)
      → s.thread_ready ≡ true
      → IsConfigured p k
      → p.channel_configurations k ≡ some channels
      → (t : Scheduler p) × (restart p limit k s ≡ some (returns tt, t))
        × (t.thread_ready ≡ true)
        × (map (λ x. x.0) t.work_queue_tasks ≡ expected_tasks p k channels)
  unfolding restart restart_paused
  restart_tasks limit stops k channels s ready configured e =
      let (t, q, _, same) = pause_ends p limit stops s in
      let cleared = record t { work_queue_tasks = []; world = p.clear_readings t.world } in
      let adds = start-Adds p k channels cleared (same ∙ ready) configured e in
      (
        (start p k cleared).1,
        rw (q, restart) (ap (λ o. some (o, (start p k cleared).1)) adds.returned),
        adds.ready,
        ap (map (λ x. x.0)) adds.appended ∙ adds.added_lem,
      )
