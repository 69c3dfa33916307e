-- ===== src/Canbus/Scheduler/Calls.antt =====
-- CanbusSchedulerService: any calls of Start, Restart, Pause and Resume, one after the other.
use eerie_leap_rt.Common.{
  ℕ, zero, suc, ◌≡◌, refl, ap, ◌∙◌, true, Option, some, List, [], ◌∷◌, ◌++◌, map, map-append,
  Outcome, returns, throws, faults,
}
use eerie_leap_rt.Canbus.Platform.{Platform}
use eerie_leap_rt.Canbus.Scheduler.{
  Scheduler, construct, initialize, start, restart, pause, resume, then_option,
}
use eerie_leap_rt.Canbus.Scheduler.Start.{IsConfigured, expected_tasks, start-Adds}
use eerie_leap_rt.Canbus.Scheduler.Pause.{Stops, pause_ends}
use eerie_leap_rt.Canbus.Scheduler.Restart.{restart_tasks}

pub data Call : Type 0 where
  starts restarts pauses resumes : Call

-- How many times the configuration's tasks are there, after some calls.
abbrev pub rounds : List Call → ℕ → ℕ
rounds [] n = n
rounds (starts ∷ cs) n = rounds cs (suc n)
rounds (restarts ∷ cs) n = rounds cs 1
rounds (pauses ∷ cs) n = rounds cs n
rounds (resumes ∷ cs) n = rounds cs n

abbrev pub copies {ℓ} : {A : Type ℓ} → ℕ → List A → List A
copies zero xs = []
copies (suc n) xs = copies n xs ++ xs

module _ (p : Platform) (limit : ℕ) (k : p.Config) where
  -- A call that returned, and the calls that follow it.
  abbrev go_on :
      (Scheduler p → Option (Outcome (Unit {0}) × Scheduler p))
      → Outcome (Unit {0}) × Scheduler p
      → Option (Outcome (Unit {0}) × Scheduler p)
  go_on rest (returns u, s) = rest s
  go_on rest (throws e, s) = some (throws e, s)
  go_on rest (faults, s) = some (faults, s)

  abbrev pub step : Call → Scheduler p → Option (Outcome (Unit {0}) × Scheduler p)
  step starts s = some (start p k s)
  step restarts s = restart p limit k s
  step pauses s = then_option (pause p limit s) (λ t. some (returns tt, t))
  step resumes s = some (returns tt, resume p s)

  -- The calls in their order; none if a wait in Pause runs out of fuel.
  abbrev pub run : List Call → Scheduler p → Option (Outcome (Unit {0}) × Scheduler p)
  run [] s = some (returns tt, s)
  run (c ∷ cs) s = then_option (step c s) (go_on (run cs))

  module _ (channels : List (ℕ × List p.Message)) where
    -- An initialized scheduler with so many rounds of tasks.
    record Has (n : ℕ) (s : Scheduler p) : Type 0 where
      ready : s.thread_ready ≡ true
      tasks_lem : map (λ x. x.0) s.work_queue_tasks ≡ copies n (expected_tasks p k channels)

    module _ (stops : Stops p limit) (configured : IsConfigured p k)
        (found : p.channel_configurations k ≡ some channels) where
      start-Has :
          (n : ℕ) (s : Scheduler p)
          → Has n s
          → (t : Scheduler p) × (start p k s ≡ (returns tt, t)) × Has (suc n) t
      start-Has n s h =
          let adds = start-Adds p k channels s h.ready configured found in
          let t = (start p k s).1 in
          (
            t,
            ap (λ o. (o, t)) adds.returned,
            record {
              ready = adds.ready;
              tasks_lem =
                  ap (map (λ x. x.0)) adds.appended
                  ∙ map-append (λ x. x.0) s.work_queue_tasks adds.added
                  ∙ ap (λ l. l ++ map (λ x. x.0) adds.added) h.tasks_lem
                  ∙ ap (λ l. copies n (expected_tasks p k channels) ++ l) adds.added_lem;
            },
          )

      pause-Has :
          (n : ℕ) (s : Scheduler p)
          → Has n s
          → (t : Scheduler p) × (pause p limit s ≡ some t) × Has n t
      pause-Has n s h =
          let (t, q, tasks, same) = pause_ends p limit stops s in
          (
            t,
            q,
            record { ready = same ∙ h.ready; tasks_lem = ap (map (λ x. x.0)) tasks ∙ h.tasks_lem },
          )

      resume-Has : (n : ℕ) (s : Scheduler p) → Has n s → Has n (resume p s)
      unfolding resume
      resume-Has n s h = record { ready = h.ready; tasks_lem = h.tasks_lem }

      run-Has :
          (cs : List Call) (n : ℕ) (s : Scheduler p)
          → Has n s
          → (t : Scheduler p) × (run cs s ≡ some (returns tt, t)) × Has (rounds cs n) t
      run-Has [] n s h = (s, refl, h)
      run-Has (starts ∷ cs) n s h =
          let (t, q, h') = start-Has n s h in
          let (u, r, hu) = run-Has cs (suc n) t h' in (u, rw q r, hu)
      run-Has (restarts ∷ cs) n s h =
          let (t, q, ready, tasks) =
            restart_tasks p limit stops k channels s h.ready configured found in
          let (u, r, hu) = run-Has cs 1 t (record { ready = ready; tasks_lem = tasks }) in
          (u, rw q r, hu)
      run-Has (pauses ∷ cs) n s h =
          let (t, q, h') = pause-Has n s h in let (u, r, hu) = run-Has cs n t h' in (u, rw q r, hu)
      run-Has (resumes ∷ cs) n s h = run-Has cs n (resume p s) (resume-Has n s h)

  -- Where the configuration of every channel with a bus can be read, and every work item that is
  -- being cancelled stops within the limit: any calls of Start, Restart, Pause and Resume behind
  -- Initialize return, and the scheduler then has the configuration's tasks once for each Start since
  -- the last Restart, and once for that Restart. Pause and Resume keep them.
  pub run_tasks :
      (channels : List (ℕ × List p.Message)) (stops : Stops p limit) (configured : IsConfigured p k)
      (w : p.World) (cs : List Call)
      → p.channel_configurations k ≡ some channels
      → (t : Scheduler p) × (run cs (initialize p (construct p w)) ≡ some (returns tt, t))
        × (map (λ x. x.0) t.work_queue_tasks ≡ copies (rounds cs 0) (expected_tasks p k channels))
  unfolding initialize construct
  run_tasks channels stops configured w cs found =
      let (t, q, h) =
        run-Has channels stops configured found cs 0 (initialize p (construct p w))
          (record { ready = refl; tasks_lem = refl }) in
      (t, q, h.tasks_lem)
