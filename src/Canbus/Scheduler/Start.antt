-- ===== src/Canbus/Scheduler/Start.antt =====
-- CanbusSchedulerService::Start: which tasks there are.
use eerie_leap_rt.Common.{
  ℕ, ◌≡◌, refl, sym, ap, subst, ◌∙◌, true, false, Option, none, some, List, [], ◌∷◌, ◌++◌, map,
  append-nil, append_assoc, map-append, Option-cases, Bool-cases, if◌then◌else◌, inl, inr, Outcome,
  returns, throws, faults, Eff, and_then,
}
use eerie_leap_rt.Canbus.Platform.{Platform, CanbusTask}
use eerie_leap_rt.Canbus.Scheduler.{
  Scheduler, new_task, knows_message, periodic_task, known_task, initialize_script, task_on,
  create_task, push_task, create_channel, create_channels, start_tasks, start,
}

module _ (p : Platform) where
  open p use {World, Config, Message, Handle}

  -- The configuration of a channel that has a bus can be read.
  abbrev pub IsConfigured : Config → Type 0
  IsConfigured k =
      (b : ℕ) (canbus : p.Canbus)
      → p.get_canbus k b ≡ some canbus
      → (channel : p.Channel) × (p.get_channel_configuration k b ≡ returns (some channel))

  -- The DBC that a channel was loaded with, if there is a configuration of it.
  abbrev pub loaded : Outcome (Option p.Channel) → Option p.Dbc
  loaded (returns (some channel)) = p.dbc channel
  loaded (returns none) = none
  loaded (throws e) = none
  loaded faults = none

  -- The task that a message should have, by the bus, the DBC and the interval: none unless all three
  -- are there and the DBC has a message of the frame's id.
  abbrev pub expected_of :
      ℕ → Message → Option p.Canbus → Option p.Dbc → Option ℕ → List (CanbusTask p)
  expected_of b m none dbc interval = []
  expected_of b m (some canbus) none interval = []
  expected_of b m (some canbus) (some dbc) none = []
  expected_of b m (some canbus) (some dbc) (some interval) =
      if p.has_message dbc (p.frame_id m)
      then record {
        task_interval_ms = interval;
        bus_channel = b;
        message_configuration = m;
        canbus = canbus;
      }
        ∷ []
      else []

  abbrev pub expected : Config → ℕ → Message → List (CanbusTask p)
  expected k b m =
      expected_of b m (p.get_canbus k b) (loaded (p.get_channel_configuration k b))
        (p.send_interval_ms m)

  abbrev pub expected_channel : Config → ℕ → List Message → List (CanbusTask p)
  expected_channel k b [] = []
  expected_channel k b (m ∷ ms) = expected k b m ++ expected_channel k b ms

  -- The tasks of a configuration, in its order.
  unfoldable pub expected_tasks : Config → List (ℕ × List Message) → List (CanbusTask p)
  expected_tasks k [] = []
  expected_tasks k ((b, ms) ∷ channels) = expected_channel k b ms ++ expected_tasks k channels

  -- The call returned, and put work items of these tasks behind the ones there were.
  pub record Adds (s : Scheduler p) (r : Outcome (Unit {0}) × Scheduler p)
      (tasks : List (CanbusTask p)) : Type 0 where
    pub returned : r.0 ≡ returns tt
    pub ready : r.1.thread_ready ≡ true
    pub added : List (CanbusTask p × Handle)
    pub appended : r.1.work_queue_tasks ≡ s.work_queue_tasks ++ added
    pub added_lem : map (λ x. x.0) added ≡ tasks

  Adds-then :
      (s : Scheduler p) (r : Outcome (Unit {0}) × Scheduler p) (f : Eff (Scheduler p) (Unit {0}))
      (xs ys : List (CanbusTask p))
      → Adds s r xs
      → ((t : Scheduler p) → t.thread_ready ≡ true → Adds t (f t) ys)
      → Adds s (and_then r (λ _. f)) (xs ++ ys)
  Adds-then s (throws e, t) f xs ys h g = absurd cc
  Adds-then s (faults, t) f xs ys h g = absurd cc
  Adds-then s (returns u, t) f xs ys h g =
      let next = g t h.ready in
      record {
        returned = next.returned;
        ready = next.ready;
        added = h.added ++ next.added;
        appended =
            next.appended
            ∙ ap (λ l. l ++ next.added) h.appended
            ∙ append_assoc s.work_queue_tasks h.added next.added;
        added_lem =
            map-append (λ x. x.0) h.added next.added ∙ rw (h.added_lem, next.added_lem) refl;
      }

  -- The task that was made, as a list.
  abbrev made : Option (CanbusTask p) → List (CanbusTask p)
  made none = []
  made (some task) = task ∷ []

  -- A call that made the task of a list with at most one.
  abbrev Makes : Outcome (Option (CanbusTask p)) × World → List (CanbusTask p) → Type 0
  Makes r tasks =
      (task : Option (CanbusTask p)) × (w : World) × (r ≡ (returns task, w)) × (made task ≡ tasks)

  periodic_task-Makes :
      (b : ℕ) (m : Message) (canbus : p.Canbus) (dbc : p.Dbc) (interval : Option ℕ) (w : World)
      → p.has_message dbc (p.frame_id m) ≡ true
      → Makes
          (periodic_task p b m canbus interval w)
          (expected_of b m (some canbus) (some dbc) interval)
  periodic_task-Makes b m canbus dbc none w e = (none, w, refl, refl)
  periodic_task-Makes b m canbus dbc (some i) w e =
      (some (new_task p b m canbus i), initialize_script p m w, refl, rw e refl)

  unknown_lem :
      (b : ℕ) (m : Message) (canbus : p.Canbus) (dbc : p.Dbc) (interval : Option ℕ)
      → p.has_message dbc (p.frame_id m) ≡ false
      → [] ≡ expected_of b m (some canbus) (some dbc) interval
  unknown_lem b m canbus dbc none e = refl
  unknown_lem b m canbus dbc (some i) e = rw e refl

  known_task-Makes :
      (b : ℕ) (m : Message) (canbus : p.Canbus) (loaded_dbc : Option p.Dbc) (w : World)
      → Makes
          (known_task p b m canbus (knows_message p m loaded_dbc) w)
          (expected_of b m (some canbus) loaded_dbc (p.send_interval_ms m))
  known_task-Makes b m canbus none w = (none, w, refl, refl)
  known_task-Makes b m canbus (some dbc) w = elim (Bool-cases (p.has_message dbc (p.frame_id m))) [
    | inl e ↦ rw (e, known_task) (periodic_task-Makes b m canbus dbc (p.send_interval_ms m) w e)
    | inr e ↦
        rw (e, known_task) (none, w, refl, unknown_lem b m canbus dbc (p.send_interval_ms m) e)
  ]

  create_task-Makes :
      (k : Config) (configured : IsConfigured k) (b : ℕ) (m : Message) (w : World)
      → Makes (create_task p k b m w) (expected k b m)
  unfolding create_task task_on
  create_task-Makes k configured b m w = elim (Option-cases (p.get_canbus k b)) [
    | inl e ↦ (none, w, rw (e, create_task) refl, rw e refl)
    | inr (canbus, e) ↦
        let (channel, q) = configured b canbus e in
        rw (e, create_task) (rw (q, task_on) (known_task-Makes b m canbus (p.dbc channel) w))
  ]

  push_task-Adds :
      (s t : Scheduler p) (task : Option (CanbusTask p))
      → t.work_queue_tasks ≡ s.work_queue_tasks
      → t.thread_ready ≡ true
      → Adds s (push_task p task t) (made task)
  unfolding push_task
  push_task-Adds s t none same ready = record {
    returned = refl;
    ready = ready;
    added = [];
    appended = same ∙ sym (append-nil s.work_queue_tasks);
    added_lem = refl;
  }
  push_task-Adds s t (some task) same ready =
      rw (ready, push_task)
        (record {
          returned = refl;
          ready = refl;
          added =
              (
                task,
                (p.create_work_item task.task_interval_ms task.bus_channel
                    task.message_configuration task.canbus t.world).0,
              )
              ∷ [];
          appended =
              ap
                (λ l.
                  l
                  ++ (
                    task,
                    (p.create_work_item task.task_interval_ms task.bus_channel
                        task.message_configuration task.canbus t.world).0,
                  )
                    ∷ [])
                same;
          added_lem = refl;
        })

  create_channel-Adds :
      (k : Config) (configured : IsConfigured k) (b : ℕ) (ms : List Message) (s : Scheduler p)
      → s.thread_ready ≡ true
      → Adds s (create_channel p k b ms s) (expected_channel k b ms)
  unfolding create_channel
  create_channel-Adds k configured b [] s ready = record {
    returned = refl;
    ready = ready;
    added = [];
    appended = sym (append-nil s.work_queue_tasks);
    added_lem = refl;
  }
  create_channel-Adds k configured b (m ∷ ms) s ready =
      let (task, w, e, q) = create_task-Makes k configured b m s.world in
      let t = record s { world = w } in
      rw (e, create_channel)
        (Adds-then s (push_task p task t) (create_channel p k b ms) (expected k b m)
          (expected_channel k b ms)
          (subst (Adds s (push_task p task t)) q (push_task-Adds s t task refl ready))
          (create_channel-Adds k configured b ms))

  create_channels-Adds :
      (k : Config) (configured : IsConfigured k) (channels : List (ℕ × List Message))
      (s : Scheduler p)
      → s.thread_ready ≡ true
      → Adds s (create_channels p k channels s) (expected_tasks k channels)
  unfolding create_channels expected_tasks
  create_channels-Adds k configured [] s ready = record {
    returned = refl;
    ready = ready;
    added = [];
    appended = sym (append-nil s.work_queue_tasks);
    added_lem = refl;
  }
  create_channels-Adds k configured ((b, ms) ∷ channels) s ready =
      Adds-then s (create_channel p k b ms s) (create_channels p k channels)
        (expected_channel k b ms) (expected_tasks k channels)
        (create_channel-Adds k configured b ms s ready) (create_channels-Adds k configured channels)

  start_tasks-Adds : (s : Scheduler p) → s.thread_ready ≡ true → Adds s (start_tasks p s) []
  unfolding start_tasks
  start_tasks-Adds s ready = record {
    returned = refl;
    ready = ready;
    added = [];
    appended = sym (append-nil s.work_queue_tasks);
    added_lem = refl;
  }

  -- Where Initialize has made the thread, and the configuration of every channel with a bus can be
  -- read, Start returns, and adds exactly the work items of the messages that have a bus, are known
  -- to its DBC and have an interval, in the configuration's order, behind the items there were, also
  -- where those are the same ones.
  pub start-Adds :
      (k : Config) (channels : List (ℕ × List Message)) (s : Scheduler p)
      → s.thread_ready ≡ true
      → IsConfigured k
      → p.channel_configurations k ≡ some channels
      → Adds s (start p k s) (expected_tasks k channels)
  unfolding start
  start-Adds k channels s ready configured e =
      rw (e, start)
        (subst (Adds s (and_then (create_channels p k channels s) (λ _. start_tasks p)))
          (append-nil (expected_tasks k channels))
          (Adds-then s (create_channels p k channels s) (start_tasks p) (expected_tasks k channels)
            [] (create_channels-Adds k configured channels s ready) start_tasks-Adds))
