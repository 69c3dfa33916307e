-- ===== src/Startup/Canbus/Tasks.antt =====
-- app/src/main.cpp: what the firmware sends with the configuration of SetupCanbusConfiguration.
use mathlib.Core.List.{map-map}
use eerie_leap_rt.Common.{
  ℕ, ◌+◌, ◌≡◌, refl, ap, ◌∙◌, sym, true, Option, none, some, List, [], ◌∷◌, ◌++◌, map, map-append,
  returns,
}
use eerie_leap_rt.DeviceTree.Fs.{Host}
use eerie_leap_rt.DeviceTree.Devices.{Board}
use eerie_leap_rt.Http.Collaborators.{Collaborators}
use eerie_leap_rt.Canbus.Platform.{Platform, CanbusTask}
use eerie_leap_rt.Canbus.Scheduler.Start.{IsConfigured, expected, expected_of, expected_tasks}
use eerie_leap_rt.Startup.Configurations.{CanMessage, CanbusConfiguration}
use eerie_leap_rt.Startup.Canbus.{setup_canbus_configuration, sent_message, received_message}
use eerie_leap_rt.Startup.Main.{Surroundings, Boot, looping, boot_init, main}
use eerie_leap_rt.Startup.Main.Running.{main-IsRunning}

-- How the platform holds a configuration: the messages with their ids and intervals, in the order of
-- the map.
pub record Holds (p : Platform) (k : p.Config) (configuration : CanbusConfiguration) : Type 0 where
  pub message : CanMessage → p.Message
  pub frame_id_lem : (m : CanMessage) → p.frame_id (message m) ≡ m.frame_id
  pub send_interval_lem : (m : CanMessage) → p.send_interval_ms (message m) ≡ m.send_interval_ms
  pub channels_lem :
      p.channel_configurations k
      ≡ some (
          map
            (λ x. (x.0, map message x.1.message_configurations))
            configuration.channel_configurations)

-- The bus, the frame and the interval of a task.
abbrev pub summary : (p : Platform) → CanbusTask p → ℕ × ℕ × ℕ
summary p task = (task.bus_channel, p.frame_id task.message_configuration, task.task_interval_ms)

module _ (p : Platform) (k : p.Config) (holds : Holds p k setup_canbus_configuration) where
  abbrev pub setup_channels : List (ℕ × List p.Message)
  setup_channels =
      map (λ x. (x.0, map holds.message x.1.message_configurations))
        setup_canbus_configuration.channel_configurations

  joined :
      (xs bs cs ds : List (CanbusTask p)) (x y z : ℕ × ℕ × ℕ)
      → map (summary p) xs ≡ x ∷ []
      → map (summary p) bs ≡ y ∷ []
      → map (summary p) cs ≡ z ∷ []
      → ds ≡ []
      → map (summary p) (xs ++ (bs ++ (cs ++ [])) ++ (ds ++ [] ++ [])) ≡ x ∷ y ∷ z ∷ []
  joined xs bs cs ds x y z p1 p2 p3 p4 = simp (map-append, p1, p2, p3, p4)

  -- A message without an interval has no task, whatever buses and DBC files there are.
  expected_of_never :
      (b : ℕ) (m : p.Message) (canbus : Option p.Canbus) (dbc : Option p.Dbc)
      → expected_of p b m canbus dbc none ≡ []
  expected_of_never b m none dbc = refl
  expected_of_never b m (some canbus) none = refl
  expected_of_never b m (some canbus) (some dbc) = refl

  expected_received : expected p k 1 (holds.message received_message) ≡ []
  unfolding received_message
  expected_received =
      rw (holds.send_interval_lem received_message)
        (expected_of_never 1 (holds.message received_message) (p.get_canbus k 1) _)

  module _ (canbus : p.Canbus) (channel : p.Channel) (dbc : p.Dbc)
      (bus : p.get_canbus k 0 ≡ some canbus)
      (configured : p.get_channel_configuration k 0 ≡ returns (some channel))
      (loaded : p.dbc channel ≡ some dbc) where
    expected_sent :
        (i : ℕ)
        → p.has_message dbc (100 + i) ≡ true
        → map (summary p) (expected p k 0 (holds.message (sent_message i))) ≡ (0, 100 + i, 20) ∷ []
    unfolding sent_message
    expected_sent i has =
        rw (bus, expected)
          (rw (configured, expected_of)
            (rw loaded (
              rw (holds.send_interval_lem (sent_message i)) (
                rw (holds.frame_id_lem (sent_message i))
                  (rw has (ap (λ n. (0, n, 20) ∷ []) (holds.frame_id_lem (sent_message i))))))))

    pub setup_tasks :
        p.has_message dbc 100 ≡ true
        → p.has_message dbc 101 ≡ true
        → p.has_message dbc 102 ≡ true
        → map (summary p) (expected_tasks p k setup_channels)
          ≡ (0, 100, 20) ∷ (0, 101, 20) ∷ (0, 102, 20) ∷ []
    unfolding setup_canbus_configuration expected_tasks
    setup_tasks m0 m1 m2 =
        joined (expected p k 0 (holds.message (sent_message 0)))
          (expected p k 0 (holds.message (sent_message 1)))
          (expected p k 0 (holds.message (sent_message 2)))
          (expected p k 1 (holds.message received_message)) _ _ _ (expected_sent 0 m0)
          (expected_sent 1 m1) (expected_sent 2 m2) expected_received

-- Main and its configuration together: where main reaches its loop in a build with a network, bus 0
-- is there, its DBC knows the frames 100 to 102, and the configuration of every channel with a bus
-- can be read, the scheduler has three tasks: these frames on bus 0, every 20 ms. The message on
-- channel 1 is never sent.
pub main_sends :
    (b : Board) (h : Host) (c : Collaborators) (p : Platform) (m : Surroundings b h c p)
    (holds : Holds p m.canbus_configuration setup_canbus_configuration) (t : Boot b h c p)
    (canbus : p.Canbus) (channel : p.Channel) (dbc : p.Dbc)
    → m.config_networking ≡ true
    → IsConfigured p m.canbus_configuration
    → p.get_canbus m.canbus_configuration 0 ≡ some canbus
    → p.get_channel_configuration m.canbus_configuration 0 ≡ returns (some channel)
    → p.dbc channel ≡ some dbc
    → p.has_message dbc 100 ≡ true
    → p.has_message dbc 101 ≡ true
    → p.has_message dbc 102 ≡ true
    → main b h c p m (boot_init b h c p m) ≡ (returns looping, t)
    → map (λ x. summary p x.0) t.scheduler.work_queue_tasks
      ≡ (0, 100, 20) ∷ (0, 101, 20) ∷ (0, 102, 20) ∷ []
main_sends b h c p m holds t canbus channel dbc networking all bus configured loaded m0 m1 m2 e =
    let k = m.canbus_configuration in
    let running =
      main-IsRunning b h c p m (setup_channels p k holds) t networking all holds.channels_lem e in
    sym (map-map (summary p) (λ x. x.0) t.scheduler.work_queue_tasks)
    ∙ ap (map (summary p)) running.tasks_ready
    ∙ setup_tasks p k holds canbus channel dbc bus configured loaded m0 m1 m2
