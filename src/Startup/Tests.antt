-- ===== src/Startup/Tests.antt =====
-- The start-up on a small board with a display and a bench platform.
mod Logged
mod Mountless
use eerie_leap_rt.Common.{
  length, take, drop, ℕ, ◌≡◌, refl, Bool, true, false, Option, none, some, List, [], ◌∷◌, map,
  Outcome, returns, ◌⊎◌, arith, zero, suc, ◌+◌, ◌≤◌, throws, codes, get_elem?,
}
use eerie_leap_rt.DeviceTree.Fs.{Host, answered, dt_fs_init}
use eerie_leap_rt.DeviceTree.Devices.{Board, configure, find}
use eerie_leap_rt.Canbus.Scheduler
use eerie_leap_rt.Canbus.Scheduler.Start.{IsConfigured}
use eerie_leap_rt.Canbus.Tests.Sample.{bench, Bench, answers}
use eerie_leap_rt.Http.Tests.{sample}
use eerie_leap_rt.Startup.Calls.{Call, initialize, fs_service, cfb, IsOrdered}
use eerie_leap_rt.Startup.Configurations.{CanMessage}
use eerie_leap_rt.Startup.Canbus.{setup_canbus_configuration, channel_1, received_message}
use eerie_leap_rt.Startup.Sensors.{Sensor, setup_test_sensors}
use eerie_leap_rt.Startup.Canbus.Tasks.{Holds, summary, main_sends}
use eerie_leap_rt.Startup.Main.{
  configure_devices, Surroundings, Boot, failed, looping, boot_init, main, with_display,
  perform_all, start_controllers, make_display_controller, initialize_display_controller,
  mount_or_throw, start_services, initialize_scheduler, initialize_http_server, start_scheduler,
}
use eerie_leap_rt.Startup.Main.Ordered.{main-IsOrdered}
use eerie_leap_rt.Startup.Main.Running.{IsRunning}
use eerie_leap_rt.Startup.Main.Loops.{main_loops}
use eerie_leap_rt.Startup.Main.Failed.{Refused, main_failed}
use eerie_leap_rt.Startup.Logging.{LoggingConfiguration, setup_logging_configuration}
use eerie_leap_rt.Startup.Logging.Numbers.{
  AreDistinct, configuration_of, setup_logging_configuration_lem,
}

abbrev pub board : Board
board = record {
  AdcInfo = ℕ;
  GpioSpec = ℕ;
  Device = ℕ;
  adc0 = none;
  adc1 = none;
  adc2 = none;
  adc3 = none;
  gpioc = none;
  can0 = some 60;
  can1 = none;
  display = some 9;
  modbus0 = none;
}

abbrev pub host : Host
host = record {
  World = ℕ;
  Mount = ℕ;
  int_fs_entry = some 1;
  sd_fs_entry = some 2;
  disk_names = [];
  get_host_props = λ w. some true;
  request = λ op arg w. (answered 0, w);
  sd_is_card_present = λ w. false;
}

abbrev message : CanMessage → ℕ × Option ℕ × Option (Unit {0})
message m = (m.frame_id, m.send_interval_ms, none)

abbrev configuration : List (ℕ × List (ℕ × Option ℕ × Option (Unit {0})))
configuration =
    map (λ x. (x.0, map message x.1.message_configurations))
      setup_canbus_configuration.channel_configurations

abbrev bench_world : Bench
bench_world = record { stack = []; behaviour = answers; frames = []; running = false }

-- Every call outside succeeds, but for one, if it is given.
abbrev surroundings : (List Call → Call → Outcome Bool) → Surroundings board host sample bench
surroundings respond = record {
  config_wifi = false;
  config_networking = true;
  screen = λ d. record { font_width = 6; font_height = 8; x_res = 128; y_res = 64 };
  host_world = 0;
  canbus_world = bench_world;
  respond = respond;
  manager = 3;
  service = 1;
  canbus_configuration = configuration;
}

abbrev pub working : Surroundings board host sample bench
working = surroundings (λ calls k. returns true)

abbrev answer_of : Call → Outcome Bool
answer_of (initialize fs_service) = returns false
answer_of _ = returns true

abbrev broken : Surroundings board host sample bench
broken = surroundings (λ calls k. answer_of k)

abbrev pub end_of : Surroundings board host sample bench → Boot board host sample bench
end_of m = (main board host sample bench m (boot_init board host sample bench m)).1

main-IsOrdered_example : IsOrdered true true (end_of working).calls
unfolding configure_devices configure boot_init dt_fs_init
main-IsOrdered_example = main-IsOrdered board host sample bench working

pub runs :
    main board host sample bench working (boot_init board host sample bench working)
    ≡ (returns looping, end_of working)
unfolding main with_display configure perform_all start_controllers make_display_controller
    initialize_display_controller boot_init dt_fs_init mount_or_throw start_services
    initialize_scheduler initialize_http_server start_scheduler Scheduler.start
    setup_canbus_configuration Scheduler.initialize
runs = refl

breaks :
    main board host sample bench broken (boot_init board host sample bench broken)
    ≡ (returns failed, end_of broken)
unfolding main with_display configure perform_all start_controllers make_display_controller
    initialize_display_controller boot_init dt_fs_init mount_or_throw
breaks = refl

main_failed_example :
    Refused board host sample bench broken (initialize cfb) (end_of broken)
    ⊎ Refused board host sample bench broken (initialize fs_service) (end_of broken)
main_failed_example = main_failed board host sample bench broken (end_of broken) breaks

configured : IsConfigured bench configuration
configured b canbus e = (b, refl)

main_loops_example :
    (t : Boot board host sample bench) × (main board host sample bench working
        (boot_init board host sample bench working)
      ≡ (returns looping, t))
    × IsRunning board host sample bench working configuration t
main_loops_example =
    main_loops board host sample bench working (λ calls k. refl) configuration configured refl 1
      refl refl

holds : Holds bench configuration setup_canbus_configuration
holds = record {
  message = message;
  frame_id_lem = λ m. refl;
  send_interval_lem = λ m. refl;
  channels_lem = refl;
}

main_sends_example :
    map (λ x. summary bench x.0) (end_of working).scheduler.work_queue_tasks
    ≡ (0, 100, 20) ∷ (0, 101, 20) ∷ (0, 102, 20) ∷ []
main_sends_example =
    main_sends board host sample bench working holds (end_of working) 0 0 0 refl configured refl
      refl refl refl refl refl runs

-- The signal of the test sensor that reads the CAN bus is the one that channel 1 receives.
reads_signal :
    map (λ (s : Sensor). s.canbus_source) (drop 5 (take 6 setup_test_sensors))
    ≡ some (record {
      bus_channel = channel_1.bus_channel;
      frame_id = received_message.frame_id;
      signal_name = some (codes "RPM");
    })
      ∷ []
unfolding setup_test_sensors channel_1 received_message
reads_signal = refl

abbrev sum : List ℕ → ℕ
sum [] = 0
sum (n ∷ ns) = n + sum ns

-- With the sum of the bytes as the hash, the eight test sensors have four settings.
settings_of_test_sensors :
    length
      (setup_logging_configuration
        (codes "at")
        (some (map (λ (s : Sensor). some (sum s.id)) setup_test_sensors))
        []).1
    ≡ 4
unfolding setup_logging_configuration setup_test_sensors
settings_of_test_sensors = refl
