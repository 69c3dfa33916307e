-- ===== src/Startup/Main.antt =====
-- app/src/main.cpp, main: the order of the start, and where it ends early. The display controller,
-- the HTTP server and the CAN scheduler are those of their own modules; of every other object the
-- outcome of each call is a parameter.
pub mod Trail
pub mod Ordered
pub mod Kept
pub mod Started
pub mod Running
pub mod Failed
pub mod Works
pub mod Loops
pub mod Mountless
pub mod Logged
use eerie_leap_rt.Common.{
  ℕ, Bool, true, false, Option, none, some, List, [], ◌∷◌, ◌++◌, map, codes, Outcome, returns,
  throws, faults, Eff, pure, throw, and_then, if◌then◌else◌, ◌>>=◌, ◌>>◌,
}
use eerie_leap_rt.Controllers.Display.{Screen, Display}
use eerie_leap_rt.Controllers.Display
use eerie_leap_rt.DeviceTree.Fs.{Host, DtFs, dt_fs_init}
use eerie_leap_rt.DeviceTree.Devices.{Board, Devices, devices_init, configure}
use eerie_leap_rt.Http.Collaborators.{Collaborators}
use eerie_leap_rt.Http.Server.{HttpServer, server_init}
use eerie_leap_rt.Http.Server
use eerie_leap_rt.Canbus.Platform.{Platform}
use eerie_leap_rt.Canbus.Scheduler.{Scheduler}
use eerie_leap_rt.Canbus.Scheduler
use eerie_leap_rt.Startup.Calls.{
  Object, cfb, display_controller, sdmmc_service, http_server, fs_service, rtc_provider,
  boot_elapsed_time_provider, time_service, guid_generator, cbor_system_config_service,
  cbor_adc_config_service, cbor_sensors_config_service, cbor_canbus_config_service,
  json_adc_config_service, json_sensors_config_service, json_canbus_config_service, adc_manager,
  adc_configuration_manager, gpio, system_configuration_manager, canbus_configuration_manager,
  sensors_configuration_manager, canbus_service, canbus_com_service, sensor_readings_frame,
  cbor_logging_config_service, json_logging_config_service, logging_configuration_manager,
  log_writer_service, logging_controller, isr_sensor_reader_factory, sensor_reader_factory,
  sensors_processing_service, calibration_service, canbus_scheduler_service, Call, make, initialize,
  start, register_is_sd_card_present_handler, initialize_wifi, setup_canbus_configuration,
  get_channel_counts, setup_test_sensors,
}
use eerie_leap_rt.Startup.Steps.{
  sd_calls, wifi_calls, server_calls, core_calls, logging_calls, sensor_calls,
}

-- Where main ends: `return -1`, or the endless loop that sleeps.
pub data Exit : Type 0 where
  failed looping : Exit

-- What main finds around it. `respond` is the outcome of a call outside, given those before it, and
-- its Boolean is what the caller reads, if it reads one.
pub record Surroundings (b : Board) (h : Host) (c : Collaborators) (p : Platform) : Type 1 where
  pub config_wifi : Bool
  pub config_networking : Bool
  pub screen : b.Device → Screen
  pub host_world : h.World
  pub canbus_world : p.World
  pub respond : List Call → Call → Outcome Bool
  -- The objects that the constructions make, as far as other modules read them, and the
  -- configuration that the CAN configuration manager has after `SetupCanbusConfiguration`.
  pub manager : c.Manager
  pub service : c.Service
  pub canbus_configuration : p.Config

abbrev pub is_present {ℓ} : {A : Type ℓ} → Option A → Bool
is_present none = false
is_present (some a) = true

module _ (b : Board) (h : Host) (c : Collaborators) (p : Platform) where
  -- The statics and the local objects, and the trace of the calls.
  pub record Boot : Type 0 where
    pub fs : DtFs h
    pub devices : Devices b
    pub display : Display
    pub server : HttpServer c (Unit {0}) (Unit {0})
    pub scheduler : Scheduler p
    pub calls : List Call

  module _ (m : Surroundings b h c p) where
    unfoldable pub boot_init : Boot
    boot_init = record {
      fs = dt_fs_init h;
      devices = devices_init b;
      display = Display.construct none;
      server = server_init c (Unit {0}) (Unit {0});
      scheduler = Scheduler.construct p m.canbus_world;
      calls = [];
    }

    -- A call of an object of another module.
    abbrev pub perform : Call → Eff Boot Bool
    perform k s = (m.respond s.calls k, record s { calls = k ∷ s.calls })

    unfoldable pub perform_all : List Call → Eff Boot (Unit {0})
    perform_all [] = pure tt
    perform_all (k ∷ ks) = do result ← perform k; perform_all ks

    -- `DtConfigurator::Initialize`.
    unfoldable pub configure_devices : Eff Boot (Unit {0})
    configure_devices s =
        let (fs, devices) = configure b h m.host_world (s.fs, s.devices) in
        (returns tt, record s { fs = fs; devices = devices })

    abbrev pub screen_of : Option b.Device → Option Screen
    screen_of none = none
    screen_of (some device) = some (m.screen device)

    unfoldable pub make_display_controller : Eff Boot (Unit {0})
    make_display_controller s = (
      returns tt,
      record s {
        display = Display.construct (screen_of s.devices.display_dev);
        calls = make display_controller ∷ s.calls;
      },
    )

    unfoldable pub initialize_display_controller : Eff Boot (Unit {0})
    initialize_display_controller s = (
      returns tt,
      record s {
        display = Display.initialize s.display;
        calls = initialize display_controller ∷ s.calls;
      },
    )

    unfoldable pub initialize_http_server : Eff Boot (Unit {0})
    initialize_http_server s = (
      returns tt,
      record s {
        server =
            Server.initialize c (Unit {0}) (Unit {0}) (some tt) (some tt) (some m.manager)
              (some m.service) s.server;
        calls = initialize http_server ∷ s.calls;
      },
    )

    unfoldable pub initialize_scheduler : Eff Boot (Unit {0})
    initialize_scheduler s = (
      returns tt,
      record s {
        scheduler = Scheduler.initialize p s.scheduler;
        calls = initialize canbus_scheduler_service ∷ s.calls;
      },
    )

    unfoldable pub start_scheduler : Eff Boot (Unit {0})
    start_scheduler s =
        let (result, scheduler) = Scheduler.start p m.canbus_configuration s.scheduler in
        (
          result,
          record s { scheduler = scheduler; calls = start canbus_scheduler_service ∷ s.calls },
        )

    abbrev pub server_if : Bool → Eff Boot (Unit {0})
    server_if false = pure tt
    server_if true = initialize_http_server

    -- From the file system's success on. `sd` says that there is an `sd_fs_service`.
    unfoldable pub start_services : Bool → Eff Boot Exit
    start_services sd = do
      core ← perform_all core_calls
      logging ← perform_all (logging_calls sd)
      sensors ← perform_all sensor_calls
      scheduler ← initialize_scheduler
      server ← server_if m.config_networking
      processing ← perform_all (start sensors_processing_service ∷ [])
      tasks ← start_scheduler
      pure looping

    -- `DtFs::GetInternalFsMp().value()` throws where there is none.
    unfoldable pub mount_or_throw : Option h.Mount → Eff Boot h.Mount
    mount_or_throw none = throw (codes "bad optional access")
    mount_or_throw (some mount) = pure mount

    abbrev pub go_on : Eff Boot Exit → Bool → Eff Boot Exit
    go_on rest false = pure failed
    go_on rest true = rest

    -- From the display controller on, with the statics that the device tree has filled.
    unfoldable pub start_controllers : DtFs h → Eff Boot Exit
    start_controllers fs = do
      made ← make_display_controller
      initialized ← initialize_display_controller
      sd ← perform_all (sd_calls (is_present fs.sd_fs_mp))
      wifi ← perform_all (wifi_calls m.config_wifi)
      server ← perform_all (server_calls m.config_networking)
      mount ← mount_or_throw fs.int_fs_mp
      service ← perform_all (make fs_service ∷ [])
      ready ← perform (initialize fs_service)
      go_on (start_services (is_present fs.sd_fs_mp)) ready

    unfoldable pub with_display : DtFs h → Option b.Device → Eff Boot Exit
    with_display fs none = start_controllers fs
    with_display fs (some device) = do
      made ← perform_all (make cfb ∷ [])
      ready ← perform (initialize cfb)
      go_on (start_controllers fs) ready

    unfoldable pub main : Eff Boot Exit
    unfolding configure_devices
    main = do configured ← configure_devices; λ s. with_display s.fs s.devices.display_dev s
