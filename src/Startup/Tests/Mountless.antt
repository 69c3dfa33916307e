-- ===== src/Startup/Tests/Mountless.antt =====
-- The start-up on the small board without its internal file system.
use eerie_leap_rt.Common.{◌≡◌, refl, true, none, List, ◌∷◌, codes, returns, throws}
use eerie_leap_rt.DeviceTree.Fs.{Host}
use eerie_leap_rt.Canbus.Tests.Sample.{bench}
use eerie_leap_rt.Http.Tests.{sample}
use eerie_leap_rt.Startup.Calls.{Call, http_server, make, start}
use eerie_leap_rt.Startup.Main.{Surroundings, Boot, boot_init, main}
use eerie_leap_rt.Startup.Main.Mountless.{main_throws}
use eerie_leap_rt.Startup.Tests.{board, host, working}

abbrev mountless : Host
mountless = record host { int_fs_entry = none }

abbrev around : Surroundings board mountless sample bench
around = record {
  config_wifi = true;
  config_networking = true;
  screen = working.screen;
  host_world = 0;
  canbus_world = working.canbus_world;
  respond = λ calls k. returns true;
  manager = 3;
  service = 1;
  canbus_configuration = working.canbus_configuration;
}

main_throws_example :
    (t : Boot board mountless sample bench) × (calls : List Call) × (main board mountless sample
        bench around
        (boot_init board mountless sample bench around)
      ≡ (throws (codes "bad optional access"), t))
    × (t.calls ≡ start http_server ∷ make http_server ∷ calls)
main_throws_example = main_throws board mountless sample bench around (λ calls k. refl) refl refl
