-- ===== src/DeviceTree/Devices/Tests.antt =====
-- A board with two ADCs and one CAN controller, and the theorems at inputs.
use eerie_leap_rt.Common.{ℕ, ◌≡◌, refl, true, false, none, some, [], ◌∷◌, codes}
use eerie_leap_rt.DeviceTree.Fs.{Host, answered, dt_fs_init}
use eerie_leap_rt.DeviceTree.Devices.{Board, devices_init, adc_initialize, canbus_get, configure}
use eerie_leap_rt.DeviceTree.Devices.Startup.{canbus_get-configure}

abbrev host : Host
host = record {
  World = ℕ;
  Mount = ℕ;
  int_fs_entry = some 1;
  sd_fs_entry = none;
  disk_names = [];
  get_host_props = λ w. some true;
  request = λ op arg w. (answered 0, w);
  sd_is_card_present = λ w. false;
}

abbrev board : Board
board = record {
  AdcInfo = ℕ;
  GpioSpec = ℕ;
  Device = ℕ;
  adc0 = none;
  adc1 = some 41;
  adc2 = none;
  adc3 = some 43;
  gpioc = some (7 ∷ 8 ∷ []);
  can0 = none;
  can1 = some 61;
  display = none;
  modbus0 = some (codes "MODBUS");
}

adcs_in_order : (adc_initialize board (devices_init board)).adc_infos ≡ some (41 ∷ 43 ∷ [])
unfolding adc_initialize
adcs_in_order = refl

canbus_get-configure_example :
    canbus_get board 1 (configure board host 0 (dt_fs_init host, devices_init board)).1 ≡ some 61
canbus_get-configure_example = canbus_get-configure board host 0 (dt_fs_init host) 1
