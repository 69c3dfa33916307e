-- ===== src/DeviceTree/Devices.antt =====
-- app/src/subsys/device_tree/dt_{adc,gpio,canbus,display,modbus,configurator}.{h,cpp}: the devices
-- that the board's aliases name. What the build's macros expand to is the record `Board`.
pub mod Startup
mod Tests
use eerie_leap_rt.Common.{
  ℕ, Bool, true, false, Option, none, some, List, [], ◌∷◌, ◌++◌, ◌==◌, if◌then◌else◌,
}
use eerie_leap_rt.DeviceTree.Fs.{Host, DtFs, init_internal_fs, init_sd_fs}

-- What the device tree gives for the aliases, if they are there.
pub record Board : Type 1 where
  pub AdcInfo : Type 0
  pub GpioSpec : Type 0
  pub Device : Type 0
  pub adc0 : Option AdcInfo
  pub adc1 : Option AdcInfo
  pub adc2 : Option AdcInfo
  pub adc3 : Option AdcInfo
  pub gpioc : Option (List GpioSpec)
  pub can0 : Option Device
  pub can1 : Option Device
  pub display : Option Device
  pub modbus0 : Option (List ℕ)

-- The static members of the classes.
pub record Devices (b : Board) : Type 0 where
  pub adc_infos : Option (List b.AdcInfo)
  pub gpio_specs : Option (List b.GpioSpec)
  pub canbus_devs : List (ℕ × b.Device)
  pub display_dev : Option b.Device
  pub iface : Option (List ℕ)

-- `m.at(k)` behind `m.contains(k)`, and `m.emplace(k, v)`, which keeps an entry that is there.
module _ {ℓ} {V : Type ℓ} where
  unfoldable pub find : ℕ → List (ℕ × V) → Option V
  find k [] = none
  find k ((j, v) ∷ m) = if j == k then some v else find k m

  unfoldable pub emplace : ℕ → V → List (ℕ × V) → List (ℕ × V)
  emplace k v [] = (k, v) ∷ []
  emplace k v ((j, w) ∷ m) = if j == k then (j, w) ∷ m else (j, w) ∷ emplace k v m

  -- `push_back` under an `#if`, and a device emplaced under one.
  unfoldable pub push_if : Option V → List V → List V
  push_if none l = l
  push_if (some v) l = l ++ (v ∷ [])

  unfoldable pub emplace_if : ℕ → Option V → List (ℕ × V) → List (ℕ × V)
  unfolding emplace
  emplace_if k none m = m
  emplace_if k (some v) m = emplace k v m

  -- An assignment under an `#if`.
  unfoldable pub assign_if : Option V → Option V → Option V
  assign_if none old = old
  assign_if (some v) old = some v

module _ (b : Board) where
  unfoldable pub devices_init : Devices b
  devices_init = record {
    adc_infos = none;
    gpio_specs = none;
    canbus_devs = [];
    display_dev = none;
    iface = none;
  }

  unfoldable pub found_adcs : List b.AdcInfo
  unfolding push_if
  found_adcs = push_if b.adc3 (push_if b.adc2 (push_if b.adc1 (push_if b.adc0 [])))

  -- `DtAdc::Initialize`; without an alias it does nothing.
  unfoldable pub adc_initialize : Devices b → Devices b
  unfolding found_adcs
  adc_initialize d = elim found_adcs [ [] ↦ d | i ∷ is ↦ record d { adc_infos = some (i ∷ is) } ]

  unfoldable pub gpio_initialize : Devices b → Devices b
  unfolding assign_if
  gpio_initialize d = record d { gpio_specs = assign_if b.gpioc d.gpio_specs }

  unfoldable pub display_initialize : Devices b → Devices b
  unfolding assign_if
  display_initialize d = record d { display_dev = assign_if b.display d.display_dev }

  unfoldable pub modbus_initialize : Devices b → Devices b
  unfolding assign_if
  modbus_initialize d = record d { iface = assign_if b.modbus0 d.iface }

  unfoldable pub canbus_initialize : Devices b → Devices b
  unfolding emplace_if
  canbus_initialize d = record d {
    canbus_devs = emplace_if 1 b.can1 (emplace_if 0 b.can0 d.canbus_devs);
  }

  -- `DtCanbus::Get`.
  unfoldable pub canbus_get : ℕ → Devices b → Option b.Device
  unfolding find
  canbus_get bus_channel d = find bus_channel d.canbus_devs

  -- `DtConfigurator::Initialize`.
  unfoldable pub configure : (h : Host) → h.World → DtFs h × Devices b → DtFs h × Devices b
  unfolding adc_initialize gpio_initialize display_initialize modbus_initialize canbus_initialize
      init_internal_fs init_sd_fs
  configure h w (fs, d) = (
    init_sd_fs h w (init_internal_fs h fs),
    canbus_initialize (modbus_initialize (display_initialize (adc_initialize (gpio_initialize d)))),
  )
