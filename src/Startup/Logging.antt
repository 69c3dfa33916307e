-- ===== src/Startup/Logging.antt =====
-- app/src/main.cpp, SetupLoggingConfiguration, whose call in main is commented out.
pub mod Numbers
use eerie_leap_rt.Common.{
  ℕ, zero, suc, Bool, true, false, List, [], ◌∷◌, get_elem?, Option, none, some, Outcome, returns,
  Eff, pure, throw, deref, and_then, ◌>>=◌,
}
use eerie_leap_rt.DeviceTree.Devices.{emplace}

-- `SensorLoggingConfiguration`.
pub record SensorLogging : Type 0 where
  pub is_enabled : Bool
  pub log_raw_value : Bool
  pub log_only_new_data : Bool

-- `LoggingConfiguration`, its map as a list of the entries by the hash of the sensor's id.
pub record LoggingConfiguration : Type 0 where
  pub logging_interval_ms : ℕ
  pub sensor_configurations : List (ℕ × SensorLogging)

-- `v.at(i)`, which throws an exception with the bytes `e` behind the end.
abbrev pub at_or_throw {ℓ κ} : {S : Type ℓ} {A : Type κ} → List ℕ → Option A → Eff S A
at_or_throw e none = throw e
at_or_throw e (some a) = pure a

abbrev pub sensor_logging_config_1 : SensorLogging
sensor_logging_config_1 = record {
  is_enabled = true;
  log_raw_value = false;
  log_only_new_data = false;
}

abbrev pub sensor_logging_config_2 : SensorLogging
sensor_logging_config_2 = record {
  is_enabled = true;
  log_raw_value = true;
  log_only_new_data = false;
}

abbrev pub sensor_logging_config_6 : SensorLogging
sensor_logging_config_6 = record {
  is_enabled = true;
  log_raw_value = true;
  log_only_new_data = false;
}

abbrev pub sensor_logging_config_7 : SensorLogging
sensor_logging_config_7 = record {
  is_enabled = true;
  log_raw_value = true;
  log_only_new_data = true;
}

module _ (e : List ℕ) where
  -- One insertion, for the sensor with a number. A sensor is a pointer, here to the hash of its id.
  unfoldable pub insert_sensor :
      List (Option ℕ) → ℕ → SensorLogging → Eff (List (ℕ × SensorLogging)) (Unit {0})
  unfolding emplace
  insert_sensor sensors i config = do
    sensor ← at_or_throw e (get_elem? sensors i)
    id_hash ← deref sensor
    λ m. (returns tt, emplace id_hash config m)

  -- What `SetupLoggingConfiguration` hands to `Update`, for the sensors that `Get` returned.
  unfoldable pub setup_logging_configuration :
      Option (List (Option ℕ)) → Eff (List (ℕ × SensorLogging)) LoggingConfiguration
  unfolding insert_sensor
  setup_logging_configuration got = do
    sensors ← deref got
    first ← insert_sensor sensors 0 sensor_logging_config_1
    second ← insert_sensor sensors 1 sensor_logging_config_2
    sixth ← insert_sensor sensors 5 sensor_logging_config_6
    seventh ← insert_sensor sensors 6 sensor_logging_config_7
    λ m. (returns (record { logging_interval_ms = 100; sensor_configurations = m }), m)
