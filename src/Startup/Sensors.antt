-- ===== src/Startup/Sensors.antt =====
-- app/src/main.cpp, SetupTestSensors and SetupAdcConfiguration: the values that they write. Main
-- calls the first; its call of the second is commented out.
use eerie_leap_rt.Common.{ℕ, List, [], ◌∷◌, Option, none, some, codes}
use eerie_leap_rt.Startup.Configurations.{Decimal}

pub data SensorType : Type 0 where
  physical_analog virtual_analog user_analog canbus_analog : SensorType
  canbus_raw physical_indicator virtual_indicator : SensorType

pub data Interpolation : Type 0 where
  linear cubic_spline : Interpolation

-- `CalibrationData`, a voltage and a value.
pub record CalibrationData : Type 0 where
  pub voltage : Decimal
  pub value : Decimal

-- A voltage interpolator with its table.
pub record Interpolator : Type 0 where
  pub method : Interpolation
  pub table : List CalibrationData

-- `CanbusSource`.
pub record CanbusSource : Type 0 where
  pub bus_channel : ℕ
  pub frame_id : ℕ
  pub signal_name : Option (List ℕ)

-- `Sensor`; what main leaves alone is none. Without a unit the text is empty.
pub record Sensor : Type 0 where
  pub id : List ℕ
  pub name : List ℕ
  pub unit : List ℕ
  pub description : List ℕ
  pub type : SensorType
  pub channel : Option ℕ
  pub sampling_rate_ms : ℕ
  pub script_path : Option (List ℕ)
  pub voltage_interpolator : Option Interpolator
  pub expression_evaluator : Option (List ℕ)
  pub canbus_source : Option CanbusSource

abbrev whole : ℕ → Decimal
whole n = record { mantissa = n; exponent = 0 }

abbrev thousandths : ℕ → Decimal
thousandths n = record { mantissa = n; exponent = 3 }

-- The table from 0 V to 5 V.
abbrev up_to_5_volts : ℕ → ℕ → List CalibrationData
up_to_5_volts low high =
    record { voltage = whole 0; value = whole low }
    ∷ record { voltage = whole 5; value = whole high }
    ∷ []

abbrev sensor_1 : Sensor
sensor_1 = record {
  id = codes "sensor_1";
  name = codes "Sensor 1";
  unit = codes "km/h";
  description = codes "Test Sensor 1";
  type = physical_analog;
  channel = some 0;
  sampling_rate_ms = 50;
  script_path = none;
  voltage_interpolator = some (record { method = linear; table = up_to_5_volts 0 100 });
  expression_evaluator = none;
  canbus_source = none;
}

abbrev sensor_2 : Sensor
sensor_2 = record {
  id = codes "sensor_2";
  name = codes "Sensor 2";
  unit = codes "km/h";
  description = codes "Test Sensor 2";
  type = physical_analog;
  channel = some 1;
  sampling_rate_ms = 1000;
  script_path = none;
  voltage_interpolator = some (record { method = cubic_spline; table = up_to_5_volts 90 100 });
  expression_evaluator = some (codes "x * 4 + 1.6");
  canbus_source = none;
}

abbrev sensor_3 : Sensor
sensor_3 = record {
  id = codes "sensor_3";
  name = codes "Sensor 3";
  unit = codes "km/h";
  description = codes "Test Sensor 3";
  type = virtual_analog;
  channel = none;
  sampling_rate_ms = 2000;
  script_path = none;
  voltage_interpolator = none;
  expression_evaluator = some (codes "2 + 8.34");
  canbus_source = none;
}

abbrev sensor_4 : Sensor
sensor_4 = record {
  id = codes "sensor_4";
  name = codes "Sensor 4";
  unit = [];
  description = codes "Test Sensor 4";
  type = physical_indicator;
  channel = some 1;
  sampling_rate_ms = 1000;
  script_path = none;
  voltage_interpolator = none;
  expression_evaluator = none;
  canbus_source = none;
}

abbrev sensor_5 : Sensor
sensor_5 = record {
  id = codes "sensor_5";
  name = codes "Sensor 5";
  unit = [];
  description = codes "Test Sensor 5";
  type = virtual_indicator;
  channel = none;
  sampling_rate_ms = 1000;
  script_path = none;
  voltage_interpolator = none;
  expression_evaluator = some (codes "sensor_1 < 400");
  canbus_source = none;
}

abbrev sensor_6 : Sensor
sensor_6 = record {
  id = codes "sensor_6";
  name = codes "Sensor 6";
  unit = [];
  description = codes "Test Sensor 6";
  type = canbus_analog;
  channel = none;
  sampling_rate_ms = 1000;
  script_path = none;
  voltage_interpolator = none;
  expression_evaluator = none;
  canbus_source =
      some (record { bus_channel = 1; frame_id = 790; signal_name = some (codes "RPM") });
}

abbrev sensor_7 : Sensor
sensor_7 = record {
  id = codes "sensor_7";
  name = codes "Sensor 7";
  unit = [];
  description = codes "Test Sensor 7";
  type = canbus_raw;
  channel = none;
  sampling_rate_ms = 300;
  script_path = none;
  voltage_interpolator = none;
  expression_evaluator = none;
  canbus_source = some (record { bus_channel = 0; frame_id = 790; signal_name = none });
}

abbrev sensor_8 : Sensor
sensor_8 = record {
  id = codes "sensor_8";
  name = codes "Sensor 8";
  unit = [];
  description = codes "Test Sensor 8";
  type = user_analog;
  channel = none;
  sampling_rate_ms = 500;
  script_path = some (codes "scripts/sensor_8.lua");
  voltage_interpolator = none;
  expression_evaluator = some (codes "x * 2");
  canbus_source = none;
}

-- What `SetupTestSensors` hands to `Update`.
unfoldable pub setup_test_sensors : List Sensor
setup_test_sensors =
    sensor_1 ∷ sensor_2 ∷ sensor_3 ∷ sensor_4 ∷ sensor_5 ∷ sensor_6 ∷ sensor_7 ∷ sensor_8 ∷ []

-- `AdcConfiguration`; each channel has the calibrator of the samples.
pub record AdcConfiguration : Type 0 where
  pub samples : ℕ
  pub channel_configurations : List Interpolator

abbrev adc_calibrator : Interpolator
adc_calibrator = record {
  method = linear;
  table =
      record { voltage = thousandths 501; value = thousandths 469 }
      ∷ record { voltage = thousandths 1000; value = thousandths 968 }
      ∷ record { voltage = thousandths 2000; value = thousandths 1970 }
      ∷ record { voltage = thousandths 3002; value = thousandths 2980 }
      ∷ record { voltage = thousandths 4003; value = thousandths 4010 }
      ∷ record { voltage = thousandths 5000; value = thousandths 5000 }
      ∷ [];
}

-- What `SetupAdcConfiguration` hands to `Update`.
unfoldable pub setup_adc_configuration : AdcConfiguration
setup_adc_configuration = record {
  samples = 40;
  channel_configurations = adc_calibrator ∷ adc_calibrator ∷ adc_calibrator ∷ adc_calibrator ∷ [];
}
