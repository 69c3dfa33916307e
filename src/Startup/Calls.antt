-- ===== src/Startup/Calls.antt =====
-- app/src/main.cpp, main: the calls that it makes on the objects of the firmware, and what each of
-- them needs to have been made before.
use eerie_leap_rt.Common.{
  ℕ, ◌+◌, ◌*◌, ◌≡◌, Bool, true, false, ◌||◌, List, [], ◌∷◌, ◌++◌, All, map, ◌==◌,
}

-- The objects, by the variables of main; the factories are named with what they create.
pub data Object : Type 0 where
  cfb display_controller sdmmc_service http_server fs_service rtc_provider : Object
  boot_elapsed_time_provider time_service guid_generator cbor_system_config_service : Object
  cbor_adc_config_service cbor_sensors_config_service cbor_canbus_config_service : Object
  json_adc_config_service json_sensors_config_service json_canbus_config_service : Object
  adc_manager adc_configuration_manager gpio system_configuration_manager : Object
  canbus_configuration_manager sensors_configuration_manager canbus_service : Object
  canbus_com_service sensor_readings_frame cbor_logging_config_service : Object
  json_logging_config_service logging_configuration_manager log_writer_service : Object
  logging_controller isr_sensor_reader_factory sensor_reader_factory : Object
  sensors_processing_service calibration_service canbus_scheduler_service : Object

-- A construction, a call of Initialize or Start, and the calls of other names.
pub data Call : Type 0 where
  make initialize start : Object → Call
  register_is_sd_card_present_handler initialize_wifi : Call
  setup_canbus_configuration get_channel_counts setup_test_sensors : Call

abbrev pub number : Object → ℕ
number cfb = 0
number display_controller = 1
number sdmmc_service = 2
number http_server = 3
number fs_service = 4
number rtc_provider = 5
number boot_elapsed_time_provider = 6
number time_service = 7
number guid_generator = 8
number cbor_system_config_service = 9
number cbor_adc_config_service = 10
number cbor_sensors_config_service = 11
number cbor_canbus_config_service = 12
number json_adc_config_service = 13
number json_sensors_config_service = 14
number json_canbus_config_service = 15
number adc_manager = 16
number adc_configuration_manager = 17
number gpio = 18
number system_configuration_manager = 19
number canbus_configuration_manager = 20
number sensors_configuration_manager = 21
number canbus_service = 22
number canbus_com_service = 23
number sensor_readings_frame = 24
number cbor_logging_config_service = 25
number json_logging_config_service = 26
number logging_configuration_manager = 27
number log_writer_service = 28
number logging_controller = 29
number isr_sensor_reader_factory = 30
number sensor_reader_factory = 31
number sensors_processing_service = 32
number calibration_service = 33
number canbus_scheduler_service = 34

abbrev pub code : Call → ℕ
code (make o) = number o * 4
code (initialize o) = number o * 4 + 1
code (start o) = number o * 4 + 2
code register_is_sd_card_present_handler = 3
code initialize_wifi = 7
code setup_canbus_configuration = 11
code get_channel_counts = 15
code setup_test_sensors = 19

abbrev pub was_called : Call → List Call → Bool
was_called k [] = false
was_called k (j ∷ calls) = code j == code k || was_called k calls

-- The arguments of the constructors that may not be null. `cfb`, and the SD card's service where
-- other objects than those of the logging take it, may be.
abbrev pub arguments : Object → List Object
arguments time_service = rtc_provider ∷ boot_elapsed_time_provider ∷ []
arguments cbor_system_config_service = fs_service ∷ []
arguments cbor_adc_config_service = fs_service ∷ []
arguments cbor_sensors_config_service = fs_service ∷ []
arguments cbor_canbus_config_service = fs_service ∷ []
arguments adc_configuration_manager =
    cbor_adc_config_service ∷ json_adc_config_service ∷ adc_manager ∷ []
arguments system_configuration_manager = cbor_system_config_service ∷ []
arguments canbus_configuration_manager =
    cbor_canbus_config_service ∷ json_canbus_config_service ∷ []
arguments sensors_configuration_manager =
    cbor_sensors_config_service ∷ json_sensors_config_service ∷ gpio ∷ adc_configuration_manager
    ∷ []
arguments canbus_service = canbus_configuration_manager ∷ []
arguments canbus_com_service = canbus_service ∷ []
arguments cbor_logging_config_service = fs_service ∷ []
arguments json_logging_config_service = sdmmc_service ∷ []
arguments logging_configuration_manager =
    cbor_logging_config_service ∷ json_logging_config_service ∷ []
arguments log_writer_service =
    sdmmc_service ∷ logging_configuration_manager ∷ time_service ∷ sensor_readings_frame ∷ []
arguments logging_controller =
    log_writer_service ∷ sensors_configuration_manager ∷ logging_configuration_manager
    ∷ canbus_com_service ∷ display_controller ∷ []
arguments isr_sensor_reader_factory =
    time_service ∷ guid_generator ∷ sensor_readings_frame ∷ canbus_service ∷ []
arguments sensor_reader_factory =
    time_service ∷ guid_generator ∷ gpio ∷ adc_configuration_manager ∷ sensor_readings_frame ∷ []
arguments sensors_processing_service =
    sensors_configuration_manager ∷ sensor_readings_frame ∷ isr_sensor_reader_factory
    ∷ sensor_reader_factory ∷ []
arguments calibration_service =
    time_service ∷ guid_generator ∷ adc_configuration_manager ∷ sensors_processing_service ∷ []
arguments canbus_scheduler_service =
    canbus_configuration_manager ∷ canbus_service ∷ sensor_readings_frame ∷ []
arguments _ = []

-- The arguments that are null pointers where the board has no display or no SD card.
abbrev pub optional_arguments : Bool → Bool → Object → List Object
optional_arguments true sd display_controller = cfb ∷ []
optional_arguments display true json_adc_config_service = sdmmc_service ∷ []
optional_arguments display true json_sensors_config_service = sdmmc_service ∷ []
optional_arguments display true json_canbus_config_service = sdmmc_service ∷ []
optional_arguments display true canbus_configuration_manager = sdmmc_service ∷ []
optional_arguments display true sensors_configuration_manager = sdmmc_service ∷ []
optional_arguments display sd o = []

-- What must have been called before a call, on a board with or without a display and an SD card. A started service is initialized first; the server's
-- Start is the exception, which its own comment in main explains.
abbrev pub needs : Bool → Bool → Call → List Call
needs display sd (make o) = map make (arguments o) ++ map make (optional_arguments display sd o)
needs display sd (initialize http_server) =
    make system_configuration_manager
    ∷ make adc_configuration_manager
    ∷ make sensors_configuration_manager
    ∷ initialize sensors_processing_service
    ∷ make http_server
    ∷ []
needs display sd (initialize sensors_processing_service) =
    make sensors_processing_service ∷ setup_test_sensors ∷ []
needs display sd (initialize canbus_com_service) =
    make canbus_com_service ∷ setup_canbus_configuration ∷ []
needs display sd (initialize o) = make o ∷ []
needs display sd (start http_server) = make http_server ∷ []
needs display sd (start canbus_scheduler_service) =
    initialize canbus_scheduler_service ∷ setup_canbus_configuration ∷ []
needs display sd (start o) = initialize o ∷ []
needs display sd register_is_sd_card_present_handler = make sdmmc_service ∷ []
needs display sd initialize_wifi = []
needs display sd setup_canbus_configuration = make canbus_configuration_manager ∷ []
needs display sd get_channel_counts =
    initialize gpio ∷ initialize adc_manager ∷ make adc_configuration_manager ∷ []
needs display sd setup_test_sensors = make sensors_configuration_manager ∷ []

-- Every call of a trace, whose first element is the last call, came after all that it needs.
abbrev pub IsOrdered : Bool → Bool → List Call → Type 0
IsOrdered display sd [] = Unit
IsOrdered display sd (k ∷ calls) =
    All (λ j. was_called j calls ≡ true) (needs display sd k) × IsOrdered display sd calls
