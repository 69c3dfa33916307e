-- ===== src/Startup/Steps.antt =====
-- app/src/main.cpp, main: the calls of its parts on the objects of other modules, in their order.
use eerie_leap_rt.Common.{Bool, true, false, List, [], ◌∷◌}
use eerie_leap_rt.Startup.Calls.{
  sdmmc_service, http_server, rtc_provider, boot_elapsed_time_provider, time_service,
  guid_generator, cbor_system_config_service, cbor_adc_config_service, cbor_sensors_config_service,
  cbor_canbus_config_service, json_adc_config_service, json_sensors_config_service,
  json_canbus_config_service, adc_manager, adc_configuration_manager, gpio,
  system_configuration_manager, canbus_configuration_manager, sensors_configuration_manager,
  canbus_service, canbus_com_service, sensor_readings_frame, cbor_logging_config_service,
  json_logging_config_service, logging_configuration_manager, log_writer_service,
  logging_controller, isr_sensor_reader_factory, sensor_reader_factory, sensors_processing_service,
  calibration_service, canbus_scheduler_service, Call, make, initialize, start,
  register_is_sd_card_present_handler, initialize_wifi, setup_canbus_configuration,
  get_channel_counts, setup_test_sensors,
}

abbrev pub sd_calls : Bool → List Call
sd_calls false = []
sd_calls true =
    make sdmmc_service ∷ register_is_sd_card_present_handler ∷ initialize sdmmc_service ∷ []

abbrev pub wifi_calls : Bool → List Call
wifi_calls false = []
wifi_calls true = initialize_wifi ∷ []

abbrev pub server_calls : Bool → List Call
server_calls false = []
server_calls true = make http_server ∷ start http_server ∷ []

-- From the time service to the sensor readings.
abbrev pub core_calls : List Call
core_calls =
    make rtc_provider
    ∷ make boot_elapsed_time_provider
    ∷ make time_service
    ∷ initialize time_service
    ∷ make guid_generator
    ∷ make cbor_system_config_service
    ∷ make cbor_adc_config_service
    ∷ make cbor_sensors_config_service
    ∷ make cbor_canbus_config_service
    ∷ make json_adc_config_service
    ∷ make json_sensors_config_service
    ∷ make json_canbus_config_service
    ∷ make adc_manager
    ∷ initialize adc_manager
    ∷ make adc_configuration_manager
    ∷ make gpio
    ∷ initialize gpio
    ∷ make system_configuration_manager
    ∷ make canbus_configuration_manager
    ∷ setup_canbus_configuration
    ∷ get_channel_counts
    ∷ make sensors_configuration_manager
    ∷ make canbus_service
    ∷ make canbus_com_service
    ∷ initialize canbus_com_service
    ∷ start canbus_com_service
    ∷ setup_test_sensors
    ∷ make sensor_readings_frame
    ∷ []

abbrev pub logging_calls : Bool → List Call
logging_calls false = []
logging_calls true =
    make cbor_logging_config_service
    ∷ make json_logging_config_service
    ∷ make logging_configuration_manager
    ∷ make log_writer_service
    ∷ initialize log_writer_service
    ∷ make logging_controller
    ∷ []

abbrev pub sensor_calls : List Call
sensor_calls =
    make isr_sensor_reader_factory
    ∷ make sensor_reader_factory
    ∷ make sensors_processing_service
    ∷ initialize sensors_processing_service
    ∷ make calibration_service
    ∷ initialize calibration_service
    ∷ make canbus_scheduler_service
    ∷ []
