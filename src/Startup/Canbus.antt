-- ===== src/Startup/Canbus.antt =====
-- app/src/main.cpp, SetupCanbusConfiguration.
pub mod Tasks
use eerie_leap_rt.Common.{
  ℕ, zero, suc, ◌+◌, Bool, false, List, [], ◌∷◌, ◌++◌, Option, none, some, codes,
}
use eerie_leap_rt.DeviceTree.Devices.{emplace}
use eerie_leap_rt.Common.Texts.{to_string}
use eerie_leap_rt.Startup.Configurations.{CanSignal, CanMessage, CanChannel, CanbusConfiguration}

-- The body of the loop over the messages that are sent.
unfoldable pub sent_message : ℕ → CanMessage
unfolding to_string
sent_message i = record {
  frame_id = 100 + i;
  name = codes "EL_FRAME_" ++ to_string i;
  message_size = 8;
  send_interval_ms = some 20;
  signal_configurations =
      record {
        start_bit = 0;
        size_bits = 16;
        name = codes "sensor_" ++ to_string i;
        unit = codes "km/h";
        factor = none;
      }
      ∷ [];
}

unfoldable pub sent_messages : ℕ → ℕ → List CanMessage
unfolding sent_message
sent_messages zero i = []
sent_messages (suc messages) i = sent_message i ∷ sent_messages messages (suc i)

unfoldable pub channel_0 : CanChannel
unfolding sent_messages
channel_0 = record {
  is_extended_id = false;
  bus_channel = 0;
  bitrate = 1000000;
  message_configurations = sent_messages 3 0;
}

-- The message that is received.
unfoldable pub received_message : CanMessage
received_message = record {
  frame_id = 790;
  name = codes "EL_FRAME_1_0";
  message_size = 8;
  send_interval_ms = none;
  signal_configurations =
      record {
        start_bit = 16;
        size_bits = 16;
        name = codes "RPM";
        unit = codes "RPM";
        factor = some (record { mantissa = 156; exponent = 3 });
      }
      ∷ [];
}

unfoldable pub channel_1 : CanChannel
unfolding received_message
channel_1 = record {
  is_extended_id = false;
  bus_channel = 1;
  bitrate = 1000000;
  message_configurations = received_message ∷ [];
}

-- What `SetupCanbusConfiguration` hands to `Update`.
unfoldable pub setup_canbus_configuration : CanbusConfiguration
unfolding channel_0 channel_1 emplace
setup_canbus_configuration = record {
  com_bus_channel = 0;
  channel_configurations =
      emplace channel_1.bus_channel channel_1 (emplace channel_0.bus_channel channel_0 []);
}
