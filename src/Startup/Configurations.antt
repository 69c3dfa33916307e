-- ===== src/Startup/Configurations.antt =====
-- app/src/main.cpp: the values that the Setup functions write. The types belong to the core module;
-- these records have the fields that main assigns, and what it leaves alone is not part of them.
use eerie_leap_rt.Common.{ℕ, Bool, List, Option, Eff, deref, returns, ◌>>=◌}

-- A decimal literal, mantissa / 10 ^ exponent.
pub record Decimal : Type 0 where
  pub mantissa : ℕ
  pub exponent : ℕ

-- `CanSignalConfiguration`; without a factor it keeps the default.
pub record CanSignal : Type 0 where
  pub start_bit : ℕ
  pub size_bits : ℕ
  pub name : List ℕ
  pub unit : List ℕ
  pub factor : Option Decimal

-- `CanMessageConfiguration`.
pub record CanMessage : Type 0 where
  pub frame_id : ℕ
  pub name : List ℕ
  pub message_size : ℕ
  pub send_interval_ms : Option ℕ
  pub signal_configurations : List CanSignal

-- `CanChannelConfiguration`; its type is CLASSICAL_CAN in every case.
pub record CanChannel : Type 0 where
  pub is_extended_id : Bool
  pub bus_channel : ℕ
  pub bitrate : ℕ
  pub message_configurations : List CanMessage

-- `CanbusConfiguration`, its map as a list of the entries by their keys.
pub record CanbusConfiguration : Type 0 where
  pub com_bus_channel : ℕ
  pub channel_configurations : List (ℕ × CanChannel)

-- `SetupSystemConfiguration`, which nothing calls: a new configuration is stored, and the answer of
-- `Update` is dropped.
unfoldable setup_system_configuration :
    {System Manager World : Type 0}
    → (Manager → System → World → Bool × World)
    → System
    → Option Manager
    → Eff World (Unit {0})
setup_system_configuration update system_configuration manager = do
  system_configuration_manager ← deref manager
  λ w. (returns tt, (update system_configuration_manager system_configuration w).1)
