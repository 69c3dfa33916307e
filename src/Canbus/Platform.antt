-- ===== src/Canbus/Platform.antt =====
-- What the CAN domain calls outside the repository: the configuration and bus services, the DBC
-- library, the sensor readings, the Lua interpreter and the work queue. `Config` is the state that
-- the getters of the configuration manager and of `CanbusService` read, `World` everything that
-- changes while the firmware runs.
use eerie_leap_rt.Common.{ℕ, Bool, Option, List, Outcome, Eff}

pub record Platform : Type 1 where
  pub World : Type 0
  pub Config : Type 0
  -- `CanMessageConfiguration` and what the code reads of it.
  pub Message : Type 0
  pub Script : Type 0
  pub frame_id : Message → ℕ
  pub send_interval_ms : Message → Option ℕ
  pub lua_script : Message → Option Script
  -- The configured channels with their messages, in the order of the map.
  pub channel_configurations : Config → Option (List (ℕ × List Message))
  -- `CanbusService`, a bus and its DBC file.
  pub Canbus : Type 0
  pub Channel : Type 0
  pub Dbc : Type 0
  pub DbcMessage : Type 0
  pub get_canbus : Config → ℕ → Option Canbus
  pub get_channel_configuration : Config → ℕ → Outcome (Option Channel)
  pub dbc : Channel → Option Dbc
  pub has_message : Dbc → ℕ → Bool
  pub get_message : Dbc → ℕ → Outcome (Option DbcMessage)
  pub is_valid : Canbus → World → Bool
  pub send_frame : Canbus → ℕ → List ℕ → Eff World (Unit {0})
  -- The readings, and the encoder, which asks for the value of each signal by its name's hash.
  pub Float : Type 0
  pub float_zero : Float
  pub try_get_reading_value : ℕ → World → Option Float
  pub encode_message : DbcMessage → (ℕ → Float) → Eff World (List ℕ)
  pub clear_readings : World → World
  -- `GlobalFunctionsRegistry`.
  pub register_get_sensor_value : Script → World → World
  pub register_update_sensor_value : Script → World → World
  -- The Lua state of a script, and the calls on it; all look at the top of its stack.
  pub LuaState : Type 0
  pub get_state : Script → World → Option LuaState
  pub lua_getglobal : LuaState → List ℕ → World → World
  pub lua_isfunction : LuaState → World → Bool
  pub lua_isstring : LuaState → World → Bool
  pub lua_pop : LuaState → World → World
  pub lua_pushinteger : LuaState → ℕ → World → World
  pub lua_pushlstring : LuaState → List ℕ → World → World
  -- `lua_pcall(state, 2, 1, 0)`, true for LUA_OK.
  pub lua_pcall : LuaState → World → Bool × World
  -- none for the null pointer; a number on the top becomes a string.
  pub lua_tolstring : LuaState → World → Option (List ℕ) × World
  -- The work queue.
  pub Handle : Type 0
  -- `WorkQueueThread::CreateTask`, of a task's interval, channel, message and bus.
  pub create_work_item : ℕ → ℕ → Message → Canbus → World → Handle × World
  pub schedule : Handle → World → World
  pub cancel : Handle → World → Bool × World
  pub sleep : ℕ → World → World

-- `CanbusTask`. The builder and the processors of a task are the scheduler's own.
pub record CanbusTask (p : Platform) : Type 0 where
  pub task_interval_ms : ℕ
  pub bus_channel : ℕ
  pub message_configuration : p.Message
  pub canbus : p.Canbus
