-- ===== src/Http/Collaborators.antt =====
-- What the HTTP domain calls outside the repository: the JSON serializer, the sensors parser, the
-- configuration manager and the processing service of the core module. `World` is their state; a
-- call may return, throw or fault.
use eerie_leap_rt.Common.{ℕ, Bool, Option, List, Eff}

pub record Collaborators : Type 1 where
  pub World : Type 0
  pub Manager : Type 0
  pub Service : Type 0
  pub Parser : Type 0
  pub Sensors : Type 0
  pub JsonConfig : Type 0
  -- `SensorsJsonParser(nullptr)`, and its two directions with the channel counts.
  pub new_parser : Parser
  pub serialize : Parser → Sensors → ℕ → ℕ → Eff World (Option JsonConfig)
  pub deserialize : Parser → JsonConfig → ℕ → ℕ → Eff World Sensors
  -- `JsonSerializer<JsonSensorsConfig>`.
  pub print : JsonConfig → Eff World (List ℕ)
  pub parse : List ℕ → Eff World (Option JsonConfig)
  -- `SensorsConfigurationManager`.
  pub get : Manager → Eff World (Option Sensors)
  pub update : Manager → Sensors → Eff World Bool
  -- `SensorsProcessingService`.
  pub stop : Service → Eff World (Unit {0})
  pub start : Service → Eff World (Unit {0})
