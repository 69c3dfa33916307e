-- ===== src/Http/SensorsApi/Apply.antt =====
-- `UpdateSensorsConfig`: what a configuration goes through before it is reported as applied.
use eerie_leap_rt.Common.{
  ℕ, ◌≡◌, ◌↔◌, true, some, List, returns, and_then-eq-returns, deref-eq-returns, require-eq-returns,
}
use eerie_leap_rt.Http.Collaborators.{Collaborators}
use eerie_leap_rt.Http.SensorsApi.{Statics, update_sensors_config}

module _ (c : Collaborators) where
  open c use {World, Manager, Service, Parser, Sensors, JsonConfig}

  -- The body was parsed, its sensors were accepted, and then the service was stopped and started,
  -- each call in the world that the one before it left.
  pub record Applied (a : Statics c) (body : List ℕ) (w w' : World) : Type 0 where
    pub config : JsonConfig
    pub sensors : Sensors
    pub parser : Parser
    pub manager : Manager
    pub service : Service
    pub w1 : World
    pub w2 : World
    pub w3 : World
    pub w4 : World
    pub has_parser : a.json_parser ≡ some parser
    pub has_manager : a.manager ≡ some manager
    pub has_service : a.service ≡ some service
    pub parsed : c.parse body w ≡ (returns (some config), w1)
    pub deserialized : c.deserialize parser config 16 16 w1 ≡ (returns sensors, w2)
    pub accepted : c.update manager sensors w2 ≡ (returns true, w3)
    pub stopped : c.stop service w3 ≡ (returns tt, w4)
    pub started : c.start service w4 ≡ (returns tt, w')

  -- `UpdateSensorsConfig` returns exactly when the body was parsed to a configuration, the manager
  -- accepted the sensors read from it, and the processing service was then stopped and started, in
  -- this order and each from the state that the one before it left.
  pub update_sensors_config_iff :
      (a : Statics c) (body : List ℕ) (w w' : World)
      → (update_sensors_config c a body w ≡ (returns tt, w')) ↔ Applied a body w w'
  unfolding update_sensors_config
  update_sensors_config_iff a body w w' = (there, back)
    where
      there : update_sensors_config c a body w ≡ (returns tt, w') → Applied a body w w'
      there h =
          let (p, w1, e1, h1) = and_then-eq-returns (c.parse body w) _ tt w' h in
          let (config, e2, h2) = deref-eq-returns p _ tt w1 w' h1 in
          let (parser, e3, h3) = deref-eq-returns a.json_parser _ tt w1 w' h2 in
          let (sensors, w2, e4, h4) =
            and_then-eq-returns (c.deserialize parser config 16 16 w1) _ tt w' h3 in
          let (manager, e5, h5) = deref-eq-returns a.manager _ tt w2 w' h4 in
          let (updated, w3, e6, h6) =
            and_then-eq-returns (c.update manager sensors w2) _ tt w' h5 in
          let (e7, h7) = require-eq-returns updated _ _ tt w3 w' h6 in
          let (service, e8, h8) = deref-eq-returns a.service _ tt w3 w' h7 in
          let (done, w4, e9, h9) = and_then-eq-returns (c.stop service w3) _ tt w' h8 in
          record {
            config = config;
            sensors = sensors;
            parser = parser;
            manager = manager;
            service = service;
            w1 = w1;
            w2 = w2;
            w3 = w3;
            w4 = w4;
            has_parser = e3;
            has_manager = e5;
            has_service = e8;
            parsed = rw e2 at e1;
            deserialized = e4;
            accepted = rw e7 at e6;
            stopped = e9;
            started = h9;
          }

      back : Applied a body w w' → update_sensors_config c a body w ≡ (returns tt, w')
      back r = rw (
        r.parsed, r.has_parser, r.deserialized, r.has_manager, r.accepted, r.has_service, r.stopped,
        r.started,
      )
