-- ===== src/Http/Server.antt =====
-- app/src/domain/http_domain/services/http_server.{h,cpp}: the server object, which hands the
-- managers on to the statics of the configuration endpoint.
use eerie_leap_rt.Common.{ℤ, ◌≡◌, refl, Option, none, some, ◌∙◌, ap}
use eerie_leap_rt.Http.Collaborators.{Collaborators}
use eerie_leap_rt.Http.SensorsApi.{Statics, statics_init, construct}
use eerie_leap_rt.Http.SensorsApi.Safety.{construct_once}

-- The members, with the statics that they share with the handlers. `System` and `Adc` are the
-- managers that the server only keeps.
pub record HttpServer (c : Collaborators) (System Adc : Type 0) : Type 0 where
  pub system_configuration_manager : Option System
  pub adc_configuration_manager : Option Adc
  pub sensors_configuration_manager : Option c.Manager
  pub sensors_processing_service : Option c.Service
  pub handlers : Statics c

module _ (c : Collaborators) (System Adc : Type 0) where
  open c use {Manager, Service}

  unfoldable pub server_init : HttpServer c System Adc
  server_init = record {
    system_configuration_manager = none;
    adc_configuration_manager = none;
    sensors_configuration_manager = none;
    sensors_processing_service = none;
    handlers = statics_init c;
  }

  -- `HttpServer::Initialize`.
  unfoldable pub initialize :
      Option System
      → Option Adc
      → Option Manager
      → Option Service
      → HttpServer c System Adc
      → HttpServer c System Adc
  initialize system adc manager service h = record {
    system_configuration_manager = system;
    adc_configuration_manager = adc;
    sensors_configuration_manager = manager;
    sensors_processing_service = service;
    handlers = construct c manager service h.handlers;
  }

  -- `HttpServer::Start`: the result of `http_server_start` is only logged.
  unfoldable pub start : {World : Type 0} → (World → ℤ × World) → World → World
  start http_server_start w = (http_server_start w).1

  -- A second `Initialize` replaces the server's own managers, but the handlers go on with the
  -- managers of the first one.
  pub initialize_again :
      (m m' : Manager) (v v' : Service) (sys sys' : Option System) (adc adc' : Option Adc)
      → let first = initialize sys adc (some m) (some v) server_init in
        let second = initialize sys' adc' (some m') (some v') first in
        (second.sensors_configuration_manager ≡ some m')
        × (second.handlers ≡ first.handlers)
        × (second.handlers.manager ≡ some m)
  unfolding initialize server_init
  initialize_again m m' v v' sys sys' adc adc' =
      let (ready, same) = construct_once c m v (some m') (some v') in
      (refl, same, ap (λ (a : Statics c). a.manager) same ∙ ready.manager_ready)
