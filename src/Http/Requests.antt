-- ===== src/Http/Requests.antt =====
-- app/src/main.cpp and app/src/domain/http_domain: the server answers requests from its Start on,
-- while main goes on to Initialize. The steps of the two interleave in any order that this leaves.
pub mod Reached
mod Tests
use eerie_leap_rt.Common.{ℕ, ◌≡◌, ◌≢◌, Option, some, List, Outcome, Ends}
use eerie_leap_rt.Http.Collaborators.{Collaborators}
use eerie_leap_rt.Http.SensorsApi.{
  State, Method, TransactionStatus, ReturnCode, Response, statics_init, construct, config_handler,
}

-- How far main is: before `http_server.Start()`, between it and `http_server.Initialize(...)`, or
-- behind that.
pub data Phase : Type 0 where
  stopped serving ready : Phase

pub record System (c : Collaborators) : Type 0 where
  pub phase : Phase
  pub state : State c

module _ (c : Collaborators) (m : c.Manager) (v : c.Service) where
  -- A request is one call of the handler that ends, with a reply of its own that the server has
  -- prepared. Between the steps other threads may change the world.
  pub data Step (s t : System c) : Type 0 where
    start : s.phase ≡ stopped → t ≡ record s { phase = serving } → Step s t
    initialize :
        s.phase ≡ serving
        → t ≡ record {
          phase = ready;
          state = record s.state { self = construct c (some m) (some v) s.state.self };
        }
        → Step s t
    request :
        (method : Method) (status : TransactionStatus) (chunk : List ℕ)
        → s.phase ≢ stopped
        → Ends (config_handler c method status chunk s.state).0
        → t ≡ record s { state = (config_handler c method status chunk s.state).1 }
        → Step s t
    elapse :
        (response : Response) (w : c.World)
        → t ≡ record s { state = record s.state { response = response; world = w } }
        → Step s t

  pub data Reach (s : System c) : System c → Type 0 where
    here : Reach s s
    next : {t u : System c} → Reach s t → Step t u → Reach s u
