-- ===== src/Http/Requests/Reached.antt =====
-- The statics of the configuration endpoint in every state that the start-up and the requests reach.
use eerie_leap_rt.Common.{
  ℕ, ◌≡◌, refl, ap, sym, ◌∙◌, subst, none, some, List, [], ◌∷◌, Outcome, returns, throws, faults,
  Ends, length, take, arith,
}
use eerie_leap_rt.Http.Collaborators.{Collaborators}
use eerie_leap_rt.Http.SensorsApi.{
  Statics, State, Method, http_get, http_post, unsupported, TransactionStatus, aborted, final,
  other, statics_init, construct, buffer_or_new, config_handler, send_config, render_config,
  receive, after_copy, finish_upload, update_sensors_config, append_chunk,
}
use eerie_leap_rt.Http.SensorsApi.Upload.{receive_fits, receive_overflows}
use eerie_leap_rt.Http.SensorsApi.Safety.{IsReady, config_handler-IsReady, length-buffer_or_new}
use eerie_leap_rt.Http.SensorsApi.Faults.{IsSafe, config_handler-Ends}
use eerie_leap_rt.Http.Requests.{
  Phase, stopped, serving, ready, System, Step, start, initialize, request, elapse, Reach, here,
  next,
}

module _ (c : Collaborators) where
  -- Before the first controller: no buffer and no pointers.
  record IsEmpty (a : Statics c) : Type 0 where
    no_buffer : a.post_buffer ≡ []
    at_start : a.cursor ≡ 0
    no_parser : a.json_parser ≡ none
    no_manager : a.manager ≡ none
    no_service : a.service ≡ none

  send_config-IsEmpty :
      (s : State c) (x : Outcome (List ℕ) × c.World)
      → IsEmpty s.self
      → IsEmpty (send_config c s x).1.self
  unfolding send_config
  send_config-IsEmpty s (returns body, w) e = ground arith
  send_config-IsEmpty s (throws error, w) e = e
  send_config-IsEmpty s (faults, w) e = e

  finish_upload-IsEmpty :
      (s : State c) (x : Outcome (Unit {0}) × c.World)
      → IsEmpty s.self
      → IsEmpty (finish_upload c s x).1.self
  unfolding finish_upload
  finish_upload-IsEmpty s (returns u, w) e = ground arith
  finish_upload-IsEmpty s (throws error, w) e = ground arith
  finish_upload-IsEmpty s (faults, w) e = e

  after_copy-IsEmpty :
      (status : TransactionStatus) (s : State c)
      → IsEmpty s.self
      → IsEmpty (after_copy c status s).1.self
  unfolding after_copy
  after_copy-IsEmpty final s e =
      finish_upload-IsEmpty s
        (update_sensors_config c s.self (take s.self.cursor s.self.post_buffer) s.world) e
  after_copy-IsEmpty aborted s e = e
  after_copy-IsEmpty other s e = e

  append_nothing-IsEmpty : (a : Statics c) → IsEmpty a → IsEmpty (append_chunk c [] a)
  unfolding append_chunk
  append_nothing-IsEmpty a e = ground arith

  receive-IsEmpty :
      (status : TransactionStatus) (chunk : List ℕ) (s : State c)
      → IsEmpty s.self
      → IsEmpty (receive c status chunk s).1.self
  receive-IsEmpty status [] s e =
      rw (receive_fits c status [] s (omega (arith, ap length e.no_buffer, e.at_start)))
        (after_copy-IsEmpty status _ (append_nothing-IsEmpty s.self e))
  receive-IsEmpty status (x ∷ xs) s e =
      rw (receive_overflows c status (x ∷ xs) s (omega (arith, ap length e.no_buffer))) (record {
        no_buffer = e.no_buffer;
        at_start = refl;
        no_parser = e.no_parser;
        no_manager = e.no_manager;
        no_service = e.no_service;
      })

  config_handler-IsEmpty :
      (method : Method) (status : TransactionStatus) (chunk : List ℕ) (s : State c)
      → IsEmpty s.self
      → IsEmpty (config_handler c method status chunk s).1.self
  unfolding config_handler
  config_handler-IsEmpty http_get final chunk s e =
      send_config-IsEmpty s (render_config c s.self s.world) e
  config_handler-IsEmpty http_get aborted chunk s e = e
  config_handler-IsEmpty http_get other chunk s e = e
  config_handler-IsEmpty http_post aborted chunk s e = ground arith
  config_handler-IsEmpty http_post final chunk s e = receive-IsEmpty final chunk s e
  config_handler-IsEmpty http_post other chunk s e = receive-IsEmpty other chunk s e
  config_handler-IsEmpty unsupported status chunk s e = e

  construct-IsReady :
      (m : c.Manager) (v : c.Service) (a : Statics c)
      → IsEmpty a
      → IsReady c 24576 m v (construct c (some m) (some v) a)
  unfolding construct
  construct-IsReady m v a e = record {
    sized = ap (λ b. length (buffer_or_new b)) e.no_buffer ∙ length-buffer_or_new;
    within = omega (arith, e.at_start);
    parser_ready = rw e.no_parser refl;
    manager_ready = rw e.no_manager refl;
    service_ready = rw e.no_service refl;
  }

  module _ (m : c.Manager) (v : c.Service) where
    -- What holds of the statics in each phase.
    abbrev InPhase : Phase → Statics c → Type 0
    InPhase stopped a = IsEmpty a
    InPhase serving a = IsEmpty a
    InPhase ready a = IsReady c 24576 m v a

    InPhase-request :
        (phase : Phase) (method : Method) (status : TransactionStatus) (chunk : List ℕ)
        (s : State c)
        → InPhase phase s.self
        → InPhase phase (config_handler c method status chunk s).1.self
    InPhase-request stopped method status chunk s h = config_handler-IsEmpty method status chunk s h
    InPhase-request serving method status chunk s h = config_handler-IsEmpty method status chunk s h
    InPhase-request ready method status chunk s h =
        config_handler-IsReady c 24576 m v method status chunk s h

    abbrev IsConsistent : System c → Type 0
    IsConsistent s = InPhase s.phase s.state.self

    Step-IsConsistent : (s t : System c) → Step c m v s t → IsConsistent s → IsConsistent t
    Step-IsConsistent s t (start p e) h =
        subst IsConsistent (sym e) (subst (λ k. InPhase k s.state.self) p h)
    Step-IsConsistent s t (initialize p e) h =
        subst IsConsistent (sym e)
          (construct-IsReady m v s.state.self (subst (λ k. InPhase k s.state.self) p h))
    Step-IsConsistent s t (request method status chunk p ends e) h =
        subst IsConsistent (sym e) (InPhase-request s.phase method status chunk s.state h)
    Step-IsConsistent s t (elapse response w e) h = subst IsConsistent (sym e) h

    Reach-IsConsistent : {s t : System c} → IsConsistent s → Reach c m v s t → IsConsistent t
    Reach-IsConsistent h here = h
    Reach-IsConsistent h (next {t} {u} r step) = Step-IsConsistent t u step (Reach-IsConsistent h r)

    -- However requests interleave with the start-up, from the statics of a program that begins: once
    -- main is behind `http_server.Initialize`, the handlers have their pointers and their buffer of
    -- 24576 bytes, and no request of any kind runs into undefined behaviour unless a collaborator
    -- does.
    pub Reach-Ends :
        (safe : IsSafe c) (s t : System c) (method : Method) (status : TransactionStatus)
        (chunk : List ℕ)
        → s.phase ≡ stopped
        → s.state.self ≡ statics_init c
        → Reach c m v s t
        → t.phase ≡ ready
        → IsReady c 24576 m v t.state.self × Ends (config_handler c method status chunk t.state).0
    unfolding statics_init
    Reach-Ends safe s t method status chunk p e r q =
        let initial : IsEmpty s.state.self = subst IsEmpty (sym e) (record {
          no_buffer = refl;
          at_start = refl;
          no_parser = refl;
          no_manager = refl;
          no_service = refl;
        }) in
        let consistent =
          Reach-IsConsistent (subst (λ k. InPhase k s.state.self) (sym p) initial) r in
        let is_ready = subst (λ k. InPhase k t.state.self) q consistent in
        (is_ready, config_handler-Ends c safe 24576 m v method status chunk t.state is_ready)
