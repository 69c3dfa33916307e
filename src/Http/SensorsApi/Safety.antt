-- ===== src/Http/SensorsApi/Safety.antt =====
-- The statics over time: the size of the buffer, the pointers that the constructor fills, and what
-- a request meets before that.
use eerie_leap_rt.Common.{
  ℕ, ◌+◌, ◌≤◌, ◌≡◌, refl, ◌∙◌, ap, Option, some, List, [], ◌∷◌, arith, length, take, Outcome,
  returns, throws, faults, dec_le,
}
use eerie_leap_rt.Http.Collaborators.{Collaborators}
use eerie_leap_rt.Http.SensorsApi.Upload.{length-append_chunk, receive_fits, receive_overflows}
use eerie_leap_rt.Http.SensorsApi.{
  State, Statics, TransactionStatus, aborted, final, other, Method, http_get, http_post,
  unsupported, append_chunk, after_copy, receive, config_handler, finish_upload, send_config,
  update_sensors_config, render_config, statics_init, construct, buffer_or_new, length-zeroed,
  reset_cursor,
}

pub length-buffer_or_new : length (buffer_or_new []) ≡ 24576
unfolding buffer_or_new
length-buffer_or_new = length-zeroed 24576

buffer_or_new_idem : (b : List ℕ) → buffer_or_new (buffer_or_new b) ≡ buffer_or_new b
unfolding buffer_or_new
buffer_or_new_idem [] = rw (length-zeroed 24576)
buffer_or_new_idem (x ∷ b) = ground arith

module _ (c : Collaborators) where
  open c use {World, Manager, Service, Parser, Sensors, JsonConfig, new_parser}

  -- The cursor stays in a buffer of the given size, and the pointers are these.
  pub record IsReady (n : ℕ) (m : Manager) (v : Service) (a : Statics c) : Type 0 where
    pub sized : length a.post_buffer ≡ n
    pub within : a.cursor ≤ n
    pub parser_ready : a.json_parser ≡ some new_parser
    pub manager_ready : a.manager ≡ some m
    pub service_ready : a.service ≡ some v

  append_chunk-IsReady :
      (n : ℕ) (m : Manager) (v : Service) (chunk : List ℕ) (a : Statics c)
      → a.cursor + length chunk ≤ length a.post_buffer
      → IsReady n m v a
      → IsReady n m v (append_chunk c chunk a)
  unfolding append_chunk
  append_chunk-IsReady n m v chunk a h r = record {
    sized = length-append_chunk c chunk a h ∙ r.sized;
    within = omega (arith, r.sized);
    parser_ready = r.parser_ready;
    manager_ready = r.manager_ready;
    service_ready = r.service_ready;
  }

  finish_upload-IsReady :
      (n : ℕ) (m : Manager) (v : Service) (s : State c) (x : Outcome (Unit {0}) × World)
      → IsReady n m v s.self
      → IsReady n m v (finish_upload c s x).1.self
  unfolding finish_upload
  finish_upload-IsReady n m v s (returns _, w) r = ground arith
  finish_upload-IsReady n m v s (throws e, w) r = ground arith
  finish_upload-IsReady n m v s (faults, w) r = r

  after_copy-IsReady :
      (n : ℕ) (m : Manager) (v : Service) (status : TransactionStatus) (s : State c)
      → IsReady n m v s.self
      → IsReady n m v (after_copy c status s).1.self
  unfolding after_copy
  after_copy-IsReady n m v final s r =
      finish_upload-IsReady n m v s
        (update_sensors_config c s.self (take s.self.cursor s.self.post_buffer) s.world) r
  after_copy-IsReady n m v _ s r = r

  reset_cursor-IsReady :
      (n : ℕ) (m : Manager) (v : Service) (s : State c)
      → IsReady n m v s.self
      → IsReady n m v (reset_cursor c s).self
  reset_cursor-IsReady n m v s r = ground arith

  receive-IsReady :
      (n : ℕ) (m : Manager) (v : Service) (status : TransactionStatus) (chunk : List ℕ)
      (s : State c)
      → IsReady n m v s.self
      → IsReady n m v (receive c status chunk s).1.self
  receive-IsReady n m v status chunk s r =
      elim (dec_le (s.self.cursor + length chunk) (length s.self.post_buffer)) [
        | yes fits ↦ rw (receive_fits c status chunk s fits) (
            after_copy-IsReady n m v status (record s { self = append_chunk c chunk s.self })
              (append_chunk-IsReady n m v chunk s.self fits r))
        | no over ↦
            rw (receive_overflows c status chunk s (omega arith)) (reset_cursor-IsReady n m v s r)
      ]

  send_config-IsReady :
      (n : ℕ) (m : Manager) (v : Service) (s : State c) (x : Outcome (List ℕ) × World)
      → IsReady n m v s.self
      → IsReady n m v (send_config c s x).1.self
  unfolding send_config
  send_config-IsReady n m v s (returns body, w) r = ground arith
  send_config-IsReady n m v s (throws e, w) r = r
  send_config-IsReady n m v s (faults, w) r = r

  -- No request, of any method and status, whatever its outcome, moves the cursor out of the POST
  -- buffer, resizes the buffer or changes a pointer.
  pub config_handler-IsReady :
      (n : ℕ) (m : Manager) (v : Service) (method : Method) (status : TransactionStatus)
      (chunk : List ℕ) (s : State c)
      → IsReady n m v s.self
      → IsReady n m v (config_handler c method status chunk s).1.self
  unfolding config_handler
  config_handler-IsReady n m v http_get final chunk s r =
      send_config-IsReady n m v s (render_config c s.self s.world) r
  config_handler-IsReady n m v http_get aborted chunk s r = r
  config_handler-IsReady n m v http_get other chunk s r = r
  config_handler-IsReady n m v http_post aborted chunk s r = reset_cursor-IsReady n m v s r
  config_handler-IsReady n m v http_post final chunk s r = receive-IsReady n m v final chunk s r
  config_handler-IsReady n m v http_post other chunk s r = receive-IsReady n m v other chunk s r
  config_handler-IsReady n m v unsupported status chunk s r = r

  -- The first controller gives the buffer its 24576 bytes and fills the pointers; a later one,
  -- whatever it is given, changes nothing.
  pub construct_once :
      (m : Manager) (v : Service) (m' : Option Manager) (v' : Option Service)
      → let first = construct c (some m) (some v) (statics_init c) in
        IsReady 24576 m v first × (construct c m' v' first ≡ first)
  unfolding construct statics_init
  construct_once m v m' v' = (
    record {
      sized = length-buffer_or_new;
      within = omega arith;
      parser_ready = refl;
      manager_ready = refl;
      service_ready = refl;
    },
    ap (λ b. record (construct c (some m) (some v) (statics_init c)) { post_buffer = b })
        (buffer_or_new_idem []),
  )
