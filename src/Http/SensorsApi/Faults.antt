-- ===== src/Http/SensorsApi/Faults.antt =====
-- When a request can run into undefined behaviour: only through a collaborator, or before the
-- controller has its pointers.
use eerie_leap_rt.Common.{
  ℕ, ◌+◌, ◌≡◌, refl, ap, Bool, true, false, Option, none, some, List, ◌∷◌, arith, length, take,
  Outcome, returns, throws, faults, Ends, and_then, deref, and_then-Ends, require, dec_le, Eff,
  ◌>>=◌, ◌>>◌,
}
use eerie_leap_rt.Http.Collaborators.{Collaborators}
use eerie_leap_rt.Http.SensorsApi.Upload.{receive_fits, receive_overflows}
use eerie_leap_rt.Http.SensorsApi.Safety.{IsReady}
use eerie_leap_rt.Http.SensorsApi.{
  State, Statics, enomem, TransactionStatus, aborted, final, other, Method, http_get, http_post,
  unsupported, append_chunk, after_copy, receive, config_handler, finish_upload, send_config,
  update_sensors_config, render_config, statics_init,
}

-- The call ended, and a pointer that it returned is not null.
abbrev pub EndsNonnull {ℓ} : {A : Type ℓ} → Outcome (Option A) → Type 0
EndsNonnull (returns none) = ⊥
EndsNonnull (returns (some a)) = Unit
EndsNonnull (throws e) = Unit
EndsNonnull faults = ⊥

and_then-deref-Ends {ℓ κ μ} :
    {S : Type ℓ} {A : Type κ} {B : Type μ} (r : Outcome (Option A) × S) (f : A → Eff S B)
    → EndsNonnull r.0
    → ((a : A) (s : S) → Ends (f a s).0)
    → Ends (and_then r (λ p. deref p >>= f)).0
and_then-deref-Ends (returns none, s) f h k = h
and_then-deref-Ends (returns (some a), s) f h k = k a s
and_then-deref-Ends (throws e, s) f h k = tt
and_then-deref-Ends (faults, s) f h k = h

require-Ends {ℓ κ} :
    {S : Type ℓ} {B : Type κ} (b : Bool) (e : List ℕ) (f : Eff S B) (s : S)
    → Ends (f s).0
    → Ends ((require b e >> f) s).0
require-Ends true e f s h = h
require-Ends false e f s h = tt

-- What the code relies on in its collaborators: they return or throw, and return no null pointer.
pub record IsSafe (c : Collaborators) : Type 0 where
  pub serialize_ends :
      (p : c.Parser) (s : c.Sensors) (w : c.World) → EndsNonnull (c.serialize p s 16 16 w).0
  pub deserialize_ends :
      (p : c.Parser) (j : c.JsonConfig) (w : c.World) → Ends (c.deserialize p j 16 16 w).0
  pub print_ends : (j : c.JsonConfig) (w : c.World) → Ends (c.print j w).0
  pub parse_ends : (b : List ℕ) (w : c.World) → EndsNonnull (c.parse b w).0
  pub get_ends : (m : c.Manager) (w : c.World) → EndsNonnull (c.get m w).0
  pub update_ends : (m : c.Manager) (s : c.Sensors) (w : c.World) → Ends (c.update m s w).0
  pub stop_ends : (v : c.Service) (w : c.World) → Ends (c.stop v w).0
  pub start_ends : (v : c.Service) (w : c.World) → Ends (c.start v w).0

module _ (c : Collaborators) where
  open c use {World, Manager, Service, Parser, Sensors, JsonConfig, new_parser}

  pub update-Ends :
      (safe : IsSafe c) (m : Manager) (v : Service) (a : Statics c) (body : List ℕ) (w : World)
      → a.json_parser ≡ some new_parser
      → a.manager ≡ some m
      → a.service ≡ some v
      → Ends (update_sensors_config c a body w).0
  unfolding update_sensors_config
  update-Ends safe m v a body w hp hm hv =
      rw (hp, hm, hv)
        (and_then-deref-Ends (c.parse body w) _ (safe.parse_ends body w) λ config w1.
          and_then-Ends (c.deserialize new_parser config 16 16 w1) _
            (safe.deserialize_ends new_parser config w1)
            λ sensors _ w2.
              and_then-Ends (c.update m sensors w2) _ (safe.update_ends m sensors w2)
                λ updated _ w3. require-Ends updated _ _ w3 (
                  and_then-Ends (c.stop v w3) _ (safe.stop_ends v w3)
                    (λ _ _ w4. safe.start_ends v w4)))

  render-Ends :
      (safe : IsSafe c) (m : Manager) (a : Statics c) (w : World)
      → a.json_parser ≡ some new_parser
      → a.manager ≡ some m
      → Ends (render_config c a w).0
  unfolding render_config
  render-Ends safe m a w hp hm =
      rw (hp, hm)
        (and_then-deref-Ends (c.get m w) _ (safe.get_ends m w) λ sensors w1.
          and_then-deref-Ends (c.serialize new_parser sensors 16 16 w1) _
            (safe.serialize_ends new_parser sensors w1) (λ config w2. safe.print_ends config w2))

  finish_upload-Ends :
      (s : State c) (x : Outcome (Unit {0}) × World) → Ends x.0 → Ends (finish_upload c s x).0
  unfolding finish_upload
  finish_upload-Ends s (returns _, w) h = tt
  finish_upload-Ends s (throws e, w) h = tt
  finish_upload-Ends s (faults, w) h = h

  send_config-Ends :
      (s : State c) (x : Outcome (List ℕ) × World) → Ends x.0 → Ends (send_config c s x).0
  unfolding send_config
  send_config-Ends s (returns _, w) h = tt
  send_config-Ends s (throws e, w) h = tt
  send_config-Ends s (faults, w) h = h

  after_copy-Ends :
      (safe : IsSafe c) (m : Manager) (v : Service) (status : TransactionStatus) (s : State c)
      → s.self.json_parser ≡ some new_parser
      → s.self.manager ≡ some m
      → s.self.service ≡ some v
      → Ends (after_copy c status s).0
  unfolding after_copy
  after_copy-Ends safe m v final s hp hm hv =
      let body = take s.self.cursor s.self.post_buffer in
      finish_upload-Ends s (update_sensors_config c s.self body s.world)
        (update-Ends safe m v s.self body s.world hp hm hv)
  after_copy-Ends safe m v _ s hp hm hv = tt

  receive-Ends :
      (safe : IsSafe c) (n : ℕ) (m : Manager) (v : Service) (status : TransactionStatus)
      (chunk : List ℕ) (s : State c)
      → IsReady c n m v s.self
      → Ends (receive c status chunk s).0
  unfolding append_chunk
  receive-Ends safe n m v status chunk s r =
      elim (dec_le (s.self.cursor + length chunk) (length s.self.post_buffer)) [
        | yes fits ↦ rw (receive_fits c status chunk s fits) (
            after_copy-Ends safe m v status (record s { self = append_chunk c chunk s.self })
              r.parser_ready r.manager_ready r.service_ready)
        | no over ↦ rw (receive_overflows c status chunk s (omega arith)) tt
      ]

  -- Once a controller was constructed, no request of any kind runs into undefined behaviour unless
  -- a collaborator does.
  pub config_handler-Ends :
      (safe : IsSafe c) (n : ℕ) (m : Manager) (v : Service) (method : Method)
      (status : TransactionStatus) (chunk : List ℕ) (s : State c)
      → IsReady c n m v s.self
      → Ends (config_handler c method status chunk s).0
  unfolding config_handler
  config_handler-Ends safe n m v http_get final chunk s r =
      send_config-Ends s (render_config c s.self s.world)
        (render-Ends safe m s.self s.world r.parser_ready r.manager_ready)
  config_handler-Ends safe n m v http_get aborted chunk s r = tt
  config_handler-Ends safe n m v http_get other chunk s r = tt
  config_handler-Ends safe n m v http_post aborted chunk s r = tt
  config_handler-Ends safe n m v http_post final chunk s r = receive-Ends safe n m v final chunk s r
  config_handler-Ends safe n m v http_post other chunk s r = receive-Ends safe n m v other chunk s r
  config_handler-Ends safe n m v unsupported status chunk s r = tt

  -- Before the first controller, the end of any GET request reads a null pointer, and any POST
  -- request with data is refused by -ENOMEM.
  pub config_handler_early :
      (chunk : List ℕ) (b : ℕ) (bs : List ℕ) (s : State c)
      → s.self ≡ statics_init c
      → ((config_handler c http_get final chunk s).0 ≡ faults)
        × ((config_handler c http_post final (b ∷ bs) s).0 ≡ returns enomem)
        × ((config_handler c http_post other (b ∷ bs) s).0 ≡ returns enomem)
  unfolding config_handler render_config statics_init
  config_handler_early chunk b bs s e = (
    rw e refl,
    ap (λ x. x.0) (receive_overflows c final (b ∷ bs) s (rw e (omega arith))),
    ap (λ x. x.0) (receive_overflows c other (b ∷ bs) s (rw e (omega arith))),
  )
