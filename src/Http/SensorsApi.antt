-- ===== src/Http/SensorsApi.antt =====
-- app/src/domain/http_domain/controllers/api/sensors_api_controller.{h,cpp}: the handlers of
-- `/api/sensors/config`, over the controller's static members.
pub mod Upload
pub mod Apply
pub mod Safety
pub mod Faults
pub mod Reply
pub mod RoundTrip
pub mod Attempts
pub mod Store
pub mod Current
use eerie_leap_rt.Common.{
  ℕ, ◌+◌, ◌≡◌, Bool, true, false, Option, none, some, List, [], ◌++◌, length, take, drop, replicate,
  length-replicate, ltb, if◌then◌else◌, codes, Outcome, returns, throws, faults, Eff, pure, throw,
  and_then, ◌>>=◌, ◌>>◌, deref, require,
}
use eerie_leap_rt.Http.Collaborators.{Collaborators}

-- `http_transaction_status`; `other` is every value that the code does not name.
pub data TransactionStatus : Type 0 where
  aborted final other : TransactionStatus

pub data Method : Type 0 where
  http_get http_post unsupported : Method

pub data ReturnCode : Type 0 where
  ok enomem einval : ReturnCode

-- `http_response_ctx`, with `body` and `body_len` as one list of bytes.
pub record Response : Type 0 where
  pub status : ℕ
  pub body : List ℕ
  pub final_chunk : Bool

abbrev pub http_internal_server_error : ℕ
http_internal_server_error = 500

abbrev pub sensors_config_post_buffer_size : ℕ
sensors_config_post_buffer_size = 24576

abbrev pub error_prefix : List ℕ
error_prefix = codes "Failed to parse JSON: "

-- A vector of zero bytes, shut so that its 24576 elements are never written out.
pub zeroed : ℕ → List ℕ
zeroed n = replicate n 0

pub length-zeroed : (n : ℕ) → length (zeroed n) ≡ n
unfolding zeroed
length-zeroed n = length-replicate n 0

-- `if(buffer.empty()) buffer.resize(size);`
unfoldable pub buffer_or_new : List ℕ → List ℕ
buffer_or_new buffer =
    if ltb 0 (length buffer) then buffer else zeroed sensors_config_post_buffer_size

-- `if(!p) p = v;`
keep_or {ℓ} : {A : Type ℓ} → Option A → Option A → Option A
keep_or none v = v
keep_or (some a) v = some a

-- The static members, with the static locals of the POST handler.
pub record Statics (c : Collaborators) : Type 0 where
  pub post_buffer : List ℕ
  pub get_buffer : List ℕ
  pub json_parser : Option c.Parser
  pub manager : Option c.Manager
  pub service : Option c.Service
  pub cursor : ℕ
  pub error_msg : List ℕ

pub record State (c : Collaborators) : Type 0 where
  pub self : Statics c
  pub response : Response
  pub world : c.World

module _ (c : Collaborators) where
  open c use {World, Manager, Service, new_parser}

  -- Before any controller exists.
  unfoldable pub statics_init : Statics c
  statics_init = record {
    post_buffer = [];
    get_buffer = [];
    json_parser = none;
    manager = none;
    service = none;
    cursor = 0;
    error_msg = [];
  }

  -- The constructor: it fills only what is still empty.
  unfoldable pub construct : Option Manager → Option Service → Statics c → Statics c
  unfolding keep_or
  construct manager service a = record a {
    post_buffer = buffer_or_new a.post_buffer;
    json_parser = keep_or a.json_parser (some new_parser);
    manager = keep_or a.manager manager;
    service = keep_or a.service service;
  }

  -- `UpdateSensorsConfig`.
  unfoldable pub update_sensors_config : Statics c → List ℕ → Eff World (Unit {0})
  update_sensors_config a buffer = do
    json_sensors_config ← c.parse buffer
    config ← deref json_sensors_config
    parser ← deref a.json_parser
    sensors ← c.deserialize parser config 16 16
    manager ← deref a.manager
    updated ← c.update manager sensors
    require updated (codes "Failed to update sensors configuration.")
    service ← deref a.service
    c.stop service
    c.start service

  -- The bytes of the GET reply.
  unfoldable pub render_config : Statics c → Eff World (List ℕ)
  render_config a = do
    manager ← deref a.manager
    sensors ← c.get manager
    current ← deref sensors
    parser ← deref a.json_parser
    config ← c.serialize parser current 16 16
    json ← deref config
    c.print json

  -- The end of the GET handler, once the body is rendered.
  unfoldable pub send_config : State c → Outcome (List ℕ) × World → Outcome ReturnCode × State c
  send_config s (returns body, w) = (
    returns ok,
    record s {
      self = record s.self { get_buffer = body };
      response = record s.response { body = body; final_chunk = true };
      world = w;
    },
  )
  send_config s (throws e, w) = (throws e, record s { world = w })
  send_config s (faults, w) = (faults, record s { world = w })

  unfoldable pub get_handler : TransactionStatus → Eff (State c) ReturnCode
  unfolding send_config
  get_handler aborted s = (returns ok, s)
  get_handler final s = send_config s (render_config s.self s.world)
  get_handler other s = (returns ok, s)

  abbrev pub reset_cursor : State c → State c
  reset_cursor s = record s { self = record s.self { cursor = 0 } }

  -- `memcpy(buffer.data() + cursor, data, data_len); cursor += data_len;`
  unfoldable pub append_chunk : List ℕ → Statics c → Statics c
  append_chunk chunk a = record a {
    post_buffer =
        take a.cursor a.post_buffer ++ (chunk ++ drop (a.cursor + length chunk) a.post_buffer);
    cursor = a.cursor + length chunk;
  }

  -- The `try` block's end: the reply to an exception, and the reset of the cursor.
  unfoldable pub finish_upload : State c → Outcome (Unit {0}) × World → Outcome ReturnCode × State c
  finish_upload s (returns _, w) =
      (returns ok, record s { self = record s.self { cursor = 0 }; world = w })
  finish_upload s (throws e, w) = (
    returns ok,
    record s {
      self = record s.self { cursor = 0; error_msg = error_prefix ++ e };
      response = record {
        status = http_internal_server_error;
        body = error_prefix ++ e;
        final_chunk = true;
      };
      world = w;
    },
  )
  finish_upload s (faults, w) = (faults, record s { world = w })

  -- What follows the copy of a chunk.
  unfoldable pub after_copy : TransactionStatus → Eff (State c) ReturnCode
  unfolding finish_upload
  after_copy final s =
      finish_upload s (update_sensors_config s.self (take s.self.cursor s.self.post_buffer) s.world)
  after_copy _ s = (returns ok, s)

  -- The size check and what follows it, for a request that is not aborted.
  unfoldable pub receive : TransactionStatus → List ℕ → Eff (State c) ReturnCode
  unfolding after_copy append_chunk
  receive status chunk s =
      if ltb (length s.self.post_buffer) (length chunk + s.self.cursor)
      then (returns enomem, reset_cursor s)
      else after_copy status (record s { self = append_chunk chunk s.self })

  unfoldable pub post_handler : TransactionStatus → List ℕ → Eff (State c) ReturnCode
  unfolding receive
  post_handler aborted chunk s = (returns ok, reset_cursor s)
  post_handler final chunk s = receive final chunk s
  post_handler other chunk s = receive other chunk s

  unfoldable pub config_handler : Method → TransactionStatus → List ℕ → Eff (State c) ReturnCode
  unfolding get_handler post_handler
  config_handler http_get status chunk s = get_handler status s
  config_handler http_post status chunk s = post_handler status chunk s
  config_handler unsupported status chunk s = (returns einval, s)
