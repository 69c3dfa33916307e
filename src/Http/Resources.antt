-- ===== src/Http/Resources.antt =====
-- app/src/domain/http_domain/services/http_server.cpp and the controllers under
-- app/src/domain/http_domain/controllers: the service and its resources, which Zephyr's server
-- looks up by their path.
mod Tests
use eerie_leap_rt.Common.{
  ℕ, ◌≡◌, refl, Bool, true, false, List, [], ◌∷◌, Outcome, returns, throws, faults, Eff, codes, ltb,
  if◌then◌else◌, ◌↔◌, length, take, ap, subst, ◌+◌,
}
use eerie_leap_rt.Http.Collaborators.{Collaborators}
use eerie_leap_rt.Http.SensorsApi.{
  Statics, State, Method, http_get, http_post, unsupported, TransactionStatus, aborted, final,
  other, ReturnCode, ok, enomem, einval, config_handler, get_handler, post_handler, send_config,
  render_config, receive, after_copy, finish_upload, update_sensors_config, append_chunk,
  reset_cursor,
}

-- `http_resource_detail`: the methods of the bit mask, and the content's type and encoding.
pub record Common : Type 0 where
  pub methods : List Method
  pub content_encoding : List ℕ
  pub content_type : List ℕ

pub record DynamicDetail (c : Collaborators) : Type 0 where
  pub common : Common
  pub cb : Method → TransactionStatus → List ℕ → Eff (State c) ReturnCode

pub record StaticDetail : Type 0 where
  pub common : Common
  pub static_data : List ℕ

pub data Resource (c : Collaborators) : Type 0 where
  dynamic : List ℕ → DynamicDetail c → Resource c
  static_file : List ℕ → StaticDetail → Resource c

pub record Service : Type 0 where
  pub host : List ℕ
  pub port : ℕ
  pub concurrent : ℕ
  pub backlog : ℕ

-- `HTTP_SERVICE_DEFINE`.
abbrev pub http_service : Service
http_service = record { host = codes "0.0.0.0"; port = 8080; concurrent = 1; backlog = 10 }

-- The editor's page, of the bytes that the build bundles.
unfoldable pub sensors_config_editor_html_resource_detail : List ℕ → StaticDetail
sensors_config_editor_html_resource_detail editor_html = record {
  common = record {
    methods = http_get ∷ [];
    content_encoding = codes "gzip";
    content_type = codes "text/html; charset=utf-8";
  };
  static_data = editor_html;
}

module _ (c : Collaborators) where
  unfoldable pub sensors_config_resource_detail : DynamicDetail c
  sensors_config_resource_detail = record {
    common = record {
      methods = http_get ∷ http_post ∷ [];
      content_encoding = [];
      content_type = codes "application/json";
    };
    cb = config_handler c;
  }

  -- `HTTP_RESOURCE_DEFINE`.
  unfoldable pub resources : List ℕ → List (Resource c)
  unfolding sensors_config_resource_detail sensors_config_editor_html_resource_detail
  resources editor_html =
      dynamic (codes "/api/sensors/config") sensors_config_resource_detail
      ∷ static_file (codes "/") (sensors_config_editor_html_resource_detail editor_html)
      ∷ []

-- The bit of a method is set.
abbrev pub supports : List Method → Method → Bool
supports [] m = false
supports (http_get ∷ ms) http_get = true
supports (http_post ∷ ms) http_post = true
supports (unsupported ∷ ms) unsupported = true
supports (m ∷ ms) m' = supports ms m'

module _ (c : Collaborators) where
  -- Neither an answer -EINVAL.
  abbrev IsAnswered : Outcome ReturnCode → Type 0
  IsAnswered (returns einval) = ⊥
  IsAnswered _ = Unit

  send_config-IsAnswered :
      (s : State c) (x : Outcome (List ℕ) × c.World) → IsAnswered (send_config c s x).0
  unfolding send_config
  send_config-IsAnswered s (returns body, w) = tt
  send_config-IsAnswered s (throws e, w) = tt
  send_config-IsAnswered s (faults, w) = tt

  finish_upload-IsAnswered :
      (s : State c) (x : Outcome (Unit {0}) × c.World) → IsAnswered (finish_upload c s x).0
  unfolding finish_upload
  finish_upload-IsAnswered s (returns u, w) = tt
  finish_upload-IsAnswered s (throws e, w) = tt
  finish_upload-IsAnswered s (faults, w) = tt

  after_copy-IsAnswered :
      (status : TransactionStatus) (s : State c) → IsAnswered (after_copy c status s).0
  unfolding after_copy
  after_copy-IsAnswered final s =
      finish_upload-IsAnswered s
        (update_sensors_config c s.self (take s.self.cursor s.self.post_buffer) s.world)
  after_copy-IsAnswered aborted s = tt
  after_copy-IsAnswered other s = tt

  if-IsAnswered :
      (b : Bool) (x y : Outcome ReturnCode × State c)
      → IsAnswered x.0
      → IsAnswered y.0
      → IsAnswered (if b then x else y).0
  if-IsAnswered true x y h k = h
  if-IsAnswered false x y h k = k

  receive-IsAnswered :
      (status : TransactionStatus) (chunk : List ℕ) (s : State c)
      → IsAnswered (receive c status chunk s).0
  unfolding receive
  receive-IsAnswered status chunk s =
      if-IsAnswered (ltb (length s.self.post_buffer) (length chunk + s.self.cursor)) _ _ tt
        (after_copy-IsAnswered status (record s { self = append_chunk c chunk s.self }))

  config_handler-IsAnswered :
      (method : Method) (status : TransactionStatus) (chunk : List ℕ) (s : State c)
      → supports (sensors_config_resource_detail c).common.methods method ≡ true
      → IsAnswered (config_handler c method status chunk s).0
  unfolding config_handler sensors_config_resource_detail
  config_handler-IsAnswered http_get final chunk s h =
      send_config-IsAnswered s (render_config c s.self s.world)
  config_handler-IsAnswered http_get aborted chunk s h = tt
  config_handler-IsAnswered http_get other chunk s h = tt
  config_handler-IsAnswered http_post aborted chunk s h = tt
  config_handler-IsAnswered http_post final chunk s h = receive-IsAnswered final chunk s
  config_handler-IsAnswered http_post other chunk s h = receive-IsAnswered other chunk s
  config_handler-IsAnswered unsupported status chunk s h = cc

  -- The bit mask of `/api/sensors/config` and its callback agree: the callback answers -EINVAL to a
  -- request, in whatever state and however far, exactly where the mask does not name the method, and
  -- such a request changes nothing.
  pub config_handler_einval :
      (method : Method) (status : TransactionStatus) (chunk : List ℕ) (s : State c)
      → let detail = sensors_config_resource_detail c in
        ((detail.cb method status chunk s).0 ≡ returns einval) ↔ (
          (supports detail.common.methods method ≡ false)
          × (detail.cb method status chunk s ≡ (returns einval, s)))
  unfolding sensors_config_resource_detail config_handler
  config_handler_einval method status chunk s = (there method, λ h. ap (λ x. x.0) h.1)
    where
      there :
          (method : Method)
          → (config_handler c method status chunk s).0 ≡ returns einval
          → (supports (http_get ∷ http_post ∷ []) method ≡ false)
            × (config_handler c method status chunk s ≡ (returns einval, s))
      there http_get h =
          absurd (subst IsAnswered h (config_handler-IsAnswered http_get status chunk s refl))
      there http_post h =
          absurd (subst IsAnswered h (config_handler-IsAnswered http_post status chunk s refl))
      there unsupported h = (refl, refl)
