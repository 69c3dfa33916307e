-- ===== src/Http/SensorsApi/RoundTrip.antt =====
-- A configuration that is uploaded and read back.
use eerie_leap_rt.Common.{
  ℕ, ◌+◌, ◌≤◌, ◌≡◌, refl, sym, ap, ◌∙◌, subst, true, some, List, [], ◌∷◌, ◌++◌, length, concat,
  Outcome, returns, throws, faults, Eff, pure, and_then,
}
use eerie_leap_rt.Http.Collaborators.{Collaborators}
use eerie_leap_rt.Http.SensorsApi.{
  State, TransactionStatus, ReturnCode, ok, enomem, einval, final, other, http_post, post_handler,
  config_handler, get_handler, render_config, finish_upload,
}
use eerie_leap_rt.Http.SensorsApi.Upload.{feed, upload, upload_lem}
use eerie_leap_rt.Http.SensorsApi.Apply.{Applied, update_sensors_config_iff}
use eerie_leap_rt.Http.SensorsApi.Safety.{IsReady, config_handler-IsReady}

module _ (c : Collaborators) where
  open c use {World, Manager, Service, JsonConfig, Sensors}

  -- What the collaborators do with these sensors and their text: the two directions of the JSON
  -- parser and serializer fit, a manager that has accepted the sensors gives them back, and the
  -- service leaves the manager alone.
  pub record IsFaithful (m : Manager) (v : Service) (sensors : Sensors) (text : List ℕ)
      : Type 0 where
    pub config : JsonConfig
    pub parse_lem : (w : World) → c.parse text w ≡ (returns (some config), w)
    pub deserialize_lem :
        (w : World) → c.deserialize c.new_parser config 16 16 w ≡ (returns sensors, w)
    pub serialize_lem :
        (w : World) → c.serialize c.new_parser sensors 16 16 w ≡ (returns (some config), w)
    pub print_lem : (w : World) → c.print config w ≡ (returns text, w)
    pub get-update :
        (w w' : World)
        → c.update m sensors w ≡ (returns true, w')
        → c.get m w' ≡ (returns (some sensors), w')
    pub get-stop :
        (w w' : World)
        → c.get m w ≡ (returns (some sensors), w)
        → c.stop v w ≡ (returns tt, w')
        → c.get m w' ≡ (returns (some sensors), w')
    pub get-start :
        (w w' : World)
        → c.get m w ≡ (returns (some sensors), w)
        → c.start v w ≡ (returns tt, w')
        → c.get m w' ≡ (returns (some sensors), w')

  module _ (n : ℕ) (m : Manager) (v : Service) where
    abbrev Ready : Outcome ReturnCode × State c → Type 0
    Ready r = IsReady c n m v r.1.self

    -- The server goes on behind a request that returned 0, and stops at an error.
    and_then-IsReady :
        (r : Outcome ReturnCode × State c) (next : Eff (State c) ReturnCode)
        → Ready r
        → ((s : State c) → IsReady c n m v s.self → Ready (next s))
        → Ready (
            and_then r
              (λ code. elim code [ ok ↦ next | enomem ↦ pure enomem | einval ↦ pure einval ]))
    and_then-IsReady (returns ok, s) next r k = k s r
    and_then-IsReady (returns enomem, s) next r k = r
    and_then-IsReady (returns einval, s) next r k = r
    and_then-IsReady (throws e, s) next r k = r
    and_then-IsReady (faults, s) next r k = r

    post_handler-IsReady :
        (status : TransactionStatus) (chunk : List ℕ) (s : State c)
        → IsReady c n m v s.self
        → Ready (post_handler c status chunk s)
    unfolding config_handler
    post_handler-IsReady status chunk s r =
        config_handler-IsReady c n m v http_post status chunk s r

    feed-IsReady : (ds : List (List ℕ)) (s : State c) → IsReady c n m v s.self → Ready (feed c ds s)
    unfolding feed
    feed-IsReady [] s r = r
    feed-IsReady (d ∷ ds) s r =
        and_then-IsReady (post_handler c other d s) (feed c ds) (post_handler-IsReady other d s r)
          (feed-IsReady ds)

    upload-IsReady :
        (ds : List (List ℕ)) (last : List ℕ) (s : State c)
        → IsReady c n m v s.self
        → Ready (upload c ds last s)
    unfolding upload
    upload-IsReady ds last s r =
        and_then-IsReady (feed c ds s) (post_handler c final last) (feed-IsReady ds s r)
          (post_handler-IsReady final last)

    -- A GET of a manager that has the sensors sends their text.
    get_handler_sends :
        (sensors : Sensors) (text : List ℕ) (s : State c)
        → IsFaithful m v sensors text
        → IsReady c n m v s.self
        → c.get m s.world ≡ (returns (some sensors), s.world)
        → ((get_handler c final s).0 ≡ returns ok)
          × ((get_handler c final s).1.response.body ≡ text)
    unfolding get_handler render_config
    get_handler_sends sensors text s law ready held =
        let rendered : render_config c s.self s.world ≡ (returns text, s.world) =
          rw
            (
              ready.manager_ready,
              held,
              ready.parser_ready,
              law.serialize_lem s.world,
              law.print_lem s.world,
            )
            refl in
        rw rendered (refl, refl)

    -- What the client sees: the upload returns 0 with an untouched reply, and the GET after it sends the text.
    pub record ReadsBack (text : List ℕ) (s : State c) (r : Outcome ReturnCode × State c)
        : Type 0 where
      pub uploaded : r.0 ≡ returns ok
      pub untouched : r.1.response ≡ s.response
      pub got : (get_handler c final r.1).0 ≡ returns ok
      pub body_lem : (get_handler c final r.1).1.response.body ≡ text

    -- A text of sensors that fits the buffer, uploaded in any chunks, is what a GET sends afterwards,
    -- where the manager accepts the sensors, the service stops and starts, and the collaborators are
    -- faithful to these sensors.
    pub get_handler-upload :
        (ds : List (List ℕ)) (last : List ℕ) (s : State c) (sensors : Sensors) (w1 w2 w3 : World)
        → IsFaithful m v sensors (concat ds ++ last)
        → IsReady c n m v s.self
        → s.self.cursor ≡ 0
        → length (concat ds) + length last ≤ n
        → c.update m sensors s.world ≡ (returns true, w1)
        → c.stop v w1 ≡ (returns tt, w2)
        → c.start v w2 ≡ (returns tt, w3)
        → ReadsBack (concat ds ++ last) s (upload c ds last s)
    unfolding finish_upload
    get_handler-upload ds last s sensors w1 w2 w3 law ready start fits updated stopped started =
        let applied : Applied c s.self (concat ds ++ last) s.world w3 = record {
          config = law.config;
          sensors = sensors;
          parser = c.new_parser;
          manager = m;
          service = v;
          w1 = s.world;
          w2 = s.world;
          w3 = w1;
          w4 = w2;
          has_parser = ready.parser_ready;
          has_manager = ready.manager_ready;
          has_service = ready.service_ready;
          parsed = law.parse_lem s.world;
          deserialized = law.deserialize_lem s.world;
          accepted = updated;
          stopped = stopped;
          started = started;
        } in
        let (mid, same, reply, run) =
          upload_lem c ds last s start
            (subst (λ k. length (concat ds) + length last ≤ k) (sym ready.sized) fits) in
        let done =
          run
          ∙ ap (finish_upload c mid)
              ((update_sensors_config_iff c s.self (concat ds ++ last) s.world w3).1 applied) in
        let after = upload-IsReady ds last s ready in
        let held =
          law.get-start w2 w3 (law.get-stop w1 w2 (law.get-update s.world w1 updated) stopped)
            started in
        let (got, body) =
          get_handler_sends sensors (concat ds ++ last) _ law (subst Ready done after) held in
        record {
          uploaded = ap (λ r. r.0) done;
          untouched = ap (λ r. r.1.response) done ∙ reply;
          got =
              subst (λ (r : Outcome ReturnCode × State c). (get_handler c final r.1).0 ≡ returns ok)
                (sym done) got;
          body_lem =
              subst
                (λ (r : Outcome ReturnCode × State c).
                  (get_handler c final r.1).1.response.body ≡ concat ds ++ last)
                (sym done) body;
        }
