-- ===== src/Http/Tests.antt =====
-- A concrete set of collaborators, runs of the handlers, and the theorems at inputs.
pub mod Attempts
mod Current
use eerie_leap_rt.Common.{
  sym, ap, ◌∙◌, ℕ, ◌≡◌, refl, Bool, true, false, Option, some, List, [], ◌∷◌, arith, length, ltb,
  if◌then◌else◌, codes, returns, faults, Ends, Eff, pure, throw, ◌↔◌,
}
use eerie_leap_rt.Http.Collaborators.{Collaborators}
use eerie_leap_rt.Http.SensorsApi.{
  State, Statics, ok, enomem, final, other, http_get, http_post, config_handler, statics_init,
  finish_upload, update_sensors_config, render_config,
}
use eerie_leap_rt.Http.SensorsApi.Upload.{upload, upload_lem, upload_overflows, holding}
use eerie_leap_rt.Http.SensorsApi.Apply.{Applied, update_sensors_config_iff}
use eerie_leap_rt.Http.SensorsApi.Safety.{IsReady, config_handler-IsReady}
use eerie_leap_rt.Http.SensorsApi.Faults.{
  IsSafe, EndsNonnull, config_handler-Ends, config_handler_early,
}
use eerie_leap_rt.Http.SensorsApi.RoundTrip.{IsFaithful, ReadsBack, get_handler-upload}
use eerie_leap_rt.Http.SensorsApi.Reply.{Finished, upload_reply}

abbrev parse_body : List ℕ → Eff (List ℕ × List Bool) (Option (List ℕ))
parse_body [] = throw (codes "empty")
parse_body (b ∷ bs) = pure (some (b ∷ bs))

-- A body is its own configuration; the empty body does not parse, and a manager takes at most as
-- many bytes as its number. The world is the last accepted configuration with the service's runs.
abbrev pub sample : Collaborators
sample = record {
  World = List ℕ × List Bool;
  Manager = ℕ;
  Service = ℕ;
  Parser = ℕ;
  Sensors = List ℕ;
  JsonConfig = List ℕ;
  new_parser = 0;
  serialize = λ p s gpio adc. pure (some s);
  deserialize = λ p j gpio adc. pure j;
  print = λ j. pure j;
  parse = parse_body;
  get = λ m w. (returns (some w.0), w);
  update = λ m s w. if ltb m (length s) then (returns false, w) else (returns true, (s, w.1));
  stop = λ v w. (returns tt, (w.0, false ∷ w.1));
  start = λ v w. (returns tt, (w.0, true ∷ w.1));
}

pub sample-IsSafe : IsSafe sample
sample-IsSafe = record {
  serialize_ends = λ p s w. tt;
  deserialize_ends = λ p j w. tt;
  print_ends = λ j w. tt;
  parse_ends = parse;
  get_ends = λ m w. tt;
  update_ends = λ m s w. ground arith;
  stop_ends = λ v w. tt;
  start_ends = λ v w. tt;
}
  where
    parse : (b : List ℕ) (w : List ℕ × List Bool) → EndsNonnull (parse_body b w).0
    parse [] w = tt
    parse (b ∷ bs) w = tt

-- A controller with four bytes of buffer and a manager that takes three.
abbrev pub small : Statics sample
small = record {
  post_buffer = 9 ∷ 9 ∷ 9 ∷ 9 ∷ [];
  get_buffer = [];
  json_parser = some 0;
  manager = some 3;
  service = some 1;
  cursor = 0;
  error_msg = [];
}

abbrev pub idle : State sample
idle = record {
  self = small;
  response = record { status = 200; body = []; final_chunk = false };
  world = ([], []);
}

-- Two chunks of a body that the manager takes: the service is stopped and started.
two_chunks :
    (upload sample ((5 ∷ []) ∷ []) (6 ∷ 7 ∷ []) idle).1.world ≡ (5 ∷ 6 ∷ 7 ∷ [], true ∷ false ∷ [])
unfolding upload update_sensors_config
two_chunks = refl

-- Four bytes fit the buffer, and the manager refuses them.
refused : (upload sample ((5 ∷ []) ∷ []) (6 ∷ 7 ∷ 8 ∷ []) idle).1.response.status ≡ 500
unfolding upload update_sensors_config
refused = refl

-- Five bytes do not fit.
too_long : (upload sample ((5 ∷ 6 ∷ 7 ∷ []) ∷ []) (8 ∷ 9 ∷ []) idle).0 ≡ returns enomem
unfolding upload update_sensors_config
too_long = refl

get_reply :
    (config_handler sample http_get final [] (record idle { world = (4 ∷ [], []) })).1.response.body
    ≡ 4 ∷ []
unfolding config_handler render_config
get_reply = refl

small-IsReady : IsReady sample 4 3 1 small
small-IsReady = record {
  sized = refl;
  within = omega arith;
  parser_ready = refl;
  manager_ready = refl;
  service_ready = refl;
}

upload_lem_example :
    (t : State sample) × (length t.self.post_buffer ≡ 4)
    × (t.response ≡ idle.response)
    × (upload sample ((5 ∷ []) ∷ []) (6 ∷ 7 ∷ []) idle
        ≡ finish_upload sample t (update_sensors_config sample small (5 ∷ 6 ∷ 7 ∷ []) ([], [])))
upload_lem_example = upload_lem sample ((5 ∷ []) ∷ []) (6 ∷ 7 ∷ []) idle refl (omega arith)

upload_overflows_example :
    (buffer : List ℕ) × (length buffer ≡ 4)
    × (upload sample ((5 ∷ 6 ∷ 7 ∷ []) ∷ []) (8 ∷ 9 ∷ []) idle
        ≡ (returns enomem, holding sample idle buffer 0))
upload_overflows_example =
    upload_overflows sample ((5 ∷ 6 ∷ 7 ∷ []) ∷ []) (8 ∷ 9 ∷ []) idle refl (omega arith)

update_sensors_config_iff_example :
    (update_sensors_config sample small (5 ∷ []) ([], [])
      ≡ (returns tt, (5 ∷ [], true ∷ false ∷ [])))
    ↔ Applied sample small (5 ∷ []) ([], []) (5 ∷ [], true ∷ false ∷ [])
update_sensors_config_iff_example =
    update_sensors_config_iff sample small (5 ∷ []) ([], []) (5 ∷ [], true ∷ false ∷ [])

abbrev pub early : State sample
early = record { self = statics_init sample; response = idle.response; world = ([], []) }

config_handler_early_example :
    ((config_handler sample http_get final [] early).0 ≡ faults)
    × ((config_handler sample http_post final (1 ∷ []) early).0 ≡ returns enomem)
    × ((config_handler sample http_post other (1 ∷ []) early).0 ≡ returns enomem)
config_handler_early_example = config_handler_early sample [] 1 [] early refl

upload_reply_example :
    let x = update_sensors_config sample small (5 ∷ 6 ∷ 7 ∷ 8 ∷ []) ([], []) in
    (t : State sample) × (upload sample ((5 ∷ []) ∷ []) (6 ∷ 7 ∷ 8 ∷ []) idle ≡ (returns ok, t))
    × Finished sample idle x t
unfolding update_sensors_config
upload_reply_example =
    upload_reply sample ((5 ∷ []) ∷ []) (6 ∷ 7 ∷ 8 ∷ []) idle refl (omega arith) tt

abbrev body : List ℕ
body = 5 ∷ 6 ∷ 7 ∷ []

body-IsFaithful : IsFaithful sample 3 1 body body
body-IsFaithful = record {
  config = body;
  parse_lem = λ w. refl;
  deserialize_lem = λ w. refl;
  serialize_lem = λ w. refl;
  print_lem = λ w. refl;
  get-update = λ w w' e. ap (λ r. (returns (some r.1.0), w')) (sym e);
  get-stop = λ w w' h e. kept w w' h (ap (λ r. r.1.0) (sym e));
  get-start = λ w w' h e. kept w w' h (ap (λ r. r.1.0) (sym e));
}
  where
    kept :
        (w w' : List ℕ × List Bool)
        → sample.get 3 w ≡ (returns (some body), w)
        → w'.0 ≡ w.0
        → sample.get 3 w' ≡ (returns (some body), w')
    kept w w' h e = let q : w.0 ≡ body = cc in ap (λ l. (returns (some l), w')) (e ∙ q)

get_handler-upload_example :
    ReadsBack sample 4 3 1 body idle (upload sample ((5 ∷ []) ∷ []) (6 ∷ 7 ∷ []) idle)
get_handler-upload_example =
    get_handler-upload sample 4 3 1 ((5 ∷ []) ∷ []) (6 ∷ 7 ∷ []) idle body (body, [])
      (body, false ∷ []) (body, true ∷ false ∷ []) body-IsFaithful small-IsReady refl (omega arith)
      refl refl refl
