-- ===== src/Http/SensorsApi/Reply.antt =====
-- What the client of an upload is told.
use eerie_leap_rt.Common.{
  ℕ, ◌+◌, ◌≤◌, ◌≡◌, refl, ◌∙◌, List, ◌++◌, true, length, concat, Outcome, returns, throws, faults,
  Ends, ap,
}
use eerie_leap_rt.Http.Collaborators.{Collaborators}
use eerie_leap_rt.Http.SensorsApi.Upload.{upload, upload_lem}
use eerie_leap_rt.Http.SensorsApi.{
  State, Response, ok, error_prefix, http_internal_server_error, finish_upload,
  update_sensors_config,
}

-- The reply that an upload should have, by how the update ended: as it was, or status 500 with the
-- exception's text.
abbrev pub reply_to : Response → Outcome (Unit {0}) → Response
reply_to r (throws e) = record {
  status = http_internal_server_error;
  body = error_prefix ++ e;
  final_chunk = true;
}
reply_to r _ = r

module _ (c : Collaborators) where
  open c use {World}

  -- A finished upload: the return code is 0, the reply says how the update ended, and the next
  -- upload starts with an empty buffer.
  pub record Finished (s : State c) (x : Outcome (Unit {0}) × World) (t : State c) : Type 0 where
    pub replied : t.response ≡ reply_to s.response x.0
    pub world_after : t.world ≡ x.1
    pub emptied : t.self.cursor ≡ 0
    pub kept : length t.self.post_buffer ≡ length s.self.post_buffer

  finish_upload-Finished :
      (s : State c) (x : Outcome (Unit {0}) × World)
      → Ends x.0
      → (t : State c) × (finish_upload c s x ≡ (returns ok, t)) × Finished s x t
  unfolding finish_upload
  finish_upload-Finished s (returns u, w) h = (
    (finish_upload c s (returns u, w)).1,
    refl,
    record { replied = refl; world_after = refl; emptied = refl; kept = refl },
  )
  finish_upload-Finished s (throws e, w) h = (
    (finish_upload c s (throws e, w)).1,
    refl,
    record { replied = refl; world_after = refl; emptied = refl; kept = refl },
  )
  finish_upload-Finished s (faults, w) h = absurd h

  -- An upload that fits, and whose update returns or throws, is answered with return code 0 and a
  -- reply that says how the update ended: untouched, or status 500 with the exception's text.
  pub upload_reply :
      (ds : List (List ℕ)) (last : List ℕ) (s : State c)
      → s.self.cursor ≡ 0
      → length (concat ds) + length last ≤ length s.self.post_buffer
      → let x = update_sensors_config c s.self (concat ds ++ last) s.world in
        Ends x.0 → (t : State c) × (upload c ds last s ≡ (returns ok, t)) × Finished s x t
  upload_reply ds last s start h ends =
      let x = update_sensors_config c s.self (concat ds ++ last) s.world in
      let (mid, same, reply, run) = upload_lem c ds last s start h in
      let (t, done, f) = finish_upload-Finished mid x ends in
      (
        t,
        run ∙ done,
        record {
          replied = f.replied ∙ ap (λ r. reply_to r x.0) reply;
          world_after = f.world_after;
          emptied = f.emptied;
          kept = f.kept ∙ same;
        },
      )
