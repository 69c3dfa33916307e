-- ===== src/Http/SensorsApi/Attempts.antt =====
-- Uploads one after another: what the earlier ones leave behind.
use eerie_leap_rt.Common.{
  ℕ, ◌+◌, ◌≡◌, refl, sym, ◌∙◌, ap, List, [], ◌∷◌, ◌++◌, arith, length, concat, Outcome, returns,
  throws, faults, and_then, Eff, pure, dec_le, Ends,
}
use eerie_leap_rt.Http.Collaborators.{Collaborators}
use eerie_leap_rt.Http.SensorsApi.{
  State, Statics, Response, ReturnCode, ok, enomem, einval, aborted, final, other, http_post,
  post_handler, config_handler, finish_upload, update_sensors_config,
}
use eerie_leap_rt.Http.SensorsApi.Upload.{feed, upload, upload_lem, upload_overflows}
use eerie_leap_rt.Http.SensorsApi.Safety.{IsReady, config_handler-IsReady}
use eerie_leap_rt.Http.SensorsApi.Faults.{IsSafe, update-Ends}
use eerie_leap_rt.Http.SensorsApi.Reply.{upload_reply}

-- An upload that the client completes, or one that it gives up after some chunks.
pub data Attempt : Type 0 where
  completed : List (List ℕ) → List ℕ → Attempt
  abandoned : List (List ℕ) → Attempt

module _ (c : Collaborators) where
  open c use {World}

  -- The state behind an attempt. The server reports an abandoned one as aborted.
  unfoldable pub attempt : Attempt → State c → State c
  attempt (completed ds last) s = (upload c ds last s).1
  attempt (abandoned ds) s = (post_handler c aborted [] (feed c ds s).1).1

  unfoldable pub attempts : List Attempt → State c → State c
  unfolding attempt
  attempts [] s = s
  attempts (a ∷ rest) s = attempts rest (attempt a s)

  -- What the outside sees of a request: how it ended, the reply and the world.
  abbrev pub visible : Outcome ReturnCode × State c → Outcome ReturnCode × Response × World
  visible (o, s) = (o, s.response, s.world)

  module _ (n : ℕ) (m : c.Manager) (v : c.Service) where
    -- Ready, with no upload under way.
    pub record IsIdle (s : State c) : Type 0 where
      pub is_ready : IsReady c n m v s.self
      pub at_start : s.self.cursor ≡ 0

    post_handler-IsReady :
        (chunk : List ℕ) (s : State c)
        → IsReady c n m v s.self
        → IsReady c n m v (post_handler c other chunk s).1.self
    unfolding config_handler
    post_handler-IsReady chunk s r = config_handler-IsReady c n m v http_post other chunk s r

    -- A request that answered, and those that follow while the answer is 0.
    continue-IsReady :
        (rest : Eff (State c) ReturnCode)
        → ((t : State c) → IsReady c n m v t.self → IsReady c n m v (rest t).1.self)
        → (x : Outcome ReturnCode × State c) → IsReady c n m v x.1.self
        → IsReady c n m v
            (and_then x
              λ code. elim code [ ok ↦ rest | enomem ↦ pure enomem | einval ↦ pure einval ]).1.self
    continue-IsReady rest k (returns ok, t) h = k t h
    continue-IsReady rest k (returns enomem, t) h = h
    continue-IsReady rest k (returns einval, t) h = h
    continue-IsReady rest k (throws e, t) h = h
    continue-IsReady rest k (faults, t) h = h

    feed-IsReady :
        (ds : List (List ℕ)) (s : State c)
        → IsReady c n m v s.self
        → IsReady c n m v (feed c ds s).1.self
    unfolding feed
    feed-IsReady [] s r = r
    feed-IsReady (d ∷ ds) s r =
        continue-IsReady (feed c ds) (feed-IsReady ds) (post_handler c other d s)
          (post_handler-IsReady d s r)

    upload-IsReady :
        (ds : List (List ℕ)) (last : List ℕ) (s : State c)
        → IsReady c n m v s.self
        → IsReady c n m v (upload c ds last s).1.self
    unfolding upload config_handler
    upload-IsReady ds last s r =
        continue-IsReady (post_handler c final last)
          (config_handler-IsReady c n m v http_post final last) (feed c ds s) (feed-IsReady ds s r)

    module _ (safe : IsSafe c) where
      ready-Ends :
          (a : Statics c) (body : List ℕ) (w : World)
          → IsReady c n m v a
          → Ends (update_sensors_config c a body w).0
      ready-Ends a body w r =
          update-Ends c safe m v a body w r.parser_ready r.manager_ready r.service_ready

      upload_emptied :
          (ds : List (List ℕ)) (last : List ℕ) (s : State c)
          → IsIdle s
          → (upload c ds last s).1.self.cursor ≡ 0
      upload_emptied ds last s i =
          elim (dec_le (length (concat ds) + length last) (length s.self.post_buffer)) [
            | yes fits ↦
                let (t, run, f) =
                  upload_reply c ds last s i.at_start fits
                    (ready-Ends s.self _ s.world i.is_ready) in
                ap (λ x. x.1.self.cursor) run ∙ f.emptied
            | no over ↦
                let (buffer, same, run) = upload_overflows c ds last s i.at_start (omega arith) in
                ap (λ x. x.1.self.cursor) run
          ]

      pub attempt-IsIdle : (a : Attempt) (s : State c) → IsIdle s → IsIdle (attempt a s)
      unfolding attempt config_handler
      attempt-IsIdle (completed ds last) s i = record {
        is_ready = upload-IsReady ds last s i.is_ready;
        at_start = upload_emptied ds last s i;
      }
      attempt-IsIdle (abandoned ds) s i = record {
        is_ready =
            config_handler-IsReady c n m v http_post aborted [] (feed c ds s).1
              (feed-IsReady ds s i.is_ready);
        at_start = refl;
      }

      pub attempts-IsIdle :
          (tries : List Attempt) (s : State c) → IsIdle s → IsIdle (attempts tries s)
      unfolding attempts
      attempts-IsIdle [] s i = i
      attempts-IsIdle (a ∷ rest) s i = attempts-IsIdle rest (attempt a s) (attempt-IsIdle a s i)

      finish_upload-visible :
          (s t : State c) (x : Outcome (Unit {0}) × World)
          → s.response ≡ t.response
          → Ends x.0
          → visible (finish_upload c s x) ≡ visible (finish_upload c t x)
      unfolding finish_upload
      finish_upload-visible s t (returns u, w) e h = ap (λ r. (returns ok, r, w)) e
      finish_upload-visible s t (throws error, w) e h = refl
      finish_upload-visible s t (faults, w) e h = absurd h

      update_sensors_config-IsReady :
          (a b : Statics c) (body : List ℕ) (w : World)
          → IsReady c n m v a
          → IsReady c n m v b
          → update_sensors_config c a body w ≡ update_sensors_config c b body w
      unfolding update_sensors_config
      update_sensors_config-IsReady a b body w r q =
          rw
            (
              r.parser_ready, r.manager_ready, r.service_ready, q.parser_ready, q.manager_ready,
              q.service_ready,
            )
            refl

      -- Two idle states that differ in nothing visible answer an upload in the same way.
      upload-visible :
          (ds : List (List ℕ)) (last : List ℕ) (s t : State c)
          → IsIdle s
          → IsIdle t
          → s.response ≡ t.response
          → s.world ≡ t.world
          → visible (upload c ds last s) ≡ visible (upload c ds last t)
      upload-visible ds last s t i j er ew =
          let same : length s.self.post_buffer ≡ length t.self.post_buffer =
            i.is_ready.sized ∙ sym j.is_ready.sized in
          elim (dec_le (length (concat ds) + length last) (length s.self.post_buffer)) [
            | yes fits ↦
                let (s', _, rs, run) = upload_lem c ds last s i.at_start fits in
                let (t', _, rt, run') = upload_lem c ds last t j.at_start (omega arith) in
                let body = concat ds ++ last in
                let x = update_sensors_config c s.self body s.world in
                let e : x ≡ update_sensors_config c t.self body t.world =
                  update_sensors_config-IsReady s.self t.self body s.world i.is_ready j.is_ready
                  ∙ ap (update_sensors_config c t.self body) ew in
                ap visible run
                ∙ finish_upload-visible s' t' x (rs ∙ er ∙ sym rt)
                    (ready-Ends s.self body s.world i.is_ready)
                ∙ ap (λ y. visible (finish_upload c t' y)) e
                ∙ sym (ap visible run')
            | no over ↦
                let (bs, _, run) = upload_overflows c ds last s i.at_start (omega arith) in
                let (bt, _, run') = upload_overflows c ds last t j.at_start (omega arith) in
                ap visible run ∙ ap-2 er ew ∙ sym (ap visible run')
          ]
        where
          ap-2 :
              {r r' : Response} {w w' : World}
              → r ≡ r'
              → w ≡ w'
              → ◌≡◌ {A = Outcome ReturnCode × Response × World}
                  (returns enomem, r, w)
                  (returns enomem, r', w')
          ap-2 e f = cc

      -- Whatever uploads came before, completed, refused for their size or by the manager, or given
      -- up in the middle, an upload is answered, and changes the world outside, as by the controller
      -- from before them, given the same reply and world: nothing of the earlier uploads shows. This
      -- is of collaborators that return or throw, and of a controller with no upload under way.
      pub upload-attempts :
          (tries : List Attempt) (ds : List (List ℕ)) (last : List ℕ) (s : State c)
          → IsIdle s
          → let t = attempts tries s in
            visible (upload c ds last t)
            ≡ visible (upload c ds last (record s { response = t.response; world = t.world }))
      upload-attempts tries ds last s i =
          upload-visible ds last (attempts tries s) _ (attempts-IsIdle tries s i)
            (record { is_ready = i.is_ready; at_start = i.at_start }) refl refl
