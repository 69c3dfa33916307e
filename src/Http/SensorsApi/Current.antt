-- ===== src/Http/SensorsApi/Current.antt =====
-- Uploads and the GET behind them, next to a store of sensors.
use eerie_leap_rt.Common.{
  ℕ, ◌+◌, ◌≤◌, ◌≡◌, refl, sym, subst, ◌∙◌, ap, true, false, List, [], ◌∷◌, ◌++◌, arith, length,
  concat, leb, if◌then◌else◌, Outcome, returns, throws, faults, dec_le,
}
use eerie_leap_rt.Http.Collaborators.{Collaborators}
use eerie_leap_rt.Http.SensorsApi.{
  State, post_handler, finish_upload, render_config, send_config, get_handler, final, ReturnCode,
  ok,
}
use eerie_leap_rt.Http.SensorsApi.Upload.{
  feed, feed_lem, feed_overflows, upload_lem, upload_overflows,
}
use eerie_leap_rt.Http.SensorsApi.Faults.{IsSafe}
use eerie_leap_rt.Http.SensorsApi.Attempts.{
  Attempt, completed, abandoned, attempt, attempts, IsIdle, attempt-IsIdle, attempts-IsIdle,
}
use eerie_leap_rt.Http.SensorsApi.Store.{
  IsStore, applied, stored-update_sensors_config, rendering, render_config_lem,
}

module _ (c : Collaborators) (n : ℕ) (m : c.Manager) (v : c.Service) (law : IsStore c m v) where
  open c use {World, Sensors}
  open law use {stored}

  -- The store's sensors behind an attempt: those of a body that was completed, fits the buffer, can be
  -- read and is accepted, and else those from before.
  abbrev pub current : Attempt → Sensors → Sensors
  current (completed ds last) old =
      if leb (length (concat ds) + length last) n
      then applied c law (concat ds ++ last) old
      else old
  current (abandoned ds) old = old

  abbrev pub current_all : List Attempt → Sensors → Sensors
  current_all [] old = old
  current_all (a ∷ rest) old = current_all rest (current a old)

  finish_upload-world :
      (s : State c) (x : Outcome (Unit {0}) × World) → (finish_upload c s x).1.world ≡ x.1
  unfolding finish_upload
  finish_upload-world s (returns u, w) = refl
  finish_upload-world s (throws e, w) = refl
  finish_upload-world s (faults, w) = refl

  feed-world :
      (ds : List (List ℕ)) (s : State c) → IsIdle c n m v s → (feed c ds s).1.world ≡ s.world
  feed-world ds s i =
      elim (dec_le (s.self.cursor + length (concat ds)) (length s.self.post_buffer)) [
        | yes fits ↦ let (buffer, _, _, run) = feed_lem c ds s fits in ap (λ x. x.1.world) run
        | no over ↦
            let start = i.at_start in
            let (buffer, _, run) = feed_overflows c ds s (omega arith) (omega arith) in
            ap (λ x. x.1.world) run
      ]

  leb-fits : (a b : ℕ) → a ≤ b → leb a b ≡ true
  leb-fits a b h = ground arith

  leb-over : (a b : ℕ) → ¬ (a ≤ b) → leb a b ≡ false
  leb-over a b h = ground arith

  stored-attempt :
      (a : Attempt) (s : State c)
      → IsIdle c n m v s
      → stored (attempt c a s).world ≡ current a (stored s.world)
  unfolding attempt post_handler
  stored-attempt (completed ds last) s i =
      let size = length (concat ds) + length last in
      let sized = i.is_ready.sized in
      elim (dec_le size (length s.self.post_buffer)) [
        | yes fits ↦
            let (t, _, _, run) = upload_lem c ds last s i.at_start fits in
            ap (λ x. stored x.1.world) run
            ∙ ap stored (finish_upload-world t _)
            ∙ stored-update_sensors_config c law n s.self (concat ds ++ last) s.world i.is_ready
            ∙ sym (
                ap
                  (λ b.
                    if b
                    then applied c law (concat ds ++ last) (stored s.world)
                    else stored s.world)
                  (leb-fits size n (omega arith)))
        | no over ↦
            let (buffer, _, run) = upload_overflows c ds last s i.at_start (omega arith) in
            ap (λ x. stored x.1.world) run
            ∙ sym (
                ap
                  (λ b.
                    if b
                    then applied c law (concat ds ++ last) (stored s.world)
                    else stored s.world)
                  (leb-over size n (λ h. omega arith)))
      ]
  stored-attempt (abandoned ds) s i = ap stored (feed-world ds s i)

  stored-attempts :
      (safe : IsSafe c) (tries : List Attempt) (s : State c)
      → IsIdle c n m v s
      → stored (attempts c tries s).world ≡ current_all tries (stored s.world)
  unfolding attempts
  stored-attempts safe [] s i = refl
  stored-attempts safe (a ∷ rest) s i =
      stored-attempts safe rest (attempt c a s) (attempt-IsIdle c n m v safe a s i)
      ∙ ap (current_all rest) (stored-attempt a s i)

  -- A reply that sends a rendering, where there is one.
  abbrev pub Sends : Outcome (List ℕ) × World → Outcome ReturnCode × State c → Type 0
  Sends (returns body, w) (code, t) =
      (code ≡ returns ok)
      × (t.response.body ≡ body)
      × (t.response.final_chunk ≡ true)
      × (t.world ≡ w)
  Sends (throws e, w) (code, t) = (code ≡ throws e) × (t.world ≡ w)
  Sends (faults, w) (code, t) = (code ≡ faults) × (t.world ≡ w)

  send_config-Sends : (s : State c) (x : Outcome (List ℕ) × World) → Sends x (send_config c s x)
  unfolding send_config
  send_config-Sends s (returns body, w) = (refl, refl, refl, refl)
  send_config-Sends s (throws e, w) = (refl, refl)
  send_config-Sends s (faults, w) = (refl, refl)

  -- The endpoint implements a store. After any uploads, completed or given up, the sensors of the
  -- manager are those of the last body that was completed, fits the buffer, can be read and is accepted,
  -- or the first ones where there is none. A GET then answers with their rendering as the last chunk,
  -- or throws or faults as the rendering does. This is of collaborators that keep
  -- sensors and return or throw, and of a controller with no upload under way.
  pub get_handler-attempts :
      (safe : IsSafe c) (tries : List Attempt) (s : State c)
      → IsIdle c n m v s
      → let t = attempts c tries s in
        let sensors = current_all tries (stored s.world) in
        (stored t.world ≡ sensors) × Sends (rendering c law sensors t.world) (get_handler c final t)
  unfolding get_handler
  get_handler-attempts safe tries s i =
      let t = attempts c tries s in
      let same = stored-attempts safe tries s i in
      let rendered =
        render_config_lem c law n t.self t.world (attempts-IsIdle c n m v safe tries s i).is_ready
        ∙ ap (λ x. rendering c law x t.world) same in
      (
        same,
        subst (λ x. Sends x (get_handler c final t)) rendered
            (send_config-Sends t (render_config c t.self t.world)),
      )
