-- ===== src/Http/SensorsApi/Upload.antt =====
-- Uploads in chunks: the requests of one body, as the server hands them to the POST handler.
use eerie_leap_rt.Common.{
  ℕ, ◌+◌, ◌≤◌, ◌<◌, ◌≡◌, refl, sym, ap, ◌∙◌, subst, List, [], ◌∷◌, ◌++◌, append_assoc, append-nil,
  arith, length, take, drop, concat, length-append, length-take, length-drop, take-append, le→ltb,
  lt→ltb, dec_le, returns, Eff, pure, and_then,
}
use eerie_leap_rt.Http.Collaborators.{Collaborators}
use eerie_leap_rt.Http.SensorsApi.{
  State, Statics, ReturnCode, ok, enomem, einval, TransactionStatus, final, other, append_chunk,
  after_copy, receive, post_handler, finish_upload, update_sensors_config, reset_cursor,
}

module _ (c : Collaborators) where
  -- The chunks before the last one; the server stops at an error code.
  unfoldable pub feed : List (List ℕ) → Eff (State c) ReturnCode
  feed [] s = (returns ok, s)
  feed (d ∷ ds) s =
      and_then (post_handler c other d s)
        λ code. elim code [ ok ↦ feed ds | enomem ↦ pure enomem | einval ↦ pure einval ]

  -- A whole body.
  unfoldable pub upload : List (List ℕ) → List ℕ → Eff (State c) ReturnCode
  unfolding feed post_handler
  upload ds last s = and_then (feed ds s) λ code. elim code [
    | ok ↦ post_handler c final last
    | enomem ↦ pure enomem
    | einval ↦ pure einval
  ]

  -- A state that holds these bytes in its buffer.
  abbrev pub holding : State c → List ℕ → ℕ → State c
  holding s buffer n = record s { self = record s.self { post_buffer = buffer; cursor = n } }

  pub length-append_chunk :
      (chunk : List ℕ) (a : Statics c)
      → a.cursor + length chunk ≤ length a.post_buffer
      → length (append_chunk c chunk a).post_buffer ≡ length a.post_buffer
  unfolding append_chunk
  length-append_chunk chunk a h = omega (
    arith,
    length-append (take a.cursor a.post_buffer)
        (chunk ++ drop (a.cursor + length chunk) a.post_buffer),
    length-append chunk (drop (a.cursor + length chunk) a.post_buffer),
    length-take a.cursor a.post_buffer (omega arith),
    length-drop (a.cursor + length chunk) a.post_buffer,
  )

  -- The copied chunk stands behind what was there.
  pub take-append_chunk :
      (chunk : List ℕ) (a : Statics c)
      → a.cursor + length chunk ≤ length a.post_buffer
      → take (append_chunk c chunk a).cursor (append_chunk c chunk a).post_buffer
        ≡ take a.cursor a.post_buffer ++ chunk
  unfolding append_chunk
  take-append_chunk chunk a h =
      let old = take a.cursor a.post_buffer in
      let rest = drop (a.cursor + length chunk) a.post_buffer in
      let n : length (old ++ chunk) ≡ a.cursor + length chunk =
        omega (arith, length-append old chunk, length-take a.cursor a.post_buffer (omega arith)) in
      subst (λ k. take k (old ++ (chunk ++ rest)) ≡ old ++ chunk) n
        (subst (λ l. take (length (old ++ chunk)) l ≡ old ++ chunk) (append_assoc old chunk rest)
          (take-append (old ++ chunk) rest))

  abbrev stored : List ℕ → State c → State c
  stored chunk s = record s { self = append_chunk c chunk s.self }

  pub receive_fits :
      (status : TransactionStatus) (chunk : List ℕ) (s : State c)
      → s.self.cursor + length chunk ≤ length s.self.post_buffer
      → receive c status chunk s ≡ after_copy c status (stored chunk s)
  unfolding receive
  receive_fits status chunk s h =
      rw (le→ltb (length s.self.post_buffer) (length chunk + s.self.cursor) (omega arith))

  pub receive_overflows :
      (status : TransactionStatus) (chunk : List ℕ) (s : State c)
      → length s.self.post_buffer < s.self.cursor + length chunk
      → receive c status chunk s ≡ (returns enomem, reset_cursor c s)
  unfolding receive
  receive_overflows status chunk s h =
      rw (lt→ltb (length s.self.post_buffer) (length chunk + s.self.cursor) (omega arith))

  feed-cons :
      (d : List ℕ) (ds : List (List ℕ)) (s : State c)
      → s.self.cursor + length d ≤ length s.self.post_buffer
      → feed (d ∷ ds) s ≡ feed ds (stored d s)
  unfolding feed post_handler after_copy
  feed-cons d ds s h = rw (receive_fits other d s h)

  feed-cons_overflows :
      (d : List ℕ) (ds : List (List ℕ)) (s : State c)
      → length s.self.post_buffer < s.self.cursor + length d
      → feed (d ∷ ds) s ≡ (returns enomem, reset_cursor c s)
  unfolding feed post_handler
  feed-cons_overflows d ds s h = rw (receive_overflows other d s h)

  pub feed_lem :
      (ds : List (List ℕ)) (s : State c)
      → s.self.cursor + length (concat ds) ≤ length s.self.post_buffer
      → (buffer : List ℕ) × (length buffer ≡ length s.self.post_buffer)
        × (take (s.self.cursor + length (concat ds)) buffer
            ≡ take s.self.cursor s.self.post_buffer ++ concat ds)
        × (feed ds s ≡ (returns ok, holding s buffer (s.self.cursor + length (concat ds))))
  unfolding feed append_chunk
  feed_lem [] s h =
      let z : s.self.cursor + 0 ≡ s.self.cursor = omega arith in
      (
        s.self.post_buffer,
        refl,
        rw z (sym (append-nil (take s.self.cursor s.self.post_buffer))),
        rw z,
      )
  feed_lem (d ∷ ds) s h =
      let n = length-append d (concat ds) in
      let fits : s.self.cursor + length d ≤ length s.self.post_buffer = omega arith in
      let grown = length-append_chunk d s.self fits in
      let (buffer, same, held, run) = feed_lem ds (stored d s) (omega (arith, n, grown)) in
      let total : s.self.cursor + length d + length (concat ds)
          ≡ s.self.cursor + length (d ++ concat ds) =
        omega (arith, n) in
      let front : List ℕ = take s.self.cursor s.self.post_buffer in
      (
        buffer,
        same ∙ grown,
        subst (λ k. take k buffer ≡ front ++ (d ++ concat ds)) total
            (held
              ∙ ap (λ l. l ++ concat ds) (take-append_chunk d s.self fits)
              ∙ append_assoc front d (concat ds)),
        feed-cons d ds s fits ∙ run ∙ ap (λ k. (returns ok, holding s buffer k)) total,
      )

  pub feed_overflows :
      (ds : List (List ℕ)) (s : State c)
      → s.self.cursor ≤ length s.self.post_buffer
      → length s.self.post_buffer < s.self.cursor + length (concat ds)
      → (buffer : List ℕ) × (length buffer ≡ length s.self.post_buffer)
        × (feed ds s ≡ (returns enomem, holding s buffer 0))
  unfolding feed append_chunk
  feed_overflows [] s v h = absurd (omega arith)
  feed_overflows (d ∷ ds) s v h =
      elim (dec_le (s.self.cursor + length d) (length s.self.post_buffer)) [
        | yes fits ↦
            let grown = length-append_chunk d s.self fits in
            let n = length-append d (concat ds) in
            let (buffer, same, run) =
              feed_overflows ds (stored d s) (omega (arith, grown)) (omega (arith, n, grown)) in
            (buffer, same ∙ grown, feed-cons d ds s fits ∙ run)
        | no over ↦ (s.self.post_buffer, refl, feed-cons_overflows d ds s (omega arith))
      ]

  -- A body that fits the buffer reaches `UpdateSensorsConfig` whole and in order, however the
  -- server cuts it into chunks, and whatever earlier uploads left in the buffer.
  pub upload_lem :
      (ds : List (List ℕ)) (last : List ℕ) (s : State c)
      → s.self.cursor ≡ 0
      → length (concat ds) + length last ≤ length s.self.post_buffer
      → (t : State c) × (length t.self.post_buffer ≡ length s.self.post_buffer)
        × (t.response ≡ s.response)
        × (upload ds last s
            ≡ finish_upload c t (update_sensors_config c s.self (concat ds ++ last) s.world))
  unfolding upload post_handler after_copy update_sensors_config
  upload_lem ds last s start h =
      let (buffer, same, held, run) = feed_lem ds s (omega arith) in
      let mid = holding s buffer (s.self.cursor + length (concat ds)) in
      let fits : mid.self.cursor + length last ≤ length mid.self.post_buffer = omega arith in
      let body : take (append_chunk c last mid.self).cursor
            (append_chunk c last mid.self).post_buffer
          ≡ concat ds ++ last =
        take-append_chunk last mid.self fits ∙ ap (λ l. l ++ last) (held ∙ rw start) in
      (
        stored last mid,
        length-append_chunk last mid.self fits ∙ same,
        refl,
        rw (run, receive_fits final last mid fits, body),
      )

  -- A body that does not fit, sent where no upload is under way, is refused by -ENOMEM, with no call
  -- of a collaborator, an untouched reply and the cursor back at 0 for the next upload.
  pub upload_overflows :
      (ds : List (List ℕ)) (last : List ℕ) (s : State c)
      → s.self.cursor ≡ 0
      → length s.self.post_buffer < length (concat ds) + length last
      → (buffer : List ℕ) × (length buffer ≡ length s.self.post_buffer)
        × (upload ds last s ≡ (returns enomem, holding s buffer 0))
  unfolding upload post_handler
  upload_overflows ds last s start h =
      elim (dec_le (length (concat ds)) (length s.self.post_buffer)) [
        | yes fits ↦
            let (buffer, same, held, run) = feed_lem ds s (omega arith) in
            let mid = holding s buffer (s.self.cursor + length (concat ds)) in
            (buffer, same, rw (run, receive_overflows final last mid (omega arith)))
        | no over ↦
            let (buffer, same, run) = feed_overflows ds s (omega arith) (omega arith) in
            (buffer, same, rw run)
      ]
