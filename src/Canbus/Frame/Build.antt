-- ===== src/Canbus/Frame/Build.antt =====
-- app/src/domain/canbus_domain/can_frame_builders/can_frame_dbc_builder.cpp: what Build returns.
use eerie_leap_rt.Common.{
  ℕ, ◌≡◌, refl, ◌∙◌, ap, sym, fun_ext, deref, ◌↔◌, Option-cases, ◌>>=◌, ◌⊎◌, inl, inr, Option, none,
  some, List, [], Outcome, returns, throws, faults, Eff, catching, and_then, deref-eq-returns,
}
use eerie_leap_rt.Canbus.Platform.{Platform}
use eerie_leap_rt.Canbus.Frame.{build, encode_frame, reading_or_zero, dbc_or_throw}

module _ (p : Platform) where
  open p use {World, Config, Float}

  -- The value of a signal is its reading, or zero where it has none.
  pub record IsRead (w : World) (value : ℕ → Float) : Type 0 where
    pub present : (hash : ℕ) (x : Float) → p.try_get_reading_value hash w ≡ some x → value hash ≡ x
    pub absent : (hash : ℕ) → p.try_get_reading_value hash w ≡ none → value hash ≡ p.float_zero

  -- The frame is the encoding of a message of the channel's DBC, from the readings.
  pub record Encoded (k : Config) (bus_channel frame_id : ℕ) (w : World) (frame : List ℕ)
      (w' : World) : Type 0 where
    pub channel : p.Channel
    pub channel_lem : p.get_channel_configuration k bus_channel ≡ returns (some channel)
    pub dbc : p.Dbc
    pub dbc_lem : p.dbc channel ≡ some dbc
    pub message : p.DbcMessage
    pub message_lem : p.get_message dbc frame_id ≡ returns (some message)
    pub value : ℕ → Float
    pub value_lem : IsRead w value
    pub encoded : p.encode_message message value w ≡ (returns frame, w')

  -- What stops the encoding: a getter or the encoder throws, or the channel has no DBC.
  pub data Stopped (k : Config) (bus_channel frame_id : ℕ) (w w' : World) : Type 0 where
    no_configuration :
        (e : List ℕ)
        → p.get_channel_configuration k bus_channel ≡ throws e
        → w' ≡ w
        → Stopped k bus_channel frame_id w w'
    no_dbc :
        (channel : p.Channel)
        → p.get_channel_configuration k bus_channel ≡ returns (some channel)
        → p.dbc channel ≡ none
        → w' ≡ w
        → Stopped k bus_channel frame_id w w'
    no_message :
        (e : List ℕ) (channel : p.Channel) (dbc : p.Dbc)
        → p.get_channel_configuration k bus_channel ≡ returns (some channel)
        → p.dbc channel ≡ some dbc
        → p.get_message dbc frame_id ≡ throws e
        → w' ≡ w
        → Stopped k bus_channel frame_id w w'
    no_encoding :
        (e : List ℕ) (channel : p.Channel) (dbc : p.Dbc) (message : p.DbcMessage)
        (value : ℕ → Float)
        → p.get_channel_configuration k bus_channel ≡ returns (some channel)
        → p.dbc channel ≡ some dbc
        → p.get_message dbc frame_id ≡ returns (some message)
        → IsRead w value
        → p.encode_message message value w ≡ (throws e, w')
        → Stopped k bus_channel frame_id w w'

  reading_or_zero-IsRead : (w : World) → IsRead w (reading_or_zero p w)
  unfolding reading_or_zero
  reading_or_zero-IsRead w = record {
    present = λ hash x e. rw (e, reading_or_zero) refl;
    absent = λ hash e. rw (e, reading_or_zero) refl;
  }

  -- There is only one such value.
  IsRead-unique : (w : World) (value : ℕ → Float) → IsRead w value → value ≡ reading_or_zero p w
  unfolding reading_or_zero
  IsRead-unique w value r = fun_ext (λ hash. elim (Option-cases (p.try_get_reading_value hash w)) [
    | inl e ↦ r.absent hash e ∙ sym (rw (e, reading_or_zero) refl)
    | inr (x, e) ↦ r.present hash x e ∙ sym (rw (e, reading_or_zero) refl)
  ])

  dbc-eq-returns :
      {B : Type 0} (o : Option p.Dbc) (f : p.Dbc → Eff World B) (b : B) (w w' : World)
      → and_then (dbc_or_throw p o w) f ≡ (returns b, w')
      → (d : p.Dbc) × (o ≡ some d) × (f d w ≡ (returns b, w'))
  dbc-eq-returns none f b w w' h = cc
  dbc-eq-returns (some d) f b w w' h = (d, refl, h)

  read-eq-returns :
      {A : Type 0} {B : Type 0} (o : Outcome A) (f : A → Eff World B) (b : B) (w w' : World)
      → and_then (o, w) f ≡ (returns b, w')
      → (a : A) × (o ≡ returns a) × (f a w ≡ (returns b, w'))
  read-eq-returns (returns a) f b w w' h = (a, refl, h)
  read-eq-returns (throws e) f b w w' h = cc
  read-eq-returns faults f b w w' h = cc

  encode_frame-Encoded :
      (k : Config) (c f : ℕ) (w w' : World) (frame : List ℕ)
      → encode_frame p k c f w ≡ (returns frame, w')
      → Encoded k c f w frame w'
  unfolding encode_frame
  encode_frame-Encoded k c f w w' frame h =
      let (found, channel_lem, h1) =
        read-eq-returns (p.get_channel_configuration k c) _ frame w w' h in
      let (channel, some_lem, h2) = deref-eq-returns found _ frame w w' h1 in
      let (d, dbc_lem, h3) = dbc-eq-returns (p.dbc channel) _ frame w w' h2 in
      let (found', message_lem, h4) = read-eq-returns (p.get_message d f) _ frame w w' h3 in
      let (message, some_lem', h5) = deref-eq-returns found' _ frame w w' h4 in
      record {
        channel = channel;
        channel_lem = channel_lem ∙ ap returns some_lem;
        dbc = d;
        dbc_lem = dbc_lem;
        message = message;
        message_lem = message_lem ∙ ap returns some_lem';
        value = reading_or_zero p w;
        value_lem = reading_or_zero-IsRead w;
        encoded = h5;
      }

  -- The rest of the encoding, once the message is looked up, and once the DBC is.
  abbrev encode_found : Outcome (Option p.DbcMessage) → Eff World (List ℕ)
  encode_found found w =
      and_then (found, w)
        (λ o. deref o >>= λ message w1. p.encode_message message (reading_or_zero p w1) w1)

  abbrev encode_with : ℕ → Option p.Dbc → Eff World (List ℕ)
  encode_with frame_id o w =
      and_then (dbc_or_throw p o w) (λ dbc. encode_found (p.get_message dbc frame_id))

  abbrev encode_on : ℕ → Outcome (Option p.Channel) → Eff World (List ℕ)
  encode_on frame_id o w =
      and_then (o, w) (λ found. deref found >>= λ channel. encode_with frame_id (p.dbc channel))

  module _ (k : Config) (c f : ℕ) (e : List ℕ) (w w' : World) where
    encode_found-Stopped :
        (channel : p.Channel) (dbc : p.Dbc) (found : Outcome (Option p.DbcMessage))
        → p.get_channel_configuration k c ≡ returns (some channel)
        → p.dbc channel ≡ some dbc
        → p.get_message dbc f ≡ found
        → encode_found found w ≡ (throws e, w')
        → Stopped k c f w w'
    encode_found-Stopped channel dbc (returns (some message)) a b m h =
        no_encoding e channel dbc message (reading_or_zero p w) a b m (reading_or_zero-IsRead w) h
    encode_found-Stopped channel dbc (returns none) a b m h = cc
    encode_found-Stopped channel dbc (throws error) a b m h =
        no_message error channel dbc a b m (ap (λ x. x.1) (sym h))
    encode_found-Stopped channel dbc faults a b m h = cc

    encode_with-Stopped :
        (channel : p.Channel) (o : Option p.Dbc)
        → p.get_channel_configuration k c ≡ returns (some channel)
        → p.dbc channel ≡ o
        → encode_with f o w ≡ (throws e, w')
        → Stopped k c f w w'
    encode_with-Stopped channel none a b h = no_dbc channel a b (ap (λ x. x.1) (sym h))
    encode_with-Stopped channel (some dbc) a b h =
        encode_found-Stopped channel dbc (p.get_message dbc f) a b refl h

    encode_on-Stopped :
        (o : Outcome (Option p.Channel))
        → p.get_channel_configuration k c ≡ o
        → encode_on f o w ≡ (throws e, w')
        → Stopped k c f w w'
    encode_on-Stopped (returns (some channel)) a h =
        encode_with-Stopped channel (p.dbc channel) a refl h
    encode_on-Stopped (returns none) a h = cc
    encode_on-Stopped (throws error) a h = no_configuration error a (ap (λ x. x.1) (sym h))
    encode_on-Stopped faults a h = cc

  encode_frame-eq-throws :
      (k : Config) (c f : ℕ) (w w' : World) (e : List ℕ)
      → encode_frame p k c f w ≡ (throws e, w')
      → Stopped k c f w w'
  unfolding encode_frame
  encode_frame-eq-throws k c f w w' e h =
      encode_on-Stopped k c f e w w' (p.get_channel_configuration k c) refl h

  caught-eq-returns :
      (k : Config) (c f : ℕ) (r : Outcome (List ℕ) × World) (frame : List ℕ) (w w' : World)
      → encode_frame p k c f w ≡ r
      → catching r (λ e s. (returns [], s)) ≡ (returns frame, w')
      → Encoded k c f w frame w' ⊎ ((frame ≡ []) × Stopped k c f w w')
  caught-eq-returns k c f (returns a, s) frame w w' q h =
      inl (encode_frame-Encoded k c f w w' frame (q ∙ h))
  caught-eq-returns k c f (throws e, s) frame w w' q h =
      inr (cc, encode_frame-eq-throws k c f w w' e (q ∙ ap (λ x. (throws e, x.1)) h))
  caught-eq-returns k c f (faults, s) frame w w' q h = cc

  build-Encoded :
      (k : Config) (c f : ℕ) (w w' : World) (frame : List ℕ)
      → Encoded k c f w frame w'
      → build p k c f w ≡ (returns frame, w')
  unfolding build encode_frame
  build-Encoded k c f w w' frame d =
      let run =
        ap (λ v. p.encode_message d.message v w) (sym (IsRead-unique w d.value d.value_lem))
        ∙ d.encoded in
      rw (d.channel_lem, d.dbc_lem, d.message_lem) (rw run refl)

  build-Stopped :
      (k : Config) (c f : ℕ) (w w' : World)
      → Stopped k c f w w'
      → build p k c f w ≡ (returns [], w')
  unfolding build encode_frame
  build-Stopped k c f w w' (no_configuration e a s) = rw a (rw s refl)
  build-Stopped k c f w w' (no_dbc channel a b s) = rw (a, b) (rw s refl)
  build-Stopped k c f w w' (no_message e channel dbc a b m s) = rw (a, b, m) (rw s refl)
  build-Stopped k c f w w' (no_encoding e channel dbc message value a b m r q) =
      let run = ap (λ v. p.encode_message message v w) (sym (IsRead-unique w value r)) ∙ q in
      rw (a, b, m) (rw run refl)

  -- What Build returns: it returns a frame exactly where that is the encoding of the message that
  -- the DBC of the bus has under the frame's id, with each signal's reading, or zero where it has
  -- none; or where it is empty and the encoding stopped, because the channel has no DBC or the
  -- configuration, the DBC's lookup or the encoder threw. A channel or a message that is null is
  -- neither: there Build does not return.
  pub build_returns :
      (k : Config) (bus_channel frame_id : ℕ) (w w' : World) (frame : List ℕ)
      → (build p k bus_channel frame_id w ≡ (returns frame, w')) ↔ (
          Encoded k bus_channel frame_id w frame w'
          ⊎ ((frame ≡ []) × Stopped k bus_channel frame_id w w'))
  build_returns k c f w w' frame = (there, back)
    where
      there :
          build p k c f w ≡ (returns frame, w')
          → Encoded k c f w frame w' ⊎ ((frame ≡ []) × Stopped k c f w w')
      there h = caught-eq-returns k c f (encode_frame p k c f w) frame w w' refl (unfold build in h)

      back :
          Encoded k c f w frame w' ⊎ ((frame ≡ []) × Stopped k c f w w')
          → build p k c f w ≡ (returns frame, w')
      back (inl d) = build-Encoded k c f w w' frame d
      back (inr (e, s)) = rw e (build-Stopped k c f w w' s)
