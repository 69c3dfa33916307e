-- ===== src/Canbus/Frame.antt =====
-- app/src/domain/canbus_domain/can_frame_builders/can_frame_dbc_builder.{h,cpp}: the frame of a
-- message, encoded from the sensor readings.
pub mod Build
use eerie_leap_rt.Common.{
  ℕ, ◌≡◌, ◌≢◌, refl, ap, Bool, Option, none, some, List, [], codes, Outcome, returns, throws,
  faults, Eff, pure, throw, deref, catching, ◌>>=◌, Ends, arith,
}
use eerie_leap_rt.Canbus.Platform.{Platform}

module _ (p : Platform) where
  open p use {World, Config, Float}

  -- A getter that may throw, and changes nothing.
  abbrev pub read {ℓ} : {A : Type ℓ} → Outcome A → Eff World A
  read o w = (o, w)

  abbrev pub dbc_or_throw : Option p.Dbc → Eff World p.Dbc
  dbc_or_throw none = throw (codes "DBC not loaded")
  dbc_or_throw (some d) = pure d

  abbrev or_zero : Option Float → Float
  or_zero none = p.float_zero
  or_zero (some x) = x

  -- The callback of `Build`: a signal without a reading is sent as zero.
  unfoldable pub reading_or_zero : World → ℕ → Float
  reading_or_zero w signal_name_hash = or_zero (p.try_get_reading_value signal_name_hash w)

  -- The body of the `try` block.
  unfoldable pub encode_frame : Config → ℕ → ℕ → Eff World (List ℕ)
  unfolding reading_or_zero
  encode_frame k bus_channel frame_id = do
    channel ← read (p.get_channel_configuration k bus_channel)
    configuration ← deref channel
    dbc ← dbc_or_throw (p.dbc configuration)
    found ← read (p.get_message dbc frame_id)
    message ← deref found
    λ w. p.encode_message message (reading_or_zero w) w

  -- `CanFrameDbcBuilder::Build`: an exception gives the empty frame.
  unfoldable pub build : Config → ℕ → ℕ → Eff World (List ℕ)
  unfolding encode_frame
  build k bus_channel frame_id w = catching (encode_frame k bus_channel frame_id w) (λ e. pure [])
