-- ===== src/Animations/Particles/Faults.antt =====
-- ParticlesAnimation: where a frame is undefined behaviour.
use eerie_leap_rt.Common.{
  ℕ, ◌≡◌, refl, Bool, true, false, Option, none, some, List, [], ◌∷◌, ◌++◌, ◌⊎◌, inl, inr, Outcome,
  returns, throws, faults, Eff, deref, and_then,
}
use eerie_leap_rt.Animations.Floats.{Floats}
use eerie_leap_rt.Animations.Drawing.{Coordinate, Drawing, clear}
use eerie_leap_rt.Animations.Particles.{
  Dot, draw_if, progress, wave_sum, animate_dot, animate_dots, animate_sine_particles, animate,
}

module _ (f : Floats) (w h : ℕ) where
  open f use {Float}

  -- What the language says of a conversion to an unsigned type: a value of -1 or less has none.
  pub record IsUnsigned : Type 0 where
    pub negative :
        (x : Float) → f.le x (f.sub (f.of_nat 0) (f.of_nat 1)) ≡ true → f.to_uint16 x ≡ none

  -- The time of a frame, in units of 120 frames.
  abbrev pub time_of : ℕ → Float
  time_of frame = f.div (f.of_nat frame) (f.literal 120 0)

  abbrev pub two_turns : Float → Float
  two_turns time = f.mul (f.mul time (f.literal 314159265359 11)) (f.of_nat 2)

  -- Where a dot stands along the width, before it is converted.
  abbrev pub column : Float → Dot f → Float
  column time dot =
      let turn = f.mul (f.literal 314159265359 11) (f.of_nat 2) in
      f.mul (f.fmod (f.add time (f.div dot.phase_offset turn)) (f.literal 1 0)) (f.of_nat w)

  -- Seven times the sum of the dot's two sines at a column, before it is converted.
  abbrev pub height : Float → Dot f → ℕ → Float
  height time dot x =
      let rising = f.sin (
        f.add (f.mul (f.of_nat x) (f.add (f.literal 1 1) (f.mul dot.seed_x (f.literal 5 2))))
          (two_turns time)) in
      let falling = f.sin (
        f.sub (f.mul (f.of_nat x) (f.add (f.literal 15 2) (f.mul dot.seed_y (f.literal 5 2))))
          (f.mul (two_turns time) (f.literal 5 1))) in
      f.mul (f.add rising falling) (f.literal 7 0)

  animate_dot-eq-faults :
      (law : IsUnsigned) (time : Float) (dot : Dot f) (x : ℕ) (t : List Drawing)
      → f.to_uint16 (column time dot) ≡ some x
      → f.le (height time dot x) (f.sub (f.of_nat 0) (f.of_nat 1)) ≡ true
      → animate_dot f w h time dot t ≡ (faults, t)
  unfolding animate_dot
  animate_dot-eq-faults law time dot x t found negative =
      rw found (rw (law.negative (height time dot x) negative) refl)

  -- A dot is drawn, or left out, or the conversion faults.
  Goes : Outcome (Unit {0}) × List Drawing → Type 0
  Goes r = (r.0 ≡ returns tt) ⊎ (r.0 ≡ faults)

  draw_if-Goes : (b : Bool) (p : Coordinate) (t : List Drawing) → Goes (draw_if f w h b p t)
  unfolding Goes
  draw_if-Goes false p t = inl refl
  draw_if-Goes true p t = inl refl

  deref-Goes :
      (o : Option ℕ) (t : List Drawing) (next : ℕ → Eff (List Drawing) (Unit {0}))
      → ((m : ℕ) → Goes (next m t))
      → Goes (and_then (deref o t) next)
  unfolding Goes
  deref-Goes none t next k = inr refl
  deref-Goes (some m) t next k = k m

  animate_dot-Goes :
      (time : Float) (dot : Dot f) (t : List Drawing) → Goes (animate_dot f w h time dot t)
  unfolding animate_dot
  animate_dot-Goes time dot t =
      deref-Goes (f.to_uint16 (f.mul (progress f w h time dot) (f.of_nat w))) t _ (λ x.
        deref-Goes (f.to_uint16 (f.mul (wave_sum f w h time dot x) (f.literal 7 0))) t _
          (λ wave. draw_if-Goes _ _ t))

  then_faults :
      (r : Outcome (Unit {0}) × List Drawing) (next : Eff (List Drawing) (Unit {0}))
      → Goes r
      → ((t : List Drawing) → (next t).0 ≡ faults)
      → (and_then r (λ _. next)).0 ≡ faults
  unfolding Goes
  then_faults (returns u, t) next g k = k t
  then_faults (throws e, t) next (inl q) k = cc
  then_faults (throws e, t) next (inr q) k = q
  then_faults (faults, t) next g k = refl

  animate_dots-eq-faults :
      (law : IsUnsigned) (time : Float) (before after : List (Dot f)) (dot : Dot f) (x : ℕ)
      (t : List Drawing)
      → f.to_uint16 (column time dot) ≡ some x
      → f.le (height time dot x) (f.sub (f.of_nat 0) (f.of_nat 1)) ≡ true
      → (animate_dots f w h time (before ++ (dot ∷ after)) t).0 ≡ faults
  unfolding animate_dots
  animate_dots-eq-faults law time [] after dot x t found negative =
      rw (animate_dot-eq-faults law time dot x t found negative) refl
  animate_dots-eq-faults law time (d ∷ before) after dot x t found negative =
      then_faults (animate_dot f w h time d t) _ (animate_dot-Goes time d t)
        (λ t'. animate_dots-eq-faults law time before after dot x t' found negative)

  stays_faulty :
      {A : Type 0} (r : Outcome (Unit {0}) × List Drawing) (next : Unit {0} → Eff (List Drawing) A)
      → r.0 ≡ faults
      → (and_then r next).0 ≡ faults
  stays_faulty (returns u, t) next e = cc
  stays_faulty (throws error, t) next e = cc
  stays_faulty (faults, t) next e = refl

  -- A frame is undefined behaviour as soon as one of its dots, whose column can be converted, has
  -- there a sum of its two sines that is, times seven, -1 or less: that is converted to `uint16_t`
  -- before the middle of the screen is added.
  pub animate_faults :
      (law : IsUnsigned) (before after : List (Dot f)) (dot : Dot f) (frame x : ℕ)
      (t : List Drawing)
      → f.to_uint16 (column (time_of frame) dot) ≡ some x
      → f.le (height (time_of frame) dot x) (f.sub (f.of_nat 0) (f.of_nat 1)) ≡ true
      → (animate f w h (before ++ (dot ∷ after)) frame t).0 ≡ faults
  unfolding animate animate_sine_particles
  animate_faults law before after dot frame x t found negative =
      let run =
        animate_dots-eq-faults law (time_of frame) before after dot x (clear ∷ t) found negative in
      stays_faulty (animate_dots f w h (time_of frame) (before ++ (dot ∷ after)) (clear ∷ t)) _ run
