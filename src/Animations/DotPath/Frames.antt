-- ===== src/Animations/DotPath/Frames.antt =====
-- DotPathAnimation: any number of frames.
use eerie_leap_rt.Common.{
  ◌∙◌, ℕ, zero, suc, ◌<◌, ◌≡◌, refl, ap, List, returns, Eff, pure, and_then, ◌>>=◌, arith, ◌⊎◌, inl,
  inr,
}
use eerie_leap_rt.Animations.Floats.{Floats}
use eerie_leap_rt.Animations.Drawing.{Drawing}
use eerie_leap_rt.Animations.DotPath.{Random, DotPath, construct, initialize, animate}
use eerie_leap_rt.Animations.DotPath.Laws.{IsRounded}
use eerie_leap_rt.Animations.DotPath.Path.{IsDrawable, initialize-IsDrawable}
use eerie_leap_rt.Animations.DotPath.Dots.{IsStuck, animate_returns}

module _ (f : Floats) (r : Random f) (w h : ℕ) where
  -- A number of frames in a row.
  abbrev pub animate_frames : ℕ → DotPath f r → Eff (List Drawing) (DotPath f r)
  animate_frames zero s = pure s
  animate_frames (suc frames) s = animate f r w h s >>= animate_frames frames

  -- That many frames end, in a state that the next one can draw.
  pub record EndsAfter (frames : ℕ) (s : DotPath f r) (t : List Drawing) : Type 0 where
    pub state : DotPath f r
    pub trace : List Drawing
    pub frames_lem : animate_frames frames s t ≡ (returns state, trace)
    pub drawable : IsDrawable f r state

  -- One of the frames comes to a dot that cannot be converted; those before it end.
  pub record StopsWithin (frames : ℕ) (s : DotPath f r) (t : List Drawing) : Type 0 where
    pub frame : ℕ
    pub below : frame < frames
    pub before : EndsAfter frame s t
    pub stuck : IsStuck f r w h before.state

  StopsWithin-suc :
      (frames : ℕ) (s s' : DotPath f r) (t t' : List Drawing)
      → animate f r w h s t ≡ (returns s', t')
      → StopsWithin frames s' t'
      → StopsWithin (suc frames) s t
  StopsWithin-suc frames s s' t t' e stops = record {
    frame = suc stops.frame;
    below = let l = stops.below in omega arith;
    before = record {
      state = stops.before.state;
      trace = stops.before.trace;
      frames_lem = ap (λ r. and_then r (animate_frames stops.frame)) e ∙ stops.before.frames_lem;
      drawable = stops.before.drawable;
    };
    stuck = stops.stuck;
  }

  animate_frames_returns :
      (frames : ℕ) (s : DotPath f r) (t : List Drawing)
      → IsRounded f
      → IsDrawable f r s
      → StopsWithin frames s t ⊎ EndsAfter frames s t
  animate_frames_returns zero s t law d =
      inr (record { state = s; trace = t; frames_lem = refl; drawable = d })
  animate_frames_returns (suc frames) s t law d = elim (animate_returns f r w h s t law d) [
    | inl stuck ↦ inl (record {
      frame = 0;
      below = omega arith;
      before = record { state = s; trace = t; frames_lem = refl; drawable = d };
      stuck = stuck;
    })
    | inr (s', t', e, d') ↦ elim (animate_frames_returns frames s' t' law d') [
      | inl stops ↦ inl (StopsWithin-suc frames s s' t t' e stops)
      | inr run ↦ inr (record {
        state = run.state;
        trace = run.trace;
        frames_lem = ap (λ r. and_then r (animate_frames frames)) e ∙ run.frames_lem;
        drawable = run.drawable;
      })
    ]
  ]

  -- On floats that round as IEEE 754 has it, the frames after Initialize read only positions and
  -- sizes that the vectors have, whatever the generator gives: any number of frames ends, with at
  -- least 91 elements in both vectors and a time between 0 and 1, or one of them, after frames that
  -- end in the same way, comes to a dot with a coordinate or a radius that cannot be converted.
  pub animate_frames-initialize :
      (frames : ℕ) (t : List Drawing)
      → IsRounded f
      → StopsWithin frames (initialize f r w h (construct f r)) t
        ⊎ EndsAfter frames (initialize f r w h (construct f r)) t
  animate_frames-initialize frames t law =
      animate_frames_returns frames _ t law (initialize-IsDrawable f r w h law)
