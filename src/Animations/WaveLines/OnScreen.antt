-- ===== src/Animations/WaveLines/OnScreen.antt =====
-- WaveLinesAnimation: where its drawings lie.
use eerie_leap_rt.Common.{
  ℕ, zero, suc, ◌≡◌, refl, Bool, true, false, Option, none, some, List, ◌∷◌, All, and_then, Outcome,
  deref, returns, throws, faults, Eff,
}
use eerie_leap_rt.Animations.Floats.{Floats}
use eerie_leap_rt.Animations.Drawing.{
  Coordinate, Drawing, clear, point, line, in_bounds, InBounds, in_bounds-InBounds, IsOnScreen, pen,
  IsConnected,
}
use eerie_leap_rt.Animations.WaveLines.{
  draw_segment, draw_columns, draw_wave_line, draw_lines, animate, wave_x, wave_y,
}

-- Every drawing lies on the screen, and every line goes on from the drawing before it.
pub record IsDrawn (w h : ℕ) (trace : List Drawing) : Type 0 where
  pub on_screen : All (IsOnScreen w h) trace
  pub connected : IsConnected trace

-- The previous point, if there is one, is where the pen is.
abbrev IsPrevious : ℕ → ℕ → Option Coordinate → List Drawing → Type 0
IsPrevious w h none trace = Unit
IsPrevious w h (some q) trace = (pen trace ≡ some q) × InBounds w h q

module _ (f : Floats) (w h : ℕ) where
  -- After a segment, the next point's column finds its previous point under the pen.
  draw_segment-IsDrawn :
      (prev : Option Coordinate) (p : Coordinate) (inside : Bool) (t : List Drawing)
      (next : Option Coordinate → Eff (List Drawing) (Unit {0}))
      → (inside ≡ true → InBounds w h p)
      → ((prev' : Option Coordinate) (t' : List Drawing)
          → IsDrawn w h t'
          → IsPrevious w h prev' t'
          → IsDrawn w h (next prev' t').1)
      → IsDrawn w h t
      → IsPrevious w h prev t
      → IsDrawn w h (and_then (draw_segment f w h prev p inside t) next).1
  unfolding draw_segment
  draw_segment-IsDrawn prev p false t next b k d q = k none t d tt
  draw_segment-IsDrawn none p true t next b k d q =
      k (some p) (point p ∷ t)
        (record { on_screen = (b refl, d.on_screen); connected = d.connected }) (refl, b refl)
  draw_segment-IsDrawn (some q) p true t next b k d (at, bounds) =
      k (some p) (line q p ∷ t)
        (record { on_screen = ((bounds, b refl), d.on_screen); connected = (at, d.connected) })
        (refl, b refl)

  deref-IsDrawn :
      (o : Option ℕ) (t : List Drawing) (next : ℕ → Eff (List Drawing) (Unit {0}))
      → IsDrawn w h t
      → ((n : ℕ) → IsDrawn w h (next n t).1)
      → IsDrawn w h (and_then (deref o t) next).1
  deref-IsDrawn none t next d k = d
  deref-IsDrawn (some n) t next d k = k n

  draw_columns-IsDrawn :
      (time : f.Float) (line_index columns i : ℕ) (prev : Option Coordinate) (t : List Drawing)
      → IsDrawn w h t
      → IsPrevious w h prev t
      → IsDrawn w h (draw_columns f w h time line_index columns i prev t).1
  unfolding draw_columns
  draw_columns-IsDrawn time l zero i prev t d q = d
  draw_columns-IsDrawn time l (suc n) i prev t d q =
      deref-IsDrawn (f.to_uint16 (f.add (wave_x f w h i) (f.literal 5 1))) t _ d (λ x.
        deref-IsDrawn (f.to_uint16 (f.add (wave_y f w h time l i) (f.literal 5 1))) t _ d (λ y.
          let p : Coordinate = record { x = x; y = y } in
          draw_segment-IsDrawn prev p (in_bounds w h p) t (draw_columns f w h time l n (suc i))
            (in_bounds-InBounds w h p) (draw_columns-IsDrawn time l n (suc i)) d q))

  and_then-IsDrawn :
      {A : Type 0} (r : Outcome (Unit {0}) × List Drawing) (next : Eff (List Drawing) A)
      → IsDrawn w h r.1
      → ((t : List Drawing) → IsDrawn w h t → IsDrawn w h (next t).1)
      → IsDrawn w h (and_then r (λ _. next)).1
  and_then-IsDrawn (returns u, t) next d k = k t d
  and_then-IsDrawn (throws e, t) next d k = d
  and_then-IsDrawn (faults, t) next d k = d

  draw_lines-IsDrawn :
      (time : f.Float) (lines line_index : ℕ) (t : List Drawing)
      → IsDrawn w h t
      → IsDrawn w h (draw_lines f w h time lines line_index t).1
  unfolding draw_lines draw_wave_line
  draw_lines-IsDrawn time zero l t d = d
  draw_lines-IsDrawn time (suc n) l t d =
      let at = f.add time (f.mul (f.of_nat l) (f.literal 15 2)) in
      and_then-IsDrawn (draw_wave_line f w h at l t) (draw_lines f w h time n (suc l))
        (draw_columns-IsDrawn at l w 0 none t d tt) (draw_lines-IsDrawn time n (suc l))

  -- Whatever the floats compute, a frame of the wave lines draws only points of the screen, and each
  -- of its lines starts where the drawing before it ended.
  pub animate-IsDrawn :
      (frame : ℕ) (t : List Drawing) → IsDrawn w h t → IsDrawn w h (animate f w h frame t).1
  unfolding animate
  animate-IsDrawn frame t d =
      let time = f.fmod (f.div (f.of_nat frame) (f.literal 100 0)) (f.literal 1 0) in
      let cleared : IsDrawn w h (clear ∷ t) = record {
        on_screen = (tt, d.on_screen);
        connected = d.connected;
      } in
      and_then-IsDrawn (draw_lines f w h time 4 0 (clear ∷ t)) _
        (draw_lines-IsDrawn time 4 0 (clear ∷ t) cleared) (λ t' d'. d')
