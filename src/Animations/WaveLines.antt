-- ===== src/Animations/WaveLines.antt =====
-- app/src/views/animations/wave_lines_animation.{h,cpp}.
pub mod OnScreen
use eerie_leap_rt.Common.{
  ℕ, zero, suc, ◌+◌, ◌-◌, ◌*◌, ◌%◌, ◌^◌, Bool, true, false, if◌then◌else◌, Option, none, some, List,
  [], ◌∷◌, Outcome, returns, Eff, pure, deref, and_then, ◌>>=◌, ◌>>◌,
}
use eerie_leap_rt.Animations.Floats.{Floats, pi, ease_with_gamma}
use eerie_leap_rt.Animations.Drawing.{Coordinate, Drawing, clear, point, line, draw, in_bounds}

abbrev pub lines_count : ℕ
lines_count = 4

abbrev pub wave_count : ℕ
wave_count = 8

module _ (f : Floats) (screen_width screen_height : ℕ) where
  open f use {Float, literal, of_nat, add, sub, mul, div}

  abbrev normalized_position : ℕ → Float
  normalized_position i = div (of_nat i) (of_nat (screen_width - 1))

  abbrev y_center : ℕ → Float
  y_center line_index =
      div (mul (add (of_nat line_index) (literal 1 0)) (of_nat screen_height))
        (add (of_nat lines_count) (literal 1 0))

  abbrev max_amplitude : Float
  max_amplitude =
      div (mul (of_nat screen_height) (literal 12 1))
        (mul (literal 2 0) (add (of_nat lines_count) (literal 1 0)))

  abbrev pub wave_x : ℕ → Float
  wave_x i = mul (normalized_position i) (of_nat screen_width)

  -- The distance of a point from the centre.
  abbrev dist : Float → Float → Float
  dist x y =
      let dx = sub x (div (of_nat screen_width) (literal 2 0)) in
      let dy = sub y (div (of_nat screen_height) (literal 2 0)) in
      f.sqrt (add (mul dx dx) (mul dy dy))

  abbrev amplitude : Float → Float → Float
  amplitude time d =
      let cos_val =
        mul (f.cos (sub (mul (mul (pi f) (literal 2 0)) time) (mul (literal 2 2) d)))
          (literal 11 1) in
      mul (div (add cos_val (literal 1 0)) (literal 2 0))
        (f.exp (mul (sub (literal 0 0) (literal 4 3)) d))

  unfoldable pub wave_y : Float → ℕ → ℕ → Float
  unfolding ease_with_gamma
  wave_y time line_index i =
      let y = y_center line_index in
      let a = sub (literal 1 0) (amplitude time (dist (wave_x i) y)) in
      let wave_phase =
        mul (mul (mul (pi f) (literal 2 0)) (of_nat wave_count)) (normalized_position i) in
      add y (
        mul (mul (ease_with_gamma f (sub (literal 1 0) (mul a a)) (literal 3 0)) max_amplitude)
          (f.cos wave_phase))

  -- The bounds check: the segment from the previous point, if there is one, and the next one's.
  abbrev stroke : Option Coordinate → Coordinate → Drawing
  stroke none p = point p
  stroke (some q) p = line q p

  unfoldable pub draw_segment :
      Option Coordinate → Coordinate → Bool → Eff (List Drawing) (Option Coordinate)
  draw_segment prev p false trace = (returns none, trace)
  draw_segment prev p true trace = (returns (some p), stroke prev p ∷ trace)

  -- `prev_point` where `has_prev` is set, for the columns from `i` on.
  unfoldable pub draw_columns :
      Float → ℕ → ℕ → ℕ → Option Coordinate → Eff (List Drawing) (Unit {0})
  unfolding draw_segment wave_y
  draw_columns time line_index zero i prev = pure tt
  draw_columns time line_index (suc columns) i prev = do
    screen_x ← deref (f.to_uint16 (add (wave_x i) (literal 5 1)))
    screen_y ← deref (f.to_uint16 (add (wave_y time line_index i) (literal 5 1)))
    next ←
        draw_segment prev (record { x = screen_x; y = screen_y })
          (in_bounds screen_width screen_height (record { x = screen_x; y = screen_y }))
    draw_columns time line_index columns (suc i) next

  -- `DrawWaveLine`.
  unfoldable pub draw_wave_line : Float → ℕ → Eff (List Drawing) (Unit {0})
  unfolding draw_columns
  draw_wave_line time line_index = draw_columns time line_index screen_width 0 none

  unfoldable pub draw_lines : Float → ℕ → ℕ → Eff (List Drawing) (Unit {0})
  unfolding draw_wave_line
  draw_lines time zero line_index = pure tt
  draw_lines time (suc lines) line_index =
      draw_wave_line (add time (mul (of_nat line_index) (literal 15 2))) line_index
      >> draw_lines time lines (suc line_index)

  -- The constructor's `frame_`.
  abbrev construct : ℕ
  construct = 0

  -- `Initialize`, from `frame_` to `frame_`.
  unfoldable pub initialize : ℕ → ℕ
  initialize frame = 0

  -- `Animate`, from `frame_` to `frame_`.
  unfoldable pub animate : ℕ → Eff (List Drawing) ℕ
  unfolding draw_lines
  animate frame = do
    cleared ← draw clear
    drawn ← draw_lines (f.fmod (div (of_nat frame) (literal 100 0)) (literal 1 0)) lines_count 0
    pure ((frame + 3) % 2 ^ 32)
