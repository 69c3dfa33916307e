-- ===== src/Animations/TaperedWave.antt =====
-- app/src/views/animations/tapered_wave_animation.{h,cpp}.
pub mod Strokes
pub mod Parallel
use eerie_leap_rt.Common.{
  ℕ, zero, suc, ◌+◌, ◌*◌, ◌-◌, Bool, true, false, ℤ, pos, negsuc, sub_ℕ, Option, none, some, List,
  [], ◌∷◌, Outcome, returns, throws, faults, Eff, pure, deref, and_then, ◌>>=◌, ◌>>◌,
}
use eerie_leap_rt.Animations.Floats.{Floats, pi}
use eerie_leap_rt.Animations.Drawing.{Coordinate, Drawing, clear, point, line, draw, in_bounds}

-- `n * n`.
abbrev square : ℤ → ℕ
square (pos n) = n * n
square (negsuc n) = suc n * suc n

module _ (f : Floats) where
  open f use {Float, literal, of_nat, of_int, add, sub, mul, div}

  abbrev pub length_of : Coordinate → Coordinate → Float
  length_of p1 p2 = f.sqrt (of_nat (square (sub_ℕ p2.x p1.x) + square (sub_ℕ p2.y p1.y)))

  -- A coordinate moved along the perpendicular vector.
  abbrev pub moved : ℕ → ℤ → Float → Float
  moved c offset perp = add (add (of_nat c) (mul (of_int offset) perp)) (literal 5 1)

  -- The parallel line at an offset.
  unfoldable pub draw_offset : Coordinate → Coordinate → ℤ → Eff (List Drawing) (Unit {0})
  draw_offset p1 p2 offset =
      let perp_x = div (of_int (sub_ℕ p1.y p2.y)) (length_of p1 p2) in
      let perp_y = div (of_int (sub_ℕ p2.x p1.x)) (length_of p1 p2) in
      do
        start_x ← deref (f.to_uint16 (moved p1.x offset perp_x))
        start_y ← deref (f.to_uint16 (moved p1.y offset perp_y))
        end_x ← deref (f.to_uint16 (moved p2.x offset perp_x))
        end_y ← deref (f.to_uint16 (moved p2.y offset perp_y))
        draw (line (record { x = start_x; y = start_y }) (record { x = end_x; y = end_y }))

  -- The offsets from `i - half_thickness` on.
  unfoldable pub draw_offsets : Coordinate → Coordinate → ℕ → ℕ → ℕ → Eff (List Drawing) (Unit {0})
  unfolding draw_offset
  draw_offsets p1 p2 half_thickness zero i = pure tt
  draw_offsets p1 p2 half_thickness (suc n) i =
      draw_offset p1 p2 (sub_ℕ i half_thickness) >> draw_offsets p1 p2 half_thickness n (suc i)

  -- From -half_thickness to half_thickness; none where it is negative.
  unfoldable pub draw_parallel : Coordinate → Coordinate → ℤ → Bool → Eff (List Drawing) (Unit {0})
  unfolding draw_offsets
  draw_parallel p1 p2 half_thickness true = draw (point p1)
  draw_parallel p1 p2 (pos n) false = draw_offsets p1 p2 n (2 * n + 1) 0
  draw_parallel p1 p2 (negsuc n) false = pure tt

  unfoldable pub draw_by_thickness :
      Coordinate → Coordinate → Float → Bool → Eff (List Drawing) (Unit {0})
  unfolding draw_parallel
  draw_by_thickness p1 p2 thickness true = draw (line p1 p2)
  draw_by_thickness p1 p2 thickness false = do
    half_thickness ← deref (f.to_int (div thickness (literal 2 0)))
    draw_parallel p1 p2 half_thickness (f.lt (length_of p1 p2) (literal 1 1))

  -- `DrawThickLine`.
  unfoldable pub draw_thick_line : Coordinate → Coordinate → Float → Eff (List Drawing) (Unit {0})
  unfolding draw_by_thickness
  draw_thick_line p1 p2 thickness =
      draw_by_thickness p1 p2 thickness (f.le thickness (literal 15 1))

  module _ (screen_width screen_height : ℕ) where
    abbrev normalized_position : ℕ → Float
    normalized_position i = div (of_nat i) (of_nat screen_width)

    abbrev pub wave_x : ℕ → Float
    wave_x i =
        add (div (of_nat screen_width) (literal 2 0)) (
          mul (sub (normalized_position i) (literal 5 1)) (mul (of_nat screen_width) (literal 9 1)))

    abbrev pub wave_y : Float → ℕ → Float
    wave_y time i = add (div (of_nat screen_height) (literal 2 0)) (
        mul (mul (of_nat screen_height) (literal 3 1))
          (f.sin (sub (mul (pi f) (normalized_position i)) (mul time (literal 15 3)))))

    abbrev pub weight : ℕ → Float
    weight i = add (literal 1 0) (
        mul (mul (literal 14 0) (normalized_position i))
          (sub (literal 1 0) (normalized_position i)))

    abbrev thick_from : Option Coordinate → Coordinate → Float → Eff (List Drawing) (Unit {0})
    thick_from none p thickness = pure tt
    thick_from (some q) p thickness = draw_thick_line q p thickness

    unfoldable pub draw_segment :
        Option Coordinate → Coordinate → Float → Bool → Eff (List Drawing) (Option Coordinate)
    unfolding draw_thick_line
    draw_segment prev p thickness false = pure none
    draw_segment prev p thickness true = thick_from prev p thickness >> pure (some p)

    -- `prev_point` where `has_prev` is set, for the columns from `i` on.
    unfoldable pub draw_columns : Float → ℕ → ℕ → Option Coordinate → Eff (List Drawing) (Unit {0})
    unfolding draw_segment
    draw_columns time zero i prev = pure tt
    draw_columns time (suc columns) i prev = do
      screen_x ← deref (f.to_uint16 (add (wave_x i) (literal 5 1)))
      screen_y ← deref (f.to_uint16 (add (wave_y time i) (literal 5 1)))
      next ←
          draw_segment prev (record { x = screen_x; y = screen_y }) (weight i)
            (in_bounds screen_width screen_height (record { x = screen_x; y = screen_y }))
      draw_columns time columns (suc i) next

    -- The constructor's `time_`.
    abbrev construct : Float
    construct = literal 0 0

    -- `Initialize`, from `time_` to `time_`.
    unfoldable pub initialize : Float → Float
    initialize time = literal 0 0

    -- `Animate`, from `time_` to `time_`.
    unfoldable pub animate : Float → Eff (List Drawing) Float
    unfolding draw_columns
    animate time = do
      cleared ← draw clear
      drawn ← draw_columns time (screen_width + 1) 0 none
      pure (add time (literal 10 0))
