-- ===== src/Animations/TaperedWave/Strokes.antt =====
-- TaperedWaveAnimation: how many lines a thick line is drawn with.
use eerie_leap_rt.Common.{
  ℕ, zero, suc, ◌+◌, ◌*◌, ◌≡◌, refl, ap, ◌∙◌, sym, length, false, ℤ, pos, sub_ℕ, some, List,
  returns, arith, and_then-eq-returns, deref-eq-returns,
}
use eerie_leap_rt.Animations.Floats.{Floats}
use eerie_leap_rt.Animations.Drawing.{Coordinate, Drawing}
use eerie_leap_rt.Animations.TaperedWave.{
  length_of, moved, draw_offset, draw_offsets, draw_parallel, draw_by_thickness, draw_thick_line,
}

module _ (f : Floats) where
  length-draw_offset :
      (p1 p2 : Coordinate) (offset : ℤ) (t t' : List Drawing)
      → draw_offset f p1 p2 offset t ≡ (returns tt, t')
      → length t' ≡ suc (length t)
  unfolding draw_offset
  length-draw_offset p1 p2 o t t' e =
      let perp_x = f.div (f.of_int (sub_ℕ p1.y p2.y)) (length_of f p1 p2) in
      let perp_y = f.div (f.of_int (sub_ℕ p2.x p1.x)) (length_of f p1 p2) in
      let (x, q, e1) = deref-eq-returns (f.to_uint16 (moved f p1.x o perp_x)) _ tt t t' e in
      let (y, q, e2) = deref-eq-returns (f.to_uint16 (moved f p1.y o perp_y)) _ tt t t' e1 in
      let (x', q, e3) = deref-eq-returns (f.to_uint16 (moved f p2.x o perp_x)) _ tt t t' e2 in
      let (y', q, e4) = deref-eq-returns (f.to_uint16 (moved f p2.y o perp_y)) _ tt t t' e3 in
      ap (λ r. length r.1) (sym e4)

  length-draw_offsets :
      (p1 p2 : Coordinate) (half n i : ℕ) (t t' : List Drawing)
      → draw_offsets f p1 p2 half n i t ≡ (returns tt, t')
      → length t' ≡ length t + n
  unfolding draw_offsets
  length-draw_offsets p1 p2 half zero i t t' e = omega (arith, ap (λ r. length r.1) e)
  length-draw_offsets p1 p2 half (suc n) i t t' e =
      let (u, t1, first, others) =
        and_then-eq-returns (draw_offset f p1 p2 (sub_ℕ i half) t) _ tt t' e in
      omega (
        arith,
        length-draw_offset p1 p2 (sub_ℕ i half) t t1 first,
        length-draw_offsets p1 p2 half n (suc i) t1 t' others,
      )

  -- A line thicker than 1.5, between points at least 0.1 apart, that is drawn to its end is drawn
  -- with an odd number of calls: one, and twice the half of the thickness, rounded to an integer.
  pub length-draw_thick_line :
      (p1 p2 : Coordinate) (thickness : f.Float) (half : ℕ) (t t' : List Drawing)
      → f.le thickness (f.literal 15 1) ≡ false
      → f.lt (length_of f p1 p2) (f.literal 1 1) ≡ false
      → f.to_int (f.div thickness (f.literal 2 0)) ≡ some (pos half)
      → draw_thick_line f p1 p2 thickness t ≡ (returns tt, t')
      → length t' ≡ length t + (half + 1 + half)
  unfolding draw_thick_line draw_by_thickness draw_parallel
  length-draw_thick_line p1 p2 thickness half t t' thick long rounded e =
      let run : draw_thick_line f p1 p2 thickness t ≡ draw_offsets f p1 p2 half (2 * half + 1) 0 t =
        rw (thick, draw_thick_line)
          (rw (rounded, draw_by_thickness) (rw (long, draw_parallel) refl)) in
      omega (arith, length-draw_offsets p1 p2 half (2 * half + 1) 0 t t' (sym run ∙ e))
