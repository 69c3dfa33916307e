-- ===== src/Animations/TaperedWave/Parallel.antt =====
-- TaperedWaveAnimation: what a frame is made of.
use eerie_leap_rt.Common.{
  ℕ, zero, suc, ◌+◌, ◌*◌, ◌≡◌, refl, ◌⊎◌, inl, inr, Bool, true, false, ℤ, pos, negsuc, sub_ℕ,
  Option, none, some, List, ◌∷◌, All, Outcome, returns, throws, faults, Eff, and_then, deref, pure,
}
use eerie_leap_rt.Animations.Floats.{Floats}
use eerie_leap_rt.Animations.Drawing.{
  Coordinate, Drawing, clear, point, line, circle, in_bounds, InBounds, in_bounds-InBounds,
}
use eerie_leap_rt.Animations.TaperedWave.{
  length_of, moved, draw_offset, draw_offsets, draw_parallel, draw_by_thickness, draw_thick_line,
  draw_segment, draw_columns, animate, wave_x, wave_y, weight,
}

module _ (f : Floats) where
  -- The line from `a` to `b` is the one from `p` to `q`, moved by a multiple of the vector of length 1
  -- that stands upright on it, and cut to whole coordinates.
  pub record IsBeside (p q : Coordinate) (offset : ℤ) (a b : Coordinate) : Type 0 where
    pub start_x :
        f.to_uint16 (moved f p.x offset (f.div (f.of_int (sub_ℕ p.y q.y)) (length_of f p q)))
        ≡ some a.x
    pub start_y :
        f.to_uint16 (moved f p.y offset (f.div (f.of_int (sub_ℕ q.x p.x)) (length_of f p q)))
        ≡ some a.y
    pub end_x :
        f.to_uint16 (moved f q.x offset (f.div (f.of_int (sub_ℕ p.y q.y)) (length_of f p q)))
        ≡ some b.x
    pub end_y :
        f.to_uint16 (moved f q.y offset (f.div (f.of_int (sub_ℕ q.x p.x)) (length_of f p q)))
        ≡ some b.y

  -- A line between two points of the screen, or one beside it.
  pub record IsStroke (w h : ℕ) (a b : Coordinate) : Type 0 where
    pub p : Coordinate
    pub q : Coordinate
    pub p_inside : InBounds w h p
    pub q_inside : InBounds w h q
    pub beside : ((a ≡ p) × (b ≡ q)) ⊎ ((offset : ℤ) × IsBeside p q offset a b)

  module _ (w h : ℕ) where
    abbrev pub IsPart : Drawing → Type 0
    IsPart clear = Unit
    IsPart (point p) = InBounds w h p
    IsPart (line a b) = IsStroke w h a b
    IsPart (circle p radius) = ⊥

    deref-IsPart :
        {A : Type 0} (o : Option ℕ) (t : List Drawing) (next : ℕ → Eff (List Drawing) A)
        → All IsPart t
        → ((n : ℕ) → o ≡ some n → All IsPart (next n t).1)
        → All IsPart (and_then (deref o t) next).1
    deref-IsPart none t next d k = d
    deref-IsPart (some n) t next d k = k n refl

    and_then-IsPart :
        {A : Type 0} (r : Outcome (Unit {0}) × List Drawing) (next : Eff (List Drawing) A)
        → All IsPart r.1
        → ((t : List Drawing) → All IsPart t → All IsPart (next t).1)
        → All IsPart (and_then r (λ _. next)).1
    and_then-IsPart (returns u, t) next d k = k t d
    and_then-IsPart (throws e, t) next d k = d
    and_then-IsPart (faults, t) next d k = d

    draw_offset-IsPart :
        (p q : Coordinate) (offset : ℤ) (t : List Drawing)
        → InBounds w h p
        → InBounds w h q
        → All IsPart t
        → All IsPart (draw_offset f p q offset t).1
    unfolding draw_offset
    draw_offset-IsPart p q offset t bp bq d = deref-IsPart _ t _ d (λ x ex.
        deref-IsPart _ t _ d (λ y ey. deref-IsPart _ t _ d (λ x' ex'.
          deref-IsPart _ t _ d (λ y' ey'.
            let stroke : IsStroke w h (record { x = x; y = y }) (record { x = x'; y = y' }) =
              record {
                p = p;
                q = q;
                p_inside = bp;
                q_inside = bq;
                beside =
                    inr (offset, record { start_x = ex; start_y = ey; end_x = ex'; end_y = ey' });
              } in
            (stroke, d)))))

    draw_offsets-IsPart :
        (p q : Coordinate) (half n i : ℕ) (t : List Drawing)
        → InBounds w h p
        → InBounds w h q
        → All IsPart t
        → All IsPart (draw_offsets f p q half n i t).1
    unfolding draw_offsets
    draw_offsets-IsPart p q half zero i t bp bq d = d
    draw_offsets-IsPart p q half (suc n) i t bp bq d =
        and_then-IsPart (draw_offset f p q (sub_ℕ i half) t) (draw_offsets f p q half n (suc i))
          (draw_offset-IsPart p q (sub_ℕ i half) t bp bq d)
          (λ t' d'. draw_offsets-IsPart p q half n (suc i) t' bp bq d')

    draw_parallel-IsPart :
        (p q : Coordinate) (half : ℤ) (short : Bool) (t : List Drawing)
        → InBounds w h p
        → InBounds w h q
        → All IsPart t
        → All IsPart (draw_parallel f p q half short t).1
    unfolding draw_parallel
    draw_parallel-IsPart p q half true t bp bq d = (bp, d)
    draw_parallel-IsPart p q (pos n) false t bp bq d =
        draw_offsets-IsPart p q n (2 * n + 1) 0 t bp bq d
    draw_parallel-IsPart p q (negsuc n) false t bp bq d = d

    draw_by_thickness-IsPart :
        (p q : Coordinate) (thickness : f.Float) (thin : Bool) (t : List Drawing)
        → InBounds w h p
        → InBounds w h q
        → All IsPart t
        → All IsPart (draw_by_thickness f p q thickness thin t).1
    unfolding draw_by_thickness
    draw_by_thickness-IsPart p q thickness true t bp bq d =
        let stroke : IsStroke w h p q = record {
          p = p;
          q = q;
          p_inside = bp;
          q_inside = bq;
          beside = inl (refl, refl);
        } in
        (stroke, d)
    draw_by_thickness-IsPart p q thickness false t bp bq d =
        half (f.to_int (f.div thickness (f.literal 2 0)))
      where
        half :
            (o : Option ℤ)
            → All IsPart
                (and_then
                  (deref o t)
                  (λ n. draw_parallel f p q n (f.lt (length_of f p q) (f.literal 1 1)))).1
        half none = d
        half (some n) =
            draw_parallel-IsPart p q n (f.lt (length_of f p q) (f.literal 1 1)) t bp bq d

    -- The previous point, if there is one, is on the screen.
    abbrev IsPrevious : Option Coordinate → Type 0
    IsPrevious none = Unit
    IsPrevious (some q) = InBounds w h q

    -- A segment that ended, and what goes on from its end.
    segment-IsPart :
        (r : Outcome (Unit {0}) × List Drawing) (p : Coordinate)
        (next : Option Coordinate → Eff (List Drawing) (Unit {0}))
        → All IsPart r.1
        → ((t : List Drawing) → All IsPart t → All IsPart (next (some p) t).1)
        → All IsPart (and_then (and_then r (λ _. pure (some p))) next).1
    segment-IsPart (returns u, t) p next d k = k t d
    segment-IsPart (throws e, t) p next d k = d
    segment-IsPart (faults, t) p next d k = d

    draw_segment-IsPart :
        (prev : Option Coordinate) (p : Coordinate) (thickness : f.Float) (inside : Bool)
        (t : List Drawing) (next : Option Coordinate → Eff (List Drawing) (Unit {0}))
        → (inside ≡ true → InBounds w h p)
        → IsPrevious prev
        → All IsPart t
        → ((prev' : Option Coordinate) (t' : List Drawing)
            → IsPrevious prev'
            → All IsPart t'
            → All IsPart (next prev' t').1)
        → All IsPart (and_then (draw_segment f w h prev p thickness inside t) next).1
    unfolding draw_segment draw_thick_line
    draw_segment-IsPart prev p thickness false t next b v d k = k none t tt d
    draw_segment-IsPart none p thickness true t next b v d k = k (some p) t (b refl) d
    draw_segment-IsPart (some q) p thickness true t next b v d k =
        segment-IsPart (draw_thick_line f q p thickness t) p next
          (draw_by_thickness-IsPart q p thickness (f.le thickness (f.literal 15 1)) t v (b refl) d)
          (λ t' d'. k (some p) t' (b refl) d')

    draw_columns-IsPart :
        (time : f.Float) (columns i : ℕ) (prev : Option Coordinate) (t : List Drawing)
        → IsPrevious prev
        → All IsPart t
        → All IsPart (draw_columns f w h time columns i prev t).1
    unfolding draw_columns
    draw_columns-IsPart time zero i prev t v d = d
    draw_columns-IsPart time (suc n) i prev t v d =
        deref-IsPart (f.to_uint16 (f.add (wave_x f w h i) (f.literal 5 1))) t _ d (λ x _.
          deref-IsPart (f.to_uint16 (f.add (wave_y f w h time i) (f.literal 5 1))) t _ d (λ y _.
            let p : Coordinate = record { x = x; y = y } in
            draw_segment-IsPart prev p (weight f w h i) (in_bounds w h p) t
              (draw_columns f w h time n (suc i)) (in_bounds-InBounds w h p) v d
              (draw_columns-IsPart time n (suc i))))

    -- Whatever the floats compute, a frame of the tapered wave consists of points on the screen and
    -- of lines, each of which joins two points on the screen, or such a line moved sideways, both ends
    -- by the same multiple of its upright vector.
    pub animate-IsPart :
        (time : f.Float) (t : List Drawing) → All IsPart t → All IsPart (animate f w h time t).1
    unfolding animate
    animate-IsPart time t d =
        and_then-IsPart (draw_columns f w h time (w + 1) 0 none (clear ∷ t))
          (pure (f.add time (f.literal 10 0)))
          (draw_columns-IsPart time (w + 1) 0 none (clear ∷ t) tt (tt, d)) (λ t' d'. d')
