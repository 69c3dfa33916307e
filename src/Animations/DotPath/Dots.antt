-- ===== src/Animations/DotPath/Dots.antt =====
-- DotPathAnimation: that a frame stays in the vectors, and where it can fail.
use eerie_leap_rt.Common.{
  ℕ, zero, suc, ◌+◌, ◌≤◌, ◌<◌, ◌≡◌, refl, ap, Bool, true, false, none, some, List, [], ◌∷◌, length,
  get_elem?, returns, pure, and_then, arith, ◌⊎◌, inl, inr, Option-cases, Bool-cases,
}
use eerie_leap_rt.Animations.Floats.{Floats}
use eerie_leap_rt.Animations.Drawing.{Coordinate, Drawing, clear}
use eerie_leap_rt.Animations.DotPath.{
  Random, PVector, Placed, DotPath, get_position_and_size, draw_dot, draw_if, draw_placed,
  animate_dot, animate_dots, animate, step,
}
use eerie_leap_rt.Animations.DotPath.Laws.{IsRounded, IsBetween, to_int-float_index, dot-IsBetween}
use eerie_leap_rt.Animations.DotPath.Path.{IsDrawable, step-IsBetween}

get_elem?-some :
    {A : Type 0} (l : List A) (k : ℕ) → k < length l → (a : A) × (get_elem? l k ≡ some a)
get_elem?-some [] k h = absurd (omega arith)
get_elem?-some (a ∷ l) zero h = (a, refl)
get_elem?-some (a ∷ l) (suc k) h = get_elem?-some l k (omega arith)

module _ (f : Floats) where
  -- A coordinate or a radius that its integer type does not have.
  pub record IsUnconvertible (p : Placed f) : Type 0 where
    pub cause :
        (f.to_uint16 (f.add p.x (f.literal 5 1)) ≡ none)
        ⊎ (f.to_uint16 (f.add p.y (f.literal 5 1)) ≡ none)
        ⊎ (f.to_int (f.add (f.div p.size (f.literal 2 0)) (f.literal 5 1)) ≡ none)

  get_position_and_size_returns :
      (positions : List (PVector f)) (sizes : List f.Float) (p : f.Float) (t : List Drawing)
      → IsRounded f
      → 91 ≤ length positions
      → 91 ≤ length sizes
      → IsBetween f 0 1 p
      → (placed : Placed f) × (get_position_and_size f positions sizes p t ≡ (returns placed, t))
  unfolding get_position_and_size
  get_position_and_size_returns positions sizes p t law enough1 enough2 b =
      let (k, e, k≤89) = to_int-float_index f law p b in
      let (pos1, e1) = get_elem?-some positions k (omega arith) in
      let (pos2, e2) = get_elem?-some positions (k + 1) (omega arith) in
      let (size1, e3) = get_elem?-some sizes k (omega arith) in
      let (size2, e4) = get_elem?-some sizes (k + 1) (omega arith) in
      rw e (rw e1 (rw e2 (rw e3 (rw e4 (_, refl)))))

  draw_dot_returns :
      (c : Coordinate) (p : Placed f) (t : List Drawing)
      → IsUnconvertible p ⊎ ((t' : List Drawing) × (draw_dot f c p.size t ≡ (returns tt, t')))
  unfolding draw_dot
  draw_dot_returns c p t =
      elim (Option-cases (f.to_int (f.add (f.div p.size (f.literal 2 0)) (f.literal 5 1)))) [
        | inl e ↦ inl (record { cause = inr (inr e) })
        | inr (n, e) ↦ elim (Bool-cases (f.le p.size (f.literal 1 0))) [
          | inl q ↦ rw q (inr (_, refl))
          | inr q ↦ rw q (rw e (inr (_, refl)))
        ]
      ]

  module _ (r : Random f) (w h : ℕ) where
    draw_if_returns :
        (b : Bool) (c : Coordinate) (p : Placed f) (t : List Drawing)
        → IsUnconvertible p
          ⊎ ((t' : List Drawing) × (draw_if f r w h b c p.size t ≡ (returns tt, t')))
    draw_if_returns false c p t = inr (t, refl)
    draw_if_returns true c p t = draw_dot_returns c p t

    -- A dot whose position or size cannot be converted.
    pub record IsStuck (s : DotPath f r) : Type 0 where
      pub dot : ℕ
      pub placed : Placed f
      pub trace : List Drawing
      pub below : dot < 50
      pub placed_lem :
          get_position_and_size f s.positions s.sizes
            (f.div (f.add (f.of_nat dot) s.time) (f.of_nat 50))
            trace
          ≡ (returns placed, trace)
      pub unconvertible : IsUnconvertible placed

    draw_placed_returns :
        (p : Placed f) (t : List Drawing)
        → IsUnconvertible p ⊎ ((t' : List Drawing) × (draw_placed f r w h p t ≡ (returns tt, t')))
    unfolding draw_placed
    draw_placed_returns p t = elim (Option-cases (f.to_uint16 (f.add p.x (f.literal 5 1)))) [
      | inl e ↦ inl (record { cause = inl e })
      | inr (x, ex) ↦ elim (Option-cases (f.to_uint16 (f.add p.y (f.literal 5 1)))) [
        | inl e ↦ inl (record { cause = inr (inl e) })
        | inr (y, ey) ↦ rw ex (rw ey (draw_if_returns _ (record { x = x; y = y }) p t))
      ]
    ]

    animate_dot_returns :
        (s : DotPath f r) (i : ℕ) (t : List Drawing)
        → IsRounded f
        → IsDrawable f r s
        → i ≤ 49
        → IsStuck s ⊎ ((t' : List Drawing) × (animate_dot f r w h s i t ≡ (returns tt, t')))
    unfolding animate_dot
    animate_dot_returns s i t law d i≤49 =
        let (p, e) =
          get_position_and_size_returns s.positions s.sizes _ t law d.enough_positions
            d.enough_sizes (dot-IsBetween f law i s.time i≤49 d.in_time) in
        elim (draw_placed_returns p t) [
          | inl u ↦ inl (record {
            dot = i;
            placed = p;
            trace = t;
            below = omega arith;
            placed_lem = e;
            unconvertible = u;
          })
          | inr drawn ↦ rw e (inr drawn)
        ]

    animate_dots_returns :
        (s : DotPath f r) (dots i : ℕ) (t : List Drawing)
        → IsRounded f
        → IsDrawable f r s
        → i + dots ≤ 50
        → IsStuck s ⊎ ((t' : List Drawing) × (animate_dots f r w h s dots i t ≡ (returns tt, t')))
    unfolding animate_dots
    animate_dots_returns s zero i t law d h' = inr (t, refl)
    animate_dots_returns s (suc dots) i t law d h' =
        elim (animate_dot_returns s i t law d (omega arith)) [
          | inl stuck ↦ inl stuck
          | inr (t', e) ↦ rw e (animate_dots_returns s dots (suc i) t' law d (omega arith))
        ]

    -- A frame ends, or comes to such a dot.
    pub animate_returns :
        (s : DotPath f r) (t : List Drawing)
        → IsRounded f
        → IsDrawable f r s
        → IsStuck s
          ⊎ ((s' : DotPath f r) × (t' : List Drawing) × (animate f r w h s t ≡ (returns s', t'))
              × IsDrawable f r s')
    unfolding animate
    animate_returns s t law d = elim (animate_dots_returns s 50 0 (clear ∷ t) law d (omega arith)) [
      | inl stuck ↦ inl stuck
      | inr (t', e) ↦ inr (
        record s { time = step f r w h s.time },
        t',
        ap (λ drawn. and_then drawn (λ _. pure (record s { time = step f r w h s.time }))) e,
        record {
          enough_positions = d.enough_positions;
          enough_sizes = d.enough_sizes;
          in_time = step-IsBetween f r w h law s.time d.in_time;
        },
      )
    ]
