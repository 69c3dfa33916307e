-- ===== src/Animations/DotPath.antt =====
-- app/src/views/animations/dot_path_animation.{h,cpp}.
pub mod Laws
pub mod Path
pub mod Dots
pub mod Frames
mod Tests
use eerie_leap_rt.Common.{
  ℕ, zero, suc, ◌+◌, ◌≡◌, Bool, true, false, ◌&&◌, ltb, if◌then◌else◌, Option, none, some, List, [],
  ◌∷◌, ◌++◌, get_elem?, ◌==◌, ℤ, pos, negsuc, Outcome, returns, Eff, pure, deref, and_then, ◌>>=◌,
}
use eerie_leap_rt.Animations.Floats.{Floats, ease_with_gamma}
use eerie_leap_rt.Animations.Drawing.{Coordinate, Drawing, clear, point, circle, draw}

abbrev pub number_of_jumps : ℕ
number_of_jumps = 90

abbrev pub dot_count : ℕ
dot_count = 50

-- `std::uniform_real_distribution` and `std::uniform_int_distribution` over the generator `rng_`.
pub record Random (f : Floats) : Type 1 where
  pub Rng : Type 0
  pub seed : ℕ → Rng
  pub uniform_real : f.Float → f.Float → Rng → f.Float × Rng
  pub uniform_int : ℕ → ℕ → Rng → ℕ × Rng

module _ (f : Floats) where
  open f use {Float, literal, of_nat, add, sub, mul, div, lt, le}

  pub record PVector : Type 0 where
    pub x : Float
    pub y : Float

  -- `ApplyJump`; another direction leaves the point where it is.
  unfoldable pub apply_jump : PVector → Float → ℕ → PVector
  apply_jump p jump_length direction =
      let x = p.x in
      let y = p.y in
      let diagonal = mul jump_length (literal 707106781 9) in
      if direction == 0
      then record { x = add x jump_length; y = y }
      else if direction == 1
      then record { x = sub x jump_length; y = y }
      else if direction == 2
      then record { x = x; y = add y jump_length }
      else if direction == 3
      then record { x = x; y = sub y jump_length }
      else if direction == 4
      then record { x = add x diagonal; y = add y diagonal }
      else if direction == 5
      then record { x = sub x diagonal; y = add y diagonal }
      else if direction == 6
      then record { x = add x diagonal; y = sub y diagonal }
      else if direction == 7
      then record { x = sub x diagonal; y = sub y diagonal }
      else p

  -- `ClampToBounds` on one coordinate.
  unfoldable pub clamp : Float → Float → ℕ → Float → Float
  clamp v jump_length screen empty_margin =
      if lt (sub (of_nat screen) empty_margin) v
      then sub v (mul (of_nat 2) jump_length)
      else if lt v empty_margin
      then add v (mul (of_nat 2) jump_length)
      else v

  unfoldable pub clamp_to_bounds : PVector → Float → ℕ → ℕ → Float → PVector
  unfolding clamp
  clamp_to_bounds p jump_length screen_width screen_height empty_margin = record {
    x = clamp p.x jump_length screen_width empty_margin;
    y = clamp p.y jump_length screen_height empty_margin;
  }

  -- `v[i]` on a vector, which is undefined out of range.
  abbrev pub index : {A : Type 0} → List A → ℤ → Option A
  index l (pos i) = get_elem? l i
  index l (negsuc i) = none

  abbrev pub successor : ℤ → ℤ
  successor (pos i) = pos (i + 1)
  successor (negsuc zero) = pos 0
  successor (negsuc (suc i)) = negsuc i

  abbrev pub lerp : Float → Float → Float → Float
  lerp a b p = add a (mul (sub b a) p)

  abbrev pub float_index : Float → Float
  float_index p = mul (mul p (of_nat number_of_jumps)) (literal 9999 4)

  -- A position with its size.
  pub record Placed : Type 0 where
    pub x : Float
    pub y : Float
    pub size : Float

  -- `GetPositionAndSize`, over the two vectors.
  unfoldable pub get_position_and_size :
      List PVector → List Float → Float → Eff (List Drawing) Placed
  unfolding ease_with_gamma
  get_position_and_size positions sizes p = do
    i1 ← deref (f.to_int (float_index p))
    pos1 ← deref (index positions i1)
    pos2 ← deref (index positions (successor i1))
    size1 ← deref (index sizes i1)
    size2 ← deref (index sizes (successor i1))
    pure (
        let lerp_param = ease_with_gamma f (sub (float_index p) (f.of_int i1)) (literal 4 0) in
        record {
          x = lerp pos1.x pos2.x lerp_param;
          y = lerp pos1.y pos2.y lerp_param;
          size = lerp size1 size2 lerp_param;
        })

  -- `DrawDot`.
  unfoldable pub draw_dot : Coordinate → Float → Eff (List Drawing) (Unit {0})
  draw_dot p size = if le size (literal 1 0) then draw (point p) else do
    radius ← deref (f.to_int (add (div size (literal 2 0)) (literal 5 1)))
    draw (circle p radius)

  module _ (r : Random f) where
    pub record DotPath : Type 0 where
      pub time : Float
      pub positions : List PVector
      pub sizes : List Float
      pub rng : r.Rng

    -- The constructor.
    unfoldable pub construct : DotPath
    construct = record { time = literal 0 0; positions = []; sizes = []; rng = r.seed 1234 }

    abbrev pub size_of : ℕ → r.Rng → Float × r.Rng
    size_of zero rng = (literal 0 0, rng)
    size_of (suc jumps) rng = r.uniform_real (literal 5 1) (literal 25 1) rng

    -- `push_back` on both vectors.
    abbrev pub push_dot : PVector → Float → r.Rng → DotPath → DotPath
    push_dot p size rng s = record s {
      positions = s.positions ++ (p ∷ []);
      sizes = s.sizes ++ (size ∷ []);
      rng = rng;
    }

    module _ (screen_width screen_height : ℕ) where
      abbrev pub empty_margin : Float
      empty_margin =
          mul (of_nat (if ltb screen_height screen_width then screen_height else screen_width))
            (literal 1 1)

      -- `GeneratePath`, for the jumps that are left.
      unfoldable pub generate_path : ℕ → PVector → DotPath → DotPath
      unfolding apply_jump clamp_to_bounds
      generate_path zero p s = s
      generate_path (suc jumps) p s =
          let (jump_length, rng1) = r.uniform_real (literal 10 0) (literal 40 0) s.rng in
          let (direction, rng2) = r.uniform_int 0 7 rng1 in
          let (size, rng3) = size_of jumps rng2 in
          let q =
            clamp_to_bounds (apply_jump p jump_length direction) jump_length screen_width
              screen_height empty_margin in
          generate_path jumps q (push_dot q size rng3 s)

      -- `GenerateRandomPosition`.
      abbrev pub generate_random_position : Float → Float → r.Rng → Float × r.Rng
      generate_random_position min max rng = r.uniform_real min max rng

      unfoldable pub initialize : DotPath → DotPath
      unfolding generate_path
      initialize s =
          let (x, rng1) =
            generate_random_position empty_margin (sub (of_nat screen_width) empty_margin) s.rng in
          let (y, rng2) =
            generate_random_position empty_margin (sub (of_nat screen_height) empty_margin) rng1 in
          let p : PVector = record { x = x; y = y } in
          generate_path number_of_jumps p (push_dot p (literal 0 0) rng2 s)

      abbrev pub draw_if : Bool → Coordinate → Float → Eff (List Drawing) (Unit {0})
      draw_if false p size = pure tt
      draw_if true p size = draw_dot p size

      -- A dot of `Animate`, once its position is known.
      unfoldable pub draw_placed : Placed → Eff (List Drawing) (Unit {0})
      unfolding draw_dot
      draw_placed placed = do
        screen_x ← deref (f.to_uint16 (add placed.x (literal 5 1)))
        screen_y ← deref (f.to_uint16 (add placed.y (literal 5 1)))
        draw_if
            (lt placed.x (of_nat screen_width)
              && lt placed.y (of_nat screen_height)
              && lt (literal 1 1) placed.size)
            (record { x = screen_x; y = screen_y }) placed.size

      unfoldable pub animate_dot : DotPath → ℕ → Eff (List Drawing) (Unit {0})
      animate_dot s i = do
        placed ←
            get_position_and_size s.positions s.sizes
              (div (add (of_nat i) s.time) (of_nat dot_count))
        draw_placed placed

      unfoldable pub animate_dots : DotPath → ℕ → ℕ → Eff (List Drawing) (Unit {0})
      unfolding animate_dot
      animate_dots s zero i = pure tt
      animate_dots s (suc dots) i = do drawn ← animate_dot s i; animate_dots s dots (suc i)

      unfoldable pub step : Float → Float
      step time =
          let next = add time (literal 2 2) in
          if le (literal 1 0) next then sub next (literal 1 0) else next

      unfoldable pub animate : DotPath → Eff (List Drawing) DotPath
      animate s = do
        cleared ← draw clear
        drawn ← animate_dots s dot_count 0
        pure (record s { time = step s.time })
