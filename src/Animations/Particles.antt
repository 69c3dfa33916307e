-- ===== src/Animations/Particles.antt =====
-- app/src/views/animations/particles_animation.{h,cpp}.
pub mod Frame
pub mod Faults
use eerie_leap_rt.Common.{
  ℕ, zero, suc, ◌+◌, ◌*◌, ◌/◌, ◌%◌, ◌^◌, ◌≡◌, refl, ap, ◌∙◌, length, Bool, true, false,
  if◌then◌else◌, Option, none, some, List, [], ◌∷◌, All, Outcome, returns, throws, faults, Eff,
  pure, deref, and_then, ◌>>=◌, ◌>>◌, arith, Option-cases, Bool-cases, inl, inr,
}
use eerie_leap_rt.Animations.Floats.{Floats, pi}
use eerie_leap_rt.Animations.Drawing.{
  Coordinate, Drawing, clear, point, draw, in_bounds, in_bounds-InBounds, IsOnScreen,
}

abbrev pub num_dots : ℕ
num_dots = 80

module _ (f : Floats) where
  open f use {Float, literal, of_nat, add, sub, mul, div}

  pub record Dot : Type 0 where
    pub seed_x : Float
    pub seed_y : Float
    pub phase_offset : Float

  -- The constructor's `frame_` and `rng_`, of a generator by its seed.
  abbrev construct : {Rng : Type 0} → (ℕ → Rng) → ℕ × Rng
  construct seed = (0, seed 1234)

  module _ {Rng : Type 0} (dist : Rng → Float × Rng) where
    -- `Initialize`: `dist` is the uniform distribution on [0, 10) over the generator `rng_`. The
    -- static array has its dots in the order of their index.
    unfoldable pub seed_dots : ℕ → ℕ → Rng → List Dot × Rng
    seed_dots zero i rng = ([], rng)
    seed_dots (suc n) i rng =
        let (seed_x, rng1) = dist rng in
        let (seed_y, rng2) = dist rng1 in
        let (dots, rng3) = seed_dots n (suc i) rng2 in
        (
          record {
            seed_x = seed_x;
            seed_y = seed_y;
            phase_offset = mul (mul (div (of_nat i) (of_nat num_dots)) (pi f)) (of_nat 2);
          }
              ∷ dots,
          rng3,
        )

    unfoldable pub initialize : Rng → List Dot × Rng
    unfolding seed_dots
    initialize rng = seed_dots num_dots 0 rng

  module _ (x_res y_res : ℕ) where
    abbrev pub draw_if : Bool → Coordinate → Eff (List Drawing) (Unit {0})
    draw_if false p = pure tt
    draw_if true p = draw (point p)

    abbrev two_pi : Float
    two_pi = mul (pi f) (of_nat 2)

    abbrev pub progress : Float → Dot → Float
    progress time dot = f.fmod (add time (div dot.phase_offset two_pi)) (literal 1 0)

    abbrev pub wave_sum : Float → Dot → ℕ → Float
    wave_sum time dot x =
        let freq1 = add (literal 1 1) (mul dot.seed_x (literal 5 2)) in
        let freq2 = add (literal 15 2) (mul dot.seed_y (literal 5 2)) in
        let wave1 = f.sin (add (mul (of_nat x) freq1) (mul (mul time (pi f)) (of_nat 2))) in
        let wave2 =
          f.sin
            (sub (mul (of_nat x) freq2) (mul (mul (mul time (pi f)) (of_nat 2)) (literal 5 1))) in
        add wave1 wave2

    -- The loop's body. The sum for `y` wraps around in its `uint16_t`.
    unfoldable pub animate_dot : Float → Dot → Eff (List Drawing) (Unit {0})
    animate_dot time dot = do
      x ← deref (f.to_uint16 (mul (progress time dot) (of_nat x_res)))
      wave ← deref (f.to_uint16 (mul (wave_sum time dot x) (literal 7 0)))
      draw_if (in_bounds x_res y_res (record { x = x; y = (y_res / 2 + wave) % 2 ^ 16 }))
          (record { x = x; y = (y_res / 2 + wave) % 2 ^ 16 })

    unfoldable pub animate_dots : Float → List Dot → Eff (List Drawing) (Unit {0})
    unfolding animate_dot
    animate_dots time [] = pure tt
    animate_dots time (dot ∷ dots) = animate_dot time dot >> animate_dots time dots

    -- `AnimateSineParticles`.
    unfoldable pub animate_sine_particles : List Dot → ℕ → Eff (List Drawing) (Unit {0})
    unfolding animate_dots
    animate_sine_particles dots frame = animate_dots (div (of_nat frame) (literal 120 0)) dots

    -- `Animate`, from `frame_` to `frame_`.
    unfoldable pub animate : List Dot → ℕ → Eff (List Drawing) ℕ
    unfolding animate_sine_particles
    animate dots frame = do
      cleared ← draw clear
      drawn ← animate_sine_particles dots frame
      pure ((frame + 1) % 2 ^ 32)
