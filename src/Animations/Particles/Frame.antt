-- ===== src/Animations/Particles/Frame.antt =====
-- ParticlesAnimation: what a frame draws.
use eerie_leap_rt.Common.{
  ℕ, zero, suc, ◌+◌, ◌/◌, ◌%◌, ◌^◌, ◌≤◌, ◌≡◌, refl, ap, sym, ◌∙◌, append_assoc, All-append,
  length-append, subst, length, Bool, true, false, Option, none, some, List, [], ◌∷◌, ◌++◌, All,
  Outcome, returns, throws, faults, Eff, deref, and_then, arith,
}
use eerie_leap_rt.Animations.Floats.{Floats}
use eerie_leap_rt.Animations.Drawing.{
  Coordinate, Drawing, point, clear, in_bounds, InBounds, in_bounds-InBounds,
}
use eerie_leap_rt.Animations.Particles.{
  initialize, seed_dots, Dot, draw_if, progress, wave_sum, animate_dot, animate_dots,
  animate_sine_particles, animate, seed_dots,
}

module _ (f : Floats) (w h : ℕ) where
  open f use {Float}

  -- A point of the screen.
  abbrev pub IsPoint : Drawing → Type 0
  IsPoint (point p) = InBounds w h p
  IsPoint _ = ⊥

  -- From one trace to another: at most `n` points of the screen were added.
  record Adds (n : ℕ) (t t' : List Drawing) : Type 0 where
    points : List Drawing
    added : t' ≡ points ++ t
    on_screen : All IsPoint points
    bound : length points ≤ n

  Adds-none : (n : ℕ) (t : List Drawing) → Adds n t t
  Adds-none n t = record { points = []; added = refl; on_screen = tt; bound = omega arith }

  Adds-then : (n m : ℕ) (t t1 t2 : List Drawing) → Adds n t t1 → Adds m t1 t2 → Adds (n + m) t t2
  Adds-then n m t t1 t2 a b = record {
    points = b.points ++ a.points;
    added = b.added ∙ ap (λ l. b.points ++ l) a.added ∙ sym (append_assoc b.points a.points t);
    on_screen = All-append IsPoint b.points a.points b.on_screen a.on_screen;
    bound = let c = a.bound in let d = b.bound in omega (arith, length-append b.points a.points);
  }

  draw_if-Adds :
      (b : Bool) (p : Coordinate) (t : List Drawing)
      → (b ≡ true → InBounds w h p)
      → Adds 1 t (draw_if f w h b p t).1
  draw_if-Adds false p t k = Adds-none 1 t
  draw_if-Adds true p t k = record {
    points = point p ∷ [];
    added = refl;
    on_screen = (k refl, tt);
    bound = omega arith;
  }

  deref-Adds :
      (n : ℕ) (o : Option ℕ) (t : List Drawing) (next : ℕ → Eff (List Drawing) (Unit {0}))
      → ((m : ℕ) → Adds n t (next m t).1)
      → Adds n t (and_then (deref o t) next).1
  deref-Adds n none t next k = Adds-none n t
  deref-Adds n (some m) t next k = k m

  animate_dot-Adds :
      (time : Float) (dot : Dot f) (t : List Drawing) → Adds 1 t (animate_dot f w h time dot t).1
  unfolding animate_dot
  animate_dot-Adds time dot t =
      deref-Adds 1 (f.to_uint16 (f.mul (progress f w h time dot) (f.of_nat w))) t _ (λ x.
        deref-Adds 1 (f.to_uint16 (f.mul (wave_sum f w h time dot x) (f.literal 7 0))) t _ (λ wave.
          let p : Coordinate = record { x = x; y = (h / 2 + wave) % 2 ^ 16 } in
          draw_if-Adds (in_bounds w h p) p t (in_bounds-InBounds w h p)))

  and_then-Adds :
      {A : Type 0} (n m : ℕ) (t : List Drawing) (r : Outcome (Unit {0}) × List Drawing)
      (next : Eff (List Drawing) A)
      → Adds n t r.1
      → ((t' : List Drawing) → Adds m t' (next t').1)
      → Adds (n + m) t (and_then r (λ _. next)).1
  and_then-Adds n m t (returns u, t') next d k = Adds-then n m t t' _ d (k t')
  and_then-Adds n m t (throws e, t') next d k = Adds-then n m t t' t' d (Adds-none m t')
  and_then-Adds n m t (faults, t') next d k = Adds-then n m t t' t' d (Adds-none m t')

  animate_dots-Adds :
      (time : Float) (dots : List (Dot f)) (t : List Drawing)
      → Adds (length dots) t (animate_dots f w h time dots t).1
  unfolding animate_dots
  animate_dots-Adds time [] t = Adds-none 0 t
  animate_dots-Adds time (dot ∷ dots) t =
      let one_more : 1 + length dots ≡ suc (length dots) = omega arith in
      subst (λ n. Adds n t (animate_dots f w h time (dot ∷ dots) t).1) one_more
        (and_then-Adds 1 (length dots) t (animate_dot f w h time dot t)
          (animate_dots f w h time dots) (animate_dot-Adds time dot t)
          (animate_dots-Adds time dots))

  -- Whatever the floats compute, a frame first clears the screen, and then draws only points, at most
  -- one for each dot, which all lie on the screen.
  pub animate-IsPoint :
      (dots : List (Dot f)) (frame : ℕ) (t : List Drawing)
      → (points : List Drawing) × ((animate f w h dots frame t).1 ≡ points ++ (clear ∷ t))
        × All IsPoint points
        × (length points ≤ length dots)
  unfolding animate animate_sine_particles
  animate-IsPoint dots frame t =
      let time = f.div (f.of_nat frame) (f.literal 120 0) in
      let a = animate_dots-Adds time dots (clear ∷ t) in
      let b =
        and_then-Adds (length dots) 0 (clear ∷ t) (animate_dots f w h time dots (clear ∷ t))
          (λ t'. (returns ((frame + 1) % 2 ^ 32), t')) a (Adds-none 0) in
      (b.points, b.added, b.on_screen, omega (arith, b.bound))

  length-seed_dots :
      {Rng : Type 0} (dist : Rng → Float × Rng) (n i : ℕ) (rng : Rng)
      → length (seed_dots f dist n i rng).0 ≡ n
  unfolding seed_dots
  length-seed_dots dist zero i rng = refl
  length-seed_dots dist (suc n) i rng = ap suc (length-seed_dots dist n (suc i) _)

  -- A frame of the dots that Initialize made is the clearing and at most 80 points.
  pub animate-initialize :
      {Rng : Type 0} (dist : Rng → Float × Rng) (rng : Rng) (frame : ℕ)
      → length (animate f w h (initialize f dist rng).0 frame []).1 ≤ 81
  unfolding initialize
  animate-initialize dist rng frame =
      let (points, drawn, _, bound) = animate-IsPoint (initialize f dist rng).0 frame [] in
      omega (
        arith,
        bound,
        length-seed_dots dist 80 0 rng,
        ap length drawn,
        length-append points (clear ∷ []),
      )
