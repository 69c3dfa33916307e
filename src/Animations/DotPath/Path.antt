-- ===== src/Animations/DotPath/Path.antt =====
-- DotPathAnimation: what Initialize leaves behind, and the time of the frames.
use eerie_leap_rt.Common.{
  ℕ, zero, suc, ◌+◌, ◌≤◌, ◌≡◌, refl, sym, ◌∙◌, subst, true, false, [], ◌∷◌, length, length-append,
  arith, Bool-cases, inl, inr,
}
use eerie_leap_rt.Animations.Floats.{Floats}
use eerie_leap_rt.Animations.DotPath.{
  Random, PVector, DotPath, construct, generate_path, initialize, push_dot, step,
}
use eerie_leap_rt.Animations.DotPath.Laws.{IsRounded, IsBetween}

module _ (f : Floats) (r : Random f) where
  -- The vectors have all the elements that a frame reads, and the time lies between 0 and 1.
  pub record IsDrawable (s : DotPath f r) : Type 0 where
    pub enough_positions : 91 ≤ length s.positions
    pub enough_sizes : 91 ≤ length s.sizes
    pub in_time : IsBetween f 0 1 s.time

  -- After some pushes.
  record Grows (n : ℕ) (s s' : DotPath f r) : Type 0 where
    positions_lem : length s'.positions ≡ length s.positions + n
    sizes_lem : length s'.sizes ≡ length s.sizes + n
    same_time : s'.time ≡ s.time

  push_dot-Grows :
      (p : PVector f) (size : f.Float) (rng : r.Rng) (s : DotPath f r)
      → Grows 1 s (push_dot f r p size rng s)
  push_dot-Grows p size rng s = record {
    positions_lem = length-append s.positions (p ∷ []);
    sizes_lem = length-append s.sizes (size ∷ []);
    same_time = refl;
  }

  Grows-trans :
      (m n : ℕ) (s s' s'' : DotPath f r) → Grows m s s' → Grows n s' s'' → Grows (m + n) s s''
  Grows-trans m n s s' s'' g k = record {
    positions_lem = let a = g.positions_lem in let b = k.positions_lem in omega arith;
    sizes_lem = let a = g.sizes_lem in let b = k.sizes_lem in omega arith;
    same_time = k.same_time ∙ g.same_time;
  }

  module _ (w h : ℕ) where
    generate_path-Grows :
        (jumps : ℕ) (p : PVector f) (s : DotPath f r)
        → Grows jumps s (generate_path f r w h jumps p s)
    unfolding generate_path
    generate_path-Grows zero p s = record {
      positions_lem = omega arith;
      sizes_lem = omega arith;
      same_time = refl;
    }
    generate_path-Grows (suc jumps) p s =
        subst (λ n. Grows n s (generate_path f r w h (suc jumps) p s)) (omega arith)
          (Grows-trans 1 jumps s _ _ (push_dot-Grows _ _ _ s) (generate_path-Grows jumps _ _))

    initialize-Grows : (s : DotPath f r) → Grows 91 s (initialize f r w h s)
    unfolding initialize
    initialize-Grows s =
        Grows-trans 1 90 s _ _ (push_dot-Grows _ _ _ s) (generate_path-Grows 90 _ _)

    -- A constructed object is drawable once it is initialized.
    pub initialize-IsDrawable : IsRounded f → IsDrawable (initialize f r w h (construct f r))
    unfolding construct
    initialize-IsDrawable law =
        let g = initialize-Grows (construct f r) in
        record {
          enough_positions = let a = g.positions_lem in omega arith;
          enough_sizes = let a = g.sizes_lem in omega arith;
          in_time = subst (IsBetween f 0 1) (sym (law.literal_nat 0) ∙ sym g.same_time) (record {
            above = law.le_nat 0 0 (omega arith);
            below = law.le_nat 0 1 (omega arith);
          });
        }

    -- The time stays between 0 and 1 from frame to frame.
    pub step-IsBetween :
        IsRounded f → (t : f.Float) → IsBetween f 0 1 t → IsBetween f 0 1 (step f r w h t)
    unfolding step
    step-IsBetween law t b =
        let next = f.add t (f.literal 2 2) in
        let one = law.literal_nat 1 in
        let above : f.le (f.of_nat 0) next ≡ true =
          subst (λ z. f.le z next ≡ true) (law.add_nat 0 0 (omega arith))
            (law.add_le (f.of_nat 0) t (f.of_nat 0) (f.literal 2 2) (law.le_nat 0 0 (omega arith))
              b.above (law.le_nat 0 0 (omega arith)) (law.zero_le 2 2)) in
        let below : f.le next (f.of_nat 2) ≡ true =
          subst (λ z. f.le next z ≡ true) (law.add_nat 1 1 (omega arith))
            (law.add_le t (f.of_nat 1) (f.literal 2 2) (f.of_nat 1) b.above b.below
              (law.zero_le 2 2) (law.le_one 2 2 (omega arith))) in
        elim (Bool-cases (f.le (f.literal 1 0) next)) [
          | inl e ↦ rw e (record {
            above =
                subst (λ z. f.le (f.of_nat 0) (f.sub next z) ≡ true) (sym one)
                  (subst (λ z. f.le z (f.sub next (f.of_nat 1)) ≡ true)
                    (law.sub_nat 1 1 (omega arith) (omega arith))
                    (law.sub_le (f.of_nat 1) next 1 (omega arith)
                      (subst (λ z. f.le z next ≡ true) one e)));
            below =
                subst (λ z. f.le (f.sub next z) (f.of_nat 1) ≡ true) (sym one)
                  (subst (λ z. f.le (f.sub next (f.of_nat 1)) z ≡ true)
                    (law.sub_nat 2 1 (omega arith) (omega arith))
                    (law.sub_le next (f.of_nat 2) 1 (omega arith) below));
          })
          | inr e ↦ rw e (record {
            above = above;
            below = law.le_total (f.of_nat 0) next 1 above (subst (λ z. f.le z next ≡ false) one e);
          })
        ]
