-- ===== src/Animations/DotPath/Laws.antt =====
-- DotPathAnimation: what its indices need of the machine's floats, which IEEE 754 gives for binary32.
use eerie_leap_rt.Common.{
  ℕ, ◌+◌, ◌-◌, ◌*◌, ◌^◌, ◌≤◌, ◌<◌, ◌≡◌, subst, true, false, some, pos, arith,
}
use eerie_leap_rt.Animations.Floats.{Floats}
use eerie_leap_rt.Animations.DotPath.{float_index}

-- Whole numbers up to 2 ^ 24 are exact, and rounding keeps the order. The bounds exclude NaN and the
-- overflow to an infinity.
pub record IsRounded (f : Floats) : Type 0 where
  pub literal_nat : (n : ℕ) → f.literal n 0 ≡ f.of_nat n
  pub add_nat : (a b : ℕ) → a + b ≤ 2 ^ 24 → f.add (f.of_nat a) (f.of_nat b) ≡ f.of_nat (a + b)
  pub sub_nat : (a b : ℕ) → b ≤ a → a ≤ 2 ^ 24 → f.sub (f.of_nat a) (f.of_nat b) ≡ f.of_nat (a - b)
  pub mul_nat : (a b : ℕ) → a * b ≤ 2 ^ 24 → f.mul (f.of_nat a) (f.of_nat b) ≡ f.of_nat (a * b)
  pub div_nat :
      (q b : ℕ) → 0 < b → q * b ≤ 2 ^ 24 → f.div (f.of_nat (q * b)) (f.of_nat b) ≡ f.of_nat q
  pub zero_mul : (m e : ℕ) → f.mul (f.of_nat 0) (f.literal m e) ≡ f.of_nat 0
  pub le_nat : (m n : ℕ) → m ≤ n → f.le (f.of_nat m) (f.of_nat n) ≡ true
  pub zero_le : (m e : ℕ) → f.le (f.of_nat 0) (f.literal m e) ≡ true
  pub le_one : (m e : ℕ) → m ≤ 10 ^ e → f.le (f.literal m e) (f.of_nat 1) ≡ true
  pub le_trans : (a b c : f.Float) → f.le a b ≡ true → f.le b c ≡ true → f.le a c ≡ true
  pub le_total :
      (a b : f.Float) (n : ℕ)
      → f.le a b ≡ true
      → f.le (f.of_nat n) b ≡ false
      → f.le b (f.of_nat n) ≡ true
  pub add_le :
      (a b c d : f.Float)
      → f.le (f.of_nat 0) a ≡ true
      → f.le a b ≡ true
      → f.le (f.of_nat 0) c ≡ true
      → f.le c d ≡ true
      → f.le (f.add a c) (f.add b d) ≡ true
  pub sub_le :
      (a b : f.Float) (n : ℕ)
      → n ≤ 2 ^ 24
      → f.le a b ≡ true
      → f.le (f.sub a (f.of_nat n)) (f.sub b (f.of_nat n)) ≡ true
  pub mul_le :
      (a b : f.Float) (m e : ℕ)
      → f.le (f.of_nat 0) a ≡ true
      → f.le a b ≡ true
      → f.le b (f.of_nat 100) ≡ true
      → f.le (f.mul a (f.literal m e)) (f.mul b (f.literal m e)) ≡ true
  pub div_le :
      (a b : f.Float) (n : ℕ)
      → 0 < n
      → n ≤ 2 ^ 24
      → f.le a b ≡ true
      → f.le (f.div a (f.of_nat n)) (f.div b (f.of_nat n)) ≡ true
  -- The conversion cuts off the fraction.
  pub to_int_nat : (n : ℕ) → n ≤ 2 ^ 24 → f.to_int (f.of_nat n) ≡ some (pos n)
  pub to_int_last : f.to_int (f.mul (f.of_nat 90) (f.literal 9999 4)) ≡ some (pos 89)
  pub to_int_le :
      (a b c : f.Float) (m n : ℕ)
      → f.le a b ≡ true
      → f.le b c ≡ true
      → f.to_int a ≡ some (pos m)
      → f.to_int c ≡ some (pos n)
      → (k : ℕ) × (f.to_int b ≡ some (pos k)) × (m ≤ k) × (k ≤ n)

-- Between two whole numbers.
pub record IsBetween (f : Floats) (m n : ℕ) (a : f.Float) : Type 0 where
  pub above : f.le (f.of_nat m) a ≡ true
  pub below : f.le a (f.of_nat n) ≡ true

module _ (f : Floats) (law : IsRounded f) where
  abbrev Le : f.Float → f.Float → Type 0
  Le a b = f.le a b ≡ true

  add-IsBetween :
      (i n : ℕ) (t : f.Float)
      → i ≤ n
      → n < 2 ^ 24
      → IsBetween f 0 1 t
      → IsBetween f 0 (n + 1) (f.add (f.of_nat i) t)
  add-IsBetween i n t i≤n small b = record {
    above =
        subst (λ z. Le z (f.add (f.of_nat i) t)) (law.add_nat 0 0 (omega arith))
          (law.add_le (f.of_nat 0) (f.of_nat i) (f.of_nat 0) t (law.le_nat 0 0 (omega arith))
            (law.le_nat 0 i (omega arith)) (law.le_nat 0 0 (omega arith)) b.above);
    below = subst (Le (f.add (f.of_nat i) t)) (law.add_nat n 1 (omega arith)) (
        law.add_le (f.of_nat i) (f.of_nat n) t (f.of_nat 1) (law.le_nat 0 i (omega arith))
          (law.le_nat i n i≤n) b.above b.below);
  }

  div-IsBetween : (a : f.Float) → IsBetween f 0 50 a → IsBetween f 0 1 (f.div a (f.of_nat 50))
  div-IsBetween a b = record {
    above =
        subst (λ z. Le z (f.div a (f.of_nat 50))) (law.div_nat 0 50 (omega arith) (omega arith))
          (law.div_le (f.of_nat 0) a 50 (omega arith) (omega arith) b.above);
    below =
        subst (Le (f.div a (f.of_nat 50))) (law.div_nat 1 50 (omega arith) (omega arith))
          (law.div_le a (f.of_nat 50) 50 (omega arith) (omega arith) b.below);
  }

  -- The index of a dot's first position lies between 0 and 89.
  pub to_int-float_index :
      (p : f.Float)
      → IsBetween f 0 1 p
      → (k : ℕ) × (f.to_int (float_index f p) ≡ some (pos k)) × (k ≤ 89)
  to_int-float_index p b =
      let jumps = f.mul p (f.of_nat 90) in
      let p≤100 =
        law.le_trans p (f.of_nat 1) (f.of_nat 100) b.below (law.le_nat 1 100 (omega arith)) in
      let zero≤zero = law.le_nat 0 0 (omega arith) in
      let above : Le (f.of_nat 0) jumps =
        subst (λ z. Le (f.of_nat 0) (f.mul p z)) (law.literal_nat 90)
          (subst (λ z. Le z (f.mul p (f.literal 90 0))) (law.zero_mul 90 0)
            (law.mul_le (f.of_nat 0) p 90 0 zero≤zero b.above p≤100)) in
      let below : Le jumps (f.of_nat 90) = subst (Le jumps) (law.mul_nat 1 90 (omega arith)) (
        subst (λ z. Le (f.mul p z) (f.mul (f.of_nat 1) z)) (law.literal_nat 90)
          (law.mul_le p (f.of_nat 1) 90 0 b.above b.below (law.le_nat 1 100 (omega arith)))) in
      let jumps≤100 =
        law.le_trans jumps (f.of_nat 90) (f.of_nat 100) below (law.le_nat 90 100 (omega arith)) in
      let (k, e, _, k≤89) =
        law.to_int_le (f.of_nat 0) (float_index f p) (f.mul (f.of_nat 90) (f.literal 9999 4)) 0 89
          (subst (λ z. Le z (float_index f p)) (law.zero_mul 9999 4)
            (law.mul_le (f.of_nat 0) jumps 9999 4 zero≤zero above jumps≤100))
          (law.mul_le jumps (f.of_nat 90) 9999 4 above below (law.le_nat 90 100 (omega arith)))
          (law.to_int_nat 0 (omega arith)) law.to_int_last in
      (k, e, k≤89)

  -- The position on the path of the dot with number `i`.
  pub dot-IsBetween :
      (i : ℕ) (t : f.Float)
      → i ≤ 49
      → IsBetween f 0 1 t
      → IsBetween f 0 1 (f.div (f.add (f.of_nat i) t) (f.of_nat 50))
  dot-IsBetween i t i≤49 b = div-IsBetween _ (add-IsBetween i 49 t i≤49 (omega arith) b)
