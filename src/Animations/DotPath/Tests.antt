-- ===== src/Animations/DotPath/Tests.antt =====
-- DotPathAnimation on numbers with four decimals, which satisfy what it needs of floats.
use native.Mathlib.Nat.{mul-div_left, mul-le-mul_right, le-div_iff_mul-le, div-mul-le_self}
use eerie_leap_rt.Common.{
  ℕ, zero, suc, ◌+◌, ◌-◌, ◌*◌, ◌/◌, ◌%◌, ◌^◌, ◌≤◌, ◌<◌, ◌≡◌, refl, leb, ltb, true, some, [], ℤ, pos,
  negsuc, arith, ◌⊎◌, ap, ◌∙◌,
}
use eerie_leap_rt.Animations.Floats.{Floats}
use eerie_leap_rt.Animations.DotPath.{Random, construct, initialize}
use eerie_leap_rt.Animations.DotPath.Laws.{IsRounded}
use eerie_leap_rt.Animations.DotPath.Frames.{StopsWithin, EndsAfter, animate_frames-initialize}

abbrev decimal : ℕ → ℕ → ℕ
decimal m zero = m * 10000
decimal m (suc zero) = m * 1000
decimal m (suc (suc zero)) = m * 100
decimal m (suc (suc (suc zero))) = m * 10
decimal m (suc (suc (suc (suc zero)))) = m
decimal m _ = 0

abbrev absolute : ℤ → ℕ
absolute (pos n) = n
absolute (negsuc n) = n + 1

abbrev fixed : Floats
fixed = record {
  Float = ℕ;
  literal = decimal;
  of_nat = λ n. n * 10000;
  of_int = λ i. absolute i * 10000;
  add = λ a b. a + b;
  sub = λ a b. a - b;
  mul = λ a b. a * b / 10000;
  div = λ a b. a * 10000 / b;
  lt = ltb;
  le = leb;
  fmod = λ a b. 0;
  sqrt = λ a. a;
  sin = λ a. a;
  cos = λ a. a;
  exp = λ a. 1;
  pow = λ a b. a;
  to_uint16 = λ a. some (a / 10000 % 2 ^ 16);
  to_int = λ a. some (pos (a / 10000));
}

le : (a b : ℕ) → leb a b ≡ true → a ≤ b
le a b h = ground arith

of_le : (a b : ℕ) → a ≤ b → leb a b ≡ true
of_le a b h = ground arith

decimal-le_one : (m e : ℕ) → m ≤ 10 ^ e → decimal m e ≤ 10000
decimal-le_one m zero h = omega arith
decimal-le_one m (suc zero) h = omega arith
decimal-le_one m (suc (suc zero)) h = omega arith
decimal-le_one m (suc (suc (suc zero))) h = omega arith
decimal-le_one m (suc (suc (suc (suc zero)))) h = omega arith
decimal-le_one m (suc (suc (suc (suc (suc e))))) h = omega arith

mul_nat : (a b : ℕ) → a * 10000 * (b * 10000) / 10000 ≡ a * b * 10000
mul_nat a b =
    ap (λ n. n / 10000) (let e : a * 10000 * (b * 10000) ≡ a * b * 10000 * 10000 = omega arith in e)
    ∙ mul-div_left (a * b * 10000) (omega arith)

div_nat : (q b : ℕ) → 0 < b → q * b * 10000 * 10000 / (b * 10000) ≡ q * 10000
div_nat q b h =
    ap (λ n. n / (b * 10000))
      (let e : q * b * 10000 * 10000 ≡ q * 10000 * (b * 10000) = omega arith in e)
    ∙ mul-div_left (q * 10000) (omega arith)

mul_le : (a b c : ℕ) → a ≤ b → a * c / 10000 ≤ b * c / 10000
mul_le a b c h = omega (arith, mul-le-mul_right c h)

div_le : (a b c : ℕ) → 0 < c → a ≤ b → a * 10000 / c ≤ b * 10000 / c
div_le a b c p h = (le-div_iff_mul-le p).1 (omega (arith, div-mul-le_self (a * 10000) c))

to_int_le :
    (a b c m n : ℕ)
    → a ≤ b
    → b ≤ c
    → a / 10000 ≡ m
    → c / 10000 ≡ n
    → (m ≤ b / 10000) × (b / 10000 ≤ n)
to_int_le a b c m n h k p q = (omega arith, omega arith)

same : (m n : ℕ) → some (pos m) ≡ some (pos n) → m ≡ n
same m n h = cc

fixed-IsRounded : IsRounded fixed
fixed-IsRounded = record {
  literal_nat = λ n. refl;
  add_nat = λ a b h. omega arith;
  sub_nat = λ a b h k. omega arith;
  mul_nat = λ a b h. mul_nat a b;
  div_nat = λ q b h k. div_nat q b h;
  zero_mul = λ m e. (let p : 0 * decimal m e / 10000 ≡ 0 = omega arith in p);
  le_nat = λ m n h. of_le (m * 10000) (n * 10000) (omega arith);
  zero_le = λ m e. of_le 0 (decimal m e) (omega arith);
  le_one = λ m e h. of_le (decimal m e) 10000 (decimal-le_one m e h);
  le_trans = λ a b c h k. of_le a c (omega (arith, le a b h, le b c k));
  le_total = λ a b n h k. (let p : leb b (n * 10000) ≡ true = ground arith in p);
  add_le = λ a b c d z h y k. of_le (a + c) (b + d) (omega (arith, le a b h, le c d k));
  sub_le = λ a b n l h. of_le (a - n * 10000) (b - n * 10000) (omega (arith, le a b h));
  mul_le = λ a b m e z h l.
      of_le (a * decimal m e / 10000) (b * decimal m e / 10000)
        (mul_le a b (decimal m e) (le a b h));
  div_le = λ a b n p l h.
      of_le (a * 10000 / (n * 10000)) (b * 10000 / (n * 10000))
        (div_le a b (n * 10000) (omega arith) (le a b h));
  to_int_nat = λ n h. ap (λ k. some (pos k)) (mul-div_left n (omega arith));
  to_int_last = refl;
  to_int_le = λ a b c m n h k p q.
      let (above, below) =
        to_int_le a b c m n (le a b h) (le b c k) (same (a / 10000) m p) (same (c / 10000) n q) in
      (b / 10000, refl, above, below);
}

abbrev random : Random fixed
random = record {
  Rng = ℕ;
  seed = λ n. n;
  uniform_real = λ a b n. (a, n + 1);
  uniform_int = λ a b n. (n % 8, n + 1);
}

animate_frames-initialize_example :
    let start = initialize fixed random 128 64 (construct fixed random) in
    StopsWithin fixed random 128 64 100 start [] ⊎ EndsAfter fixed random 128 64 100 start []
animate_frames-initialize_example =
    animate_frames-initialize fixed random 128 64 100 [] fixed-IsRounded
