-- ===== src/Animations/Tests.antt =====
-- The theorems on the animations, applied to a small screen and an arithmetic of whole numbers.
use eerie_leap_rt.Common.{
  ℕ, zero, suc, ◌+◌, ◌-◌, ◌*◌, ◌/◌, ◌%◌, ◌^◌, ◌≡◌, refl, leb, ltb, some, ℤ, pos, negsuc, [], ◌∷◌,
  List, ◌++◌, All, length, ◌≤◌, true, false, Bool, not, Option, none, if◌then◌else◌, sub_ℕ, faults,
}
use eerie_leap_rt.Animations.Floats.{Floats}
use eerie_leap_rt.Animations.Drawing.{Coordinate, Drawing, clear}
use eerie_leap_rt.Animations.WaveLines
use eerie_leap_rt.Animations.WaveLines.OnScreen.{IsDrawn, animate-IsDrawn}
use eerie_leap_rt.Animations.Particles
use eerie_leap_rt.Animations.Particles.{Dot, initialize}
use eerie_leap_rt.Animations.Particles.Frame.{IsPoint, animate-IsPoint}
use eerie_leap_rt.Animations.Particles.Faults.{IsUnsigned, animate_faults}
use eerie_leap_rt.Animations.TaperedWave.{draw_thick_line}
use eerie_leap_rt.Animations.TaperedWave
use eerie_leap_rt.Animations.TaperedWave.Parallel.{IsPart, animate-IsPart}

abbrev absolute : ℤ → ℕ
absolute (pos n) = n
absolute (negsuc n) = n + 1

abbrev rounded : ℕ → ℕ → ℕ
rounded m zero = m
rounded m (suc e) = 0

-- Whole numbers in place of the floats; a literal with decimals is 0.
abbrev whole : Floats
whole = record {
  Float = ℕ;
  literal = rounded;
  of_nat = λ n. n;
  of_int = absolute;
  add = λ a b. a + b;
  sub = λ a b. a - b;
  mul = λ a b. a * b;
  div = λ a b. a / b;
  lt = ltb;
  le = leb;
  fmod = λ a b. 0;
  sqrt = λ a. a;
  sin = λ a. a;
  cos = λ a. a;
  exp = λ a. 1;
  pow = λ a b. a;
  to_uint16 = λ a. some (a % 2 ^ 16);
  to_int = λ a. some (pos a);
}

abbrev dot : Dot whole
dot = record { seed_x = 1; seed_y = 2; phase_offset = 3 }

animate-IsDrawn_example : IsDrawn 8 4 (WaveLines.animate whole 8 4 7 []).1
animate-IsDrawn_example = animate-IsDrawn whole 8 4 7 [] (record { on_screen = tt; connected = tt })

animate-IsPoint_example :
    (points : List Drawing) × ((Particles.animate whole 8 4 (dot ∷ []) 240 []).1
      ≡ points ++ (clear ∷ []))
    × All (IsPoint whole 8 4) points
    × (length points ≤ 1)
animate-IsPoint_example = animate-IsPoint whole 8 4 (dot ∷ []) 240 []

abbrev minus : ℤ → ℤ
minus (pos zero) = pos 0
minus (pos (suc n)) = negsuc n
minus (negsuc n) = pos (n + 1)

abbrev plus : ℤ → ℤ → ℤ
plus (pos a) (pos b) = pos (a + b)
plus (pos a) (negsuc b) = sub_ℕ a (b + 1)
plus (negsuc a) (pos b) = sub_ℕ b (a + 1)
plus (negsuc a) (negsuc b) = negsuc (a + b + 1)

abbrev times : ℤ → ℤ → ℤ
times (pos a) (pos b) = pos (a * b)
times (pos a) (negsuc b) = minus (pos (a * (b + 1)))
times (negsuc a) (pos b) = minus (pos ((a + 1) * b))
times (negsuc a) (negsuc b) = pos ((a + 1) * (b + 1))

abbrev at_most : ℤ → ℤ → Bool
at_most (pos a) (pos b) = leb a b
at_most (pos a) (negsuc b) = false
at_most (negsuc a) (pos b) = true
at_most (negsuc a) (negsuc b) = leb b a

abbrev unsigned : ℤ → Option ℕ
unsigned (pos n) = if ltb n (2 ^ 16) then some n else none
unsigned (negsuc n) = none

-- Integers in place of the floats, and a sine that is low everywhere.
abbrev low : Floats
low = record {
  Float = ℤ;
  literal = λ m e. pos (rounded m e);
  of_nat = pos;
  of_int = λ n. n;
  add = plus;
  sub = λ a b. plus a (minus b);
  mul = times;
  div = λ a b. pos 0;
  lt = λ a b. not (at_most b a);
  le = at_most;
  fmod = λ a b. pos 0;
  sqrt = λ a. a;
  sin = λ a. negsuc 0;
  cos = λ a. pos 1;
  exp = λ a. pos 1;
  pow = λ a b. a;
  to_uint16 = unsigned;
  to_int = λ a. some a;
}

low-IsUnsigned : IsUnsigned low 8 4
low-IsUnsigned = record { negative = negative }
  where
    negative : (x : ℤ) → at_most x (negsuc 0) ≡ true → unsigned x ≡ none
    negative (pos n) e = cc
    negative (negsuc n) e = refl

abbrev low_dot : Dot low
low_dot = record { seed_x = pos 1; seed_y = pos 2; phase_offset = pos 3 }

animate_faults_example : (Particles.animate low 8 4 (low_dot ∷ low_dot ∷ []) 240 []).0 ≡ faults
animate_faults_example =
    animate_faults low 8 4 low-IsUnsigned (low_dot ∷ []) [] low_dot 240 0 [] refl refl

abbrev p1 : Coordinate
p1 = record { x = 1; y = 1 }

abbrev p2 : Coordinate
p2 = record { x = 2; y = 1 }

animate-IsPart_example : All (IsPart whole 8 4) (TaperedWave.animate whole 8 4 2 []).1
animate-IsPart_example = animate-IsPart whole 8 4 2 [] tt

-- A thick line is five lines.
five_lines : length (draw_thick_line whole p1 p2 4 []).1 ≡ 5
unfolding draw_thick_line
five_lines = refl
