-- ===== src/Common/Texts.antt =====
-- Texts as their bytes, in the order of `std::string`, and the decimal digits of a number.
use Prim.Native.Nat.{ℕ, zero, suc, ◌+◌, ◌/◌, ◌%◌}
use mathlib.Core.Path.{◌≡◌, refl}
use mathlib.Core.Bool.{Bool, true, false}
use mathlib.Core.List.{List, [], ◌∷◌}
use native.Mathlib.Omega.{arith}
use eerie_leap_rt.Common.Tests.{ltb, if◌then◌else◌}
use eerie_leap_rt.Common.OrderedSet.{IsStrictOrder}

unfoldable pub text_ltb : List ℕ → List ℕ → Bool
text_ltb [] [] = false
text_ltb [] (y ∷ ys) = true
text_ltb (x ∷ xs) [] = false
text_ltb (x ∷ xs) (y ∷ ys) = if ltb x y then true else if ltb y x then false else text_ltb xs ys

irrefl : (a : List ℕ) → text_ltb a a ≡ false
unfolding text_ltb
irrefl [] = refl
irrefl (x ∷ xs) = ground (arith, irrefl xs)

trans : (a b c : List ℕ) → text_ltb a b ≡ true → text_ltb b c ≡ true → text_ltb a c ≡ true
unfolding text_ltb
trans [] [] c h k = cc
trans [] (y ∷ ys) [] h k = cc
trans [] (y ∷ ys) (z ∷ zs) h k = refl
trans (x ∷ xs) [] c h k = cc
trans (x ∷ xs) (y ∷ ys) [] h k = cc
trans (x ∷ xs) (y ∷ ys) (z ∷ zs) h k = ground (arith, trans xs ys zs)

total : (a b : List ℕ) → text_ltb a b ≡ false → text_ltb b a ≡ false → a ≡ b
unfolding text_ltb
total [] [] h k = refl
total [] (y ∷ ys) h k = cc
total (x ∷ xs) [] h k = cc
total (x ∷ xs) (y ∷ ys) h k = ground (arith, total xs ys)

pub text_ltb-IsStrictOrder : IsStrictOrder text_ltb
text_ltb-IsStrictOrder = record { irrefl = irrefl; trans = trans; total = total }

-- The decimal digits of a number, `rounds` of them at most, before those that follow.
abbrev digits : ℕ → ℕ → List ℕ → List ℕ
digits zero n following = following
digits (suc rounds) n following =
    let longer = digits rounds (n / 10) ((48 + n % 10) ∷ following) in
    if ltb n 10 then (48 + n) ∷ following else longer

-- `std::to_string`; a number has no more digits than its value plus one.
unfoldable pub to_string : ℕ → List ℕ
to_string n = digits (suc n) n []
