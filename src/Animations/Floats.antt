-- ===== src/Animations/Floats.antt =====
-- The machine's `float` and <cmath>, which the animations compute with. A conversion of a value that
-- the integer type does not have is undefined: it is none.
use eerie_leap_rt.Common.{ℕ, ℤ, Bool, if◌then◌else◌, Option}

pub record Floats : Type 1 where
  pub Float : Type 0
  -- `literal m e` is m / 10 ^ e.
  pub literal : ℕ → ℕ → Float
  pub of_nat : ℕ → Float
  pub of_int : ℤ → Float
  pub add : Float → Float → Float
  pub sub : Float → Float → Float
  pub mul : Float → Float → Float
  pub div : Float → Float → Float
  pub lt : Float → Float → Bool
  pub le : Float → Float → Bool
  pub fmod : Float → Float → Float
  pub sqrt : Float → Float
  pub sin : Float → Float
  pub cos : Float → Float
  pub exp : Float → Float
  pub pow : Float → Float → Float
  pub to_uint16 : Float → Option ℕ
  pub to_int : Float → Option ℤ

-- app/src/views/animations/utilities/animation_math_helpers.h.
module _ (f : Floats) where
  open f use {Float, literal, add, sub, mul, pow, lt}

  abbrev pub pi : Float
  pi = literal 314159265359 11

  abbrev half : Float
  half = literal 5 1

  -- `Ease`, which nothing calls.
  unfoldable pub ease : Float → Float
  ease p = sub (mul (mul (literal 3 0) p) p) (mul (mul (mul (literal 2 0) p) p) p)

  -- `EaseWithGamma`.
  unfoldable pub ease_with_gamma : Float → Float → Float
  ease_with_gamma p g =
      if lt p half
      then mul half (pow (mul (literal 2 0) p) g)
      else sub (literal 1 0) (mul half (pow (mul (literal 2 0) (sub (literal 1 0) p)) g))
