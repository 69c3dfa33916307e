-- ===== src/Animations/Drawing.antt =====
-- The calls of the animations on the frame buffer, as a trace whose first element is the last call.
use eerie_leap_rt.Common.{
  ℕ, ℤ, ◌<◌, ◌≡◌, Bool, true, ◌&&◌, ltb, Option, none, some, List, [], ◌∷◌, returns, Eff, arith,
}

-- `Coordinate`.
pub record Coordinate : Type 0 where
  pub x : ℕ
  pub y : ℕ

pub data Drawing : Type 0 where
  clear : Drawing
  point : Coordinate → Drawing
  line : Coordinate → Coordinate → Drawing
  circle : Coordinate → ℤ → Drawing

abbrev pub draw : Drawing → Eff (List Drawing) (Unit {0})
draw d trace = (returns tt, d ∷ trace)

-- `screen_x < screen_width && screen_y < screen_height`.
abbrev pub in_bounds : ℕ → ℕ → Coordinate → Bool
in_bounds screen_width screen_height p = ltb p.x screen_width && ltb p.y screen_height

abbrev pub InBounds : ℕ → ℕ → Coordinate → Type 0
InBounds screen_width screen_height p = (p.x < screen_width) × (p.y < screen_height)

pub in_bounds-InBounds :
    (screen_width screen_height : ℕ) (p : Coordinate)
    → in_bounds screen_width screen_height p ≡ true
    → InBounds screen_width screen_height p
in_bounds-InBounds w h p e = ground arith

-- The end points of a drawing, or its centre, lie on the screen.
abbrev pub IsOnScreen : ℕ → ℕ → Drawing → Type 0
IsOnScreen w h clear = Unit
IsOnScreen w h (point p) = InBounds w h p
IsOnScreen w h (line p q) = InBounds w h p × InBounds w h q
IsOnScreen w h (circle p radius) = InBounds w h p

-- Where the pen is after a trace.
abbrev pub pen : List Drawing → Option Coordinate
pen [] = none
pen (clear ∷ t) = none
pen (point p ∷ t) = some p
pen (line p q ∷ t) = some q
pen (circle p radius ∷ t) = some p

-- Every line starts at the end of the drawing before it.
abbrev pub IsConnected : List Drawing → Type 0
IsConnected [] = Unit
IsConnected (clear ∷ t) = IsConnected t
IsConnected (point p ∷ t) = IsConnected t
IsConnected (circle p radius ∷ t) = IsConnected t
IsConnected (line p q ∷ t) = (pen t ≡ some p) × IsConnected t
