-- ===== src/Controllers/Display/Layout.antt =====
-- Where the statuses stand on the screen.
use eerie_leap_rt.Common.{
  ℕ, ◌+◌, ◌-◌, ◌*◌, ◌%◌, ◌≤◌, ◌<◌, ◌≡◌, refl, Bool, true, false, List, [], ◌∷◌, ◌++◌, length, arith,
  All, All-append, ◌==◌, if◌then◌else◌, pos, ap, ◌∙◌,
}
use eerie_leap_rt.Controllers.Display.{
  Screen, Command, print_string_line, invert_area, status_width, length_px, start_x_px, status_y,
  invert_status, draw_statuses,
}

-- The pixels that the statuses take one by one.
abbrev pub widths : Screen → List (List ℕ) → ℕ
widths m [] = 0
widths m (s ∷ ss) = status_width m s + widths m ss

-- The length that the controller computes from the sum of the characters.
pub length_px-eq-widths : (m : Screen) (ss : List (List ℕ)) → length_px m ss ≡ widths m ss
unfolding length_px status_width
length_px-eq-widths m [] = omega arith
length_px-eq-widths m (s ∷ ss) = omega (arith, length_px-eq-widths m ss)

-- The command draws only between these columns, and inside the screen's rows.
abbrev pub Inside : Screen → ℕ → ℕ → Command → Type 0
Inside m lo hi (print_string_line s x y) =
    (lo < x) × (x + length s * m.font_width < hi) × (y ≡ pos (m.y_res - (m.font_height + 1)))
Inside m lo hi (invert_area x y x' y') =
    (lo ≤ x) × (x' ≤ hi) × (y ≡ pos (m.y_res - (m.font_height + 2))) × (y' ≡ pos m.y_res)
Inside m lo hi _ = Unit

Inside-mono :
    (m : Screen) (lo lo' hi : ℕ) (cs : List Command)
    → lo ≤ lo'
    → All (Inside m lo' hi) cs
    → All (Inside m lo hi) cs
Inside-mono m lo lo' hi [] h a = tt
Inside-mono m lo lo' hi (print_string_line s x y ∷ cs) h a =
    ((omega arith, a.0.1, a.0.2), Inside-mono m lo lo' hi cs h a.1)
Inside-mono m lo lo' hi (invert_area x y x' y' ∷ cs) h a =
    ((omega arith, a.0.1, a.0.2, a.0.3), Inside-mono m lo lo' hi cs h a.1)
Inside-mono m lo lo' hi (_ ∷ cs) h a = (tt, Inside-mono m lo lo' hi cs h a.1)

status_y-eq-pos :
    (m : Screen) → m.font_height + 2 ≤ m.y_res → status_y m ≡ pos (m.y_res - (m.font_height + 1))
unfolding status_y
status_y-eq-pos m h = ground arith

invert_status-Inside :
    (m : Screen) (x : ℕ) (s : List ℕ)
    → m.font_height + 2 ≤ m.y_res
    → (hi : ℕ) → x + status_width m s ≤ hi
    → Inside m x hi (invert_status m x s)
unfolding invert_status
invert_status-Inside m x s h hi b = (omega arith, b, ground arith, ground arith)

All-if : (P : Command → Type 0) (b : Bool) (c : Command) → P c → All P (if b then [] else c ∷ [])
All-if P true c p = tt
All-if P false c p = (p, tt)

draw_statuses-Inside :
    (m : Screen) (i x : ℕ) (ss : List (List ℕ)) (hi : ℕ)
    → m.font_height + 2 ≤ m.y_res
    → x + widths m ss ≤ hi
    → All (Inside m x hi) (draw_statuses m i x ss)
unfolding draw_statuses
draw_statuses-Inside m i x [] hi h b = tt
draw_statuses-Inside m i x (s ∷ ss) hi h b =
    let rest =
      Inside-mono m x (x + status_width m s) hi _ (omega arith)
        (draw_statuses-Inside m (i + 1) (x + status_width m s) ss hi h (omega arith)) in
    let box = invert_status-Inside m x s h hi (omega arith) in
    (
      (omega arith, omega arith, status_y-eq-pos m h),
      All-append (Inside m x hi) (if i % 2 == 0 then [] else invert_status m x s ∷ []) _
          (All-if (Inside m x hi) (i % 2 == 0) (invert_status m x s) box) rest,
    )

-- On a screen at least two rows higher than the font: every text is printed and every inversion made
-- between the start column and the start column plus the computed length, and in the screen's last
-- font height + 2 rows. If the statuses fit the width, that end column is the screen's right edge, so
-- that all of them stand inside the screen.
pub show_statuses_layout :
    (m : Screen) (ss : List (List ℕ))
    → m.font_height + 2 ≤ m.y_res
    → let start = start_x_px m ss in
      All (Inside m start (start + length_px m ss)) (draw_statuses m 0 start ss)
      × (length_px m ss ≤ m.x_res → start + length_px m ss ≡ m.x_res)
unfolding start_x_px
show_statuses_layout m ss h = (
  draw_statuses-Inside m 0 (start_x_px m ss) ss (start_x_px m ss + length_px m ss) h
      (omega (arith, length_px-eq-widths m ss)),
  λ fits. omega arith,
)

-- The texts printed by such commands, and the number of inversions.
abbrev pub printed : List Command → List (List ℕ)
printed [] = []
printed (print_string_line s x y ∷ cs) = s ∷ printed cs
printed (_ ∷ cs) = printed cs

printed-invert :
    (b : Bool) (m : Screen) (x : ℕ) (s : List ℕ) (cs : List Command)
    → printed ((if b then [] else invert_status m x s ∷ []) ++ cs) ≡ printed cs
unfolding invert_status
printed-invert true m x s cs = refl
printed-invert false m x s cs = refl

-- The loop prints every status once, in the order of the set.
pub printed-draw_statuses :
    (m : Screen) (i x : ℕ) (ss : List (List ℕ)) → printed (draw_statuses m i x ss) ≡ ss
unfolding draw_statuses
printed-draw_statuses m i x [] = refl
printed-draw_statuses m i x (s ∷ ss) =
    let rest = draw_statuses m (i + 1) (x + status_width m s) ss in
    ap (◌∷◌ s) (
      printed-invert (i % 2 == 0) m x s rest
      ∙ printed-draw_statuses m (i + 1) (x + status_width m s) ss)
