-- ===== src/Controllers/Display/View.antt =====
-- What can be seen on the screen: by the calls that the frame buffer gets, and by a specification of
-- the display controller that knows no calls.
use eerie_leap_rt.Common.{
  ℕ, ◌≡◌, refl, Option, none, some, List, [], ◌∷◌, ◌++◌, ℤ, pos, negsuc, insert, erase,
}
use eerie_leap_rt.Common.Texts.{text_ltb}
use eerie_leap_rt.Controllers.Display.{
  Animation, wave_lines, Command, set_font, destroy, initialize_animation, set_animation_handler,
  start_cfb, stop_cfb, clear_cfb, flush_cfb, print_string, print_string_line, invert_area,
  animation_of,
}
use eerie_leap_rt.Controllers.Display.Modes.{
  Call, initializes, stops, clears, starts, prints, adds, removes,
}

-- Nothing yet, an animation that moves, the last frame of one that was stopped, or texts.
pub data Shown : Type 0 where
  nothing halted : Shown
  moving : Animation → Shown
  texts : List (List ℕ) → Shown

-- The texts in the buffer, the animation that was initialized last, and what is on the screen.
pub record View : Type 0 where
  pub buffer : List (List ℕ)
  pub loaded : Option Animation
  pub shown : Shown

abbrev moving_of : Option Animation → Shown → Shown
moving_of none old = old
moving_of (some a) old = moving a

-- One call. Texts are seen when the buffer is flushed.
abbrev pub show : Command → View → View
show (set_font n) v = v
show (destroy a) v = v
show (initialize_animation a) v = record v { loaded = some a }
show (set_animation_handler n) v = v
show start_cfb v = record v { shown = moving_of v.loaded v.shown }
show stop_cfb v = record v { shown = halted }
show clear_cfb v = record v { buffer = [] }
show flush_cfb v = record v { shown = texts v.buffer }
show (print_string text x y) v = record v { buffer = v.buffer ++ (text ∷ []) }
show (print_string_line text x y) v = record v { buffer = v.buffer ++ (text ∷ []) }
show (invert_area x0 y0 x1 y1) v = v

abbrev pub show_all : List Command → View → View
show_all [] v = v
show_all (c ∷ cs) v = show_all cs (show c v)

abbrev pub blank : View
blank = record { buffer = []; loaded = none; shown = nothing }

-- The screen behind a trace.
abbrev pub screen_after : List Command → Shown
screen_after cs = (show_all cs blank).shown

pub show_all-append :
    (cs ds : List Command) (v : View) → show_all (cs ++ ds) v ≡ show_all ds (show_all cs v)
show_all-append [] ds v = refl
show_all-append (c ∷ cs) ds v = show_all-append cs ds (show c v)

-- The specification: the statuses in order, the index of the last animation, and the screen.
pub record Spec : Type 0 where
  pub statuses : List (List ℕ)
  pub index : ℤ
  pub shown : Shown

-- A screen that moves is halted.
abbrev pub halt : Shown → Shown
halt nothing = nothing
halt halted = halted
halt (moving a) = halted
halt (texts ss) = texts ss

abbrev pub or_last : ℤ → ℤ → ℤ
or_last (pos i) last = pos i
or_last (negsuc i) last = last

-- An index that names no animation changes nothing.
abbrev pub animate_if : ℤ → Option Animation → Spec → Spec
animate_if index none a = a
animate_if index (some animation) a = record a { index = index; shown = moving animation }

-- The statuses are shown if there are any, and else the last animation.
abbrev pub with_statuses : List (List ℕ) → Spec → Spec
with_statuses [] a = animate_if a.index (animation_of a.index) (record a { statuses = [] })
with_statuses (s ∷ ss) a = record a { statuses = s ∷ ss; shown = texts (s ∷ ss) }

abbrev pub spec_step : Call → Spec → Spec
spec_step initializes a = a
spec_step stops a = record a { shown = halt a.shown }
spec_step clears a = with_statuses [] a
spec_step (starts i) a = animate_if (or_last i a.index) (animation_of (or_last i a.index)) a
spec_step (prints text) a = record a { shown = texts (text ∷ []) }
spec_step (adds s) a = with_statuses (insert text_ltb s a.statuses) a
spec_step (removes s) a = with_statuses (erase text_ltb s a.statuses) a

abbrev pub spec_run : List Call → Spec → Spec
spec_run [] a = a
spec_run (c ∷ cs) a = spec_run cs (spec_step c a)

-- An initialized controller begins with the wave lines.
abbrev pub spec_init : Spec
spec_init = record { statuses = []; index = pos 0; shown = moving wave_lines }
