-- ===== src/Controllers/Display.antt =====
-- app/src/controllers/display_controller.{h,cpp}: `DisplayController`. What it does to the screen is
-- a trace of the calls of `Cfb`.
pub mod Layout
pub mod Modes
pub mod Statuses
pub mod Refinement
pub mod Watch
pub mod Lifetimes
pub mod View
pub mod Seen
mod Tests
use eerie_leap_rt.Common.{
  ℕ, zero, suc, ◌+◌, ◌-◌, ◌*◌, ◌%◌, Bool, true, false, not, ◌&&◌, ◌||◌, Option, none, some, List,
  [], ◌∷◌, ◌++◌, length, ◌==◌, if◌then◌else◌, ℤ, pos, negsuc, sub_ℕ, insert, erase,
}
use eerie_leap_rt.Common.Texts.{text_ltb}

pub data Animation : Type 0 where
  wave_lines dot_path particles tapered_wave : Animation

-- Calls of `Cfb`, and the life of `animation_`: `destroy` ends an animation object, and
-- `initialize` is the call on the new one. Coordinates are x and y.
pub data Command : Type 0 where
  set_font : ℕ → Command
  destroy : Animation → Command
  initialize_animation : Animation → Command
  set_animation_handler : ℕ → Command
  start_cfb stop_cfb clear_cfb flush_cfb : Command
  print_string : List ℕ → ℕ → ℤ → Command
  print_string_line : List ℕ → ℕ → ℤ → Command
  invert_area : ℕ → ℤ → ℕ → ℤ → Command

-- What `Cfb` answers of its screen and font.
pub record Screen : Type 0 where
  pub font_width : ℕ
  pub font_height : ℕ
  pub x_res : ℕ
  pub y_res : ℕ

pub record Display : Type 0 where
  pub cfb : Option Screen
  pub animation : Option Animation
  pub current_animation_index : ℤ
  pub is_animation_in_progress : Bool
  pub statuses : List (List ℕ)
  pub is_initialized : Bool
  pub trace : List Command

unfoldable pub construct : Option Screen → Display
construct cfb = record {
  cfb = cfb;
  animation = none;
  current_animation_index = pos 0;
  is_animation_in_progress = false;
  statuses = [];
  is_initialized = false;
  trace = [];
}

abbrev pub emit : List Command → Display → Display
emit cs d = record d { trace = d.trace ++ cs }

-- The `switch` of `StartAnimation`.
unfoldable pub animation_of : ℤ → Option Animation
animation_of (pos zero) = some wave_lines
animation_of (pos (suc zero)) = some dot_path
animation_of (pos (suc (suc zero))) = some particles
animation_of (pos (suc (suc (suc zero)))) = some tapered_wave
animation_of _ = none

abbrev pub destroyed : Option Animation → List Command
destroyed none = []
destroyed (some a) = destroy a ∷ []

-- The rest of `StartAnimation`, for an index of the `switch`; the assignment to `animation_`
-- destroys the object that was there.
unfoldable pub run_animation : ℤ → Option Animation → Display → Display
run_animation index none d = d
run_animation index (some a) d =
    record (emit
      (destroyed d.animation
        ++ (initialize_animation a ∷ set_animation_handler 30 ∷ start_cfb ∷ []))
      d) { animation = some a; is_animation_in_progress = true; current_animation_index = index }

abbrev pub or_current : ℤ → Display → ℤ
or_current (pos i) d = pos i
or_current (negsuc i) d = d.current_animation_index

unfoldable pub start_animation : ℤ → Display → Display
unfolding run_animation animation_of
start_animation index d =
    if d.is_initialized
    then run_animation (or_current index d) (animation_of (or_current index d)) d
    else d

abbrev pub default_index : ℤ
default_index = negsuc 0

unfoldable pub stop_animation : Display → Display
stop_animation d =
    if d.is_initialized && d.is_animation_in_progress
    then record (emit (stop_cfb ∷ destroyed d.animation) d) {
      animation = none;
      is_animation_in_progress = false;
    }
    else d

unfoldable pub initialize : Display → Display
unfolding start_animation
initialize d = elim d.cfb [
  | none ↦ d
  | some screen ↦
      if d.is_initialized
      then d
      else start_animation (pos 0) (record (emit (set_font 0 ∷ []) d) { is_initialized = true })
]

-- `PrintStringLine` of the controller.
unfoldable pub print_line : List ℕ → Display → Display
unfolding stop_animation
print_line text d =
    if d.is_initialized
    then emit (clear_cfb ∷ print_string text 0 (pos 0) ∷ flush_cfb ∷ []) (stop_animation d)
    else d

-- The width of a status in pixels, with a padding of 1 on both sides.
unfoldable pub status_width : Screen → List ℕ → ℕ
status_width m s = length s * m.font_width + 1 * 2

unfoldable pub length_chars : List (List ℕ) → ℕ
length_chars [] = 0
length_chars (s ∷ ss) = length s + length_chars ss

unfoldable pub length_px : Screen → List (List ℕ) → ℕ
unfolding length_chars
length_px m ss = length_chars ss * m.font_width + length ss * 1 * 2

-- A start left of the screen is moved to 0, as `-` on ℕ does.
unfoldable pub start_x_px : Screen → List (List ℕ) → ℕ
unfolding length_px
start_x_px m ss = m.x_res - length_px m ss

unfoldable pub status_y : Screen → ℤ
status_y m = sub_ℕ m.y_res (m.font_height + 1)

-- The corners of an inverted status, `y - padding` and `y + font_height + padding`.
unfoldable pub invert_status : Screen → ℕ → List ℕ → Command
unfolding status_width
invert_status m x s =
    invert_area x (sub_ℕ m.y_res (m.font_height + 1 + 1)) (x + status_width m s)
      (sub_ℕ (m.y_res + m.font_height + 1) (m.font_height + 1))

-- The loop of `UpdateStatuses`, from the status with number `i`.
unfoldable pub draw_statuses : Screen → ℕ → ℕ → List (List ℕ) → List Command
unfolding invert_status status_y status_width
draw_statuses m i x [] = []
draw_statuses m i x (s ∷ ss) =
    print_string_line s (x + 1) (status_y m)
    ∷ ((if i % 2 == 0 then [] else invert_status m x s ∷ [])
        ++ draw_statuses m (i + 1) (x + status_width m s) ss)

-- `UpdateStatuses` where there are statuses.
unfoldable pub show_statuses : Screen → Display → Display
unfolding draw_statuses start_x_px stop_animation
show_statuses m d =
    emit (clear_cfb ∷ (draw_statuses m 0 (start_x_px m d.statuses) d.statuses ++ (flush_cfb ∷ [])))
      (stop_animation d)

-- Without a `Cfb` there is no call to make.
abbrev pub show_on : Option Screen → Display → Display
show_on none d = d
show_on (some m) d = show_statuses m d

unfoldable pub update_statuses : Display → Display
unfolding show_statuses start_animation
update_statuses d =
    if d.is_initialized
    then (elim d.statuses [ [] ↦ start_animation default_index d | s ∷ ss ↦ show_on d.cfb d ])
    else d

unfoldable pub add_status : List ℕ → Display → Display
unfolding update_statuses
add_status s d =
    if d.is_initialized
    then update_statuses (record d { statuses = insert text_ltb s d.statuses })
    else d

unfoldable pub remove_status : List ℕ → Display → Display
unfolding update_statuses
remove_status s d =
    if d.is_initialized
    then update_statuses (record d { statuses = erase text_ltb s d.statuses })
    else d

unfoldable pub clear_statuses : Display → Display
unfolding update_statuses
clear_statuses d = if d.is_initialized then update_statuses (record d { statuses = [] }) else d
