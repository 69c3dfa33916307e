-- ===== src/Controllers/Display/Watch.antt =====
-- An automaton that watches the calls of the display controller: how long animation objects live,
-- and when the screen is drawn on.
use eerie_leap_rt.Common.{
  ◌≡◌, refl, Bool, true, false, Option, none, some, List, [], ◌∷◌, ◌++◌, not, ◌∙◌, ap, sym,
}
use eerie_leap_rt.Controllers.Display.{
  Animation, wave_lines, dot_path, particles, tapered_wave, Command, set_font, destroy,
  initialize_animation, set_animation_handler, start_cfb, stop_cfb, clear_cfb, flush_cfb,
  print_string, print_string_line, invert_area, Display,
}

abbrev same : Animation → Animation → Bool
same wave_lines wave_lines = true
same dot_path dot_path = true
same particles particles = true
same tapered_wave tapered_wave = true
same _ _ = false

-- The animation object that lives, and whether the screen runs an animation.
pub record Watch : Type 0 where
  pub live : Option Animation
  pub running : Bool

abbrev when : Bool → Watch → Option Watch
when true m = some m
when false m = none

abbrev holds : Option Animation → Animation → Bool
holds none a = false
holds (some b) a = same a b

abbrev is_none : Option Animation → Bool
is_none none = true
is_none (some a) = false

-- One call; none where it is out of place. Only the object that lives is destroyed, a new one is
-- initialized only when none lives, a handler and a running screen need one, only a running screen
-- is stopped, and nothing is drawn while it runs.
abbrev pub watch : Command → Watch → Option Watch
watch (set_font n) m = some m
watch (destroy a) m = when (holds m.live a) (record m { live = none })
watch (initialize_animation a) m = when (is_none m.live) (record m { live = some a })
watch (set_animation_handler n) m = when (not (is_none m.live)) m
watch start_cfb m = when (not (is_none m.live)) (record m { running = true })
watch stop_cfb m = when (m.running) (record m { running = false })
watch clear_cfb m = when (not m.running) m
watch flush_cfb m = when (not m.running) m
watch (print_string text x y) m = when (not m.running) m
watch (print_string_line text x y) m = when (not m.running) m
watch (invert_area x0 y0 x1 y1) m = when (not m.running) m

abbrev pub and_replay : Option Watch → (Watch → Option Watch) → Option Watch
and_replay none f = none
and_replay (some m) f = f m

abbrev pub replay : List Command → Watch → Option Watch
replay [] m = some m
replay (c ∷ cs) m = and_replay (watch c m) (replay cs)

abbrev pub asleep : Watch
asleep = record { live = none; running = false }

-- A screen that does not run.
abbrev pub still : Option Animation → Watch
still o = record { live = o; running = false }

-- What the controller's own fields say.
abbrev pub watch_of : Display → Watch
watch_of d = record { live = d.animation; running = d.is_animation_in_progress }

and_replay_assoc :
    (o : Option Watch) (f g : Watch → Option Watch)
    → and_replay (and_replay o f) g ≡ and_replay o (λ m. and_replay (f m) g)
and_replay_assoc none f g = refl
and_replay_assoc (some m) f g = refl

pub replay-append :
    (cs ds : List Command) (m : Watch) → replay (cs ++ ds) m ≡ and_replay (replay cs m) (replay ds)
replay-append [] ds m = refl
replay-append (c ∷ cs) ds m =
    ap (and_replay (watch c m)) (λ i x. replay-append cs ds x i)
    ∙ sym (and_replay_assoc (watch c m) (replay cs) (replay ds))
