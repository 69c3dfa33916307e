-- ===== src/Controllers/Display/Tests.antt =====
-- A small screen, runs of the controller, and the theorems at inputs.
use eerie_leap_rt.Common.{
  ◌↔◌, ℕ, ◌+◌, ◌≤◌, ◌≡◌, refl, true, none, some, List, [], ◌∷◌, ◌++◌, codes, arith, All, Contains,
  pos, insert, erase,
}
use eerie_leap_rt.Common.Texts.{text_ltb}
use eerie_leap_rt.Controllers.Display.{
  Screen, Display, initialize_animation, start_cfb, clear_cfb, print_string_line, invert_area,
  Animation, particles, construct, draw_statuses, length_px, start_x_px, clear_statuses,
  animation_of,
}
use eerie_leap_rt.Controllers.Display.Layout.{Inside, show_statuses_layout}
use eerie_leap_rt.Controllers.Display.Modes.{
  Call, initializes, stops, starts, adds, removes, step, run, IsValid, step-IsValid,
  run-construct-IsValid,
}
use eerie_leap_rt.Controllers.Display.Watch.{replay, asleep}
use eerie_leap_rt.Controllers.Display.Lifetimes.{replay-run}
use eerie_leap_rt.Controllers.Display.Refinement.{AfterAll}
use eerie_leap_rt.Controllers.Display.View.{texts, screen_after, spec_run, spec_init}
use eerie_leap_rt.Controllers.Display.Seen.Statuses.{run_shows}
use eerie_leap_rt.Controllers.Display.Statuses.{clear_statuses_running, replaces}

abbrev screen : Screen
screen = record { font_width = 6; font_height = 8; x_res = 128; y_res = 64 }

abbrev two : List (List ℕ)
two = codes "gps" ∷ codes "log" ∷ []

-- Two texts of 20 pixels each at the right edge, the second one inverted.
two_statuses :
    draw_statuses screen 0 (start_x_px screen two) two
    ≡ print_string_line (codes "gps") 89 (pos 55)
      ∷ print_string_line (codes "log") 109 (pos 55)
      ∷ invert_area 108 (pos 54) 128 (pos 64)
      ∷ []
unfolding draw_statuses start_x_px
two_statuses = refl

-- A running controller with the particles on the screen.
abbrev running : Display
running = record {
  cfb = some screen;
  animation = some particles;
  current_animation_index = pos 2;
  is_animation_in_progress = true;
  statuses = [];
  is_initialized = true;
  trace = [];
}

running-IsValid : IsValid running
unfolding animation_of
running-IsValid = record {
  shown = refl;
  initialized = λ h. refl;
  has_screen = λ h. refl;
  known_index = refl;
  ordered = tt;
}

calls_end_in_order :
    (run
      (construct (some screen))
      (initializes ∷ adds (codes "log") ∷ adds (codes "gps") ∷ [])).statuses
    ≡ two
unfolding run construct insert text_ltb
calls_end_in_order = refl

show_statuses_layout_example :
    All (Inside screen 88 128) (draw_statuses screen 0 88 two) × (40 ≤ 128 → 88 + 40 ≡ 128)
unfolding start_x_px length_px
show_statuses_layout_example = show_statuses_layout screen two (omega arith)

step-IsValid_example : IsValid (step running (starts (pos 9)))
step-IsValid_example = step-IsValid running (starts (pos 9)) running-IsValid

run-construct-IsValid_example :
    IsValid (run (construct (some screen)) (initializes ∷ adds (codes "log") ∷ stops ∷ []))
run-construct-IsValid_example =
    run-construct-IsValid (some screen) (initializes ∷ adds (codes "log") ∷ stops ∷ [])

clear_statuses_running_example :
    (a : Animation) × (animation_of (pos 2) ≡ some a)
    × ((clear_statuses running).trace ≡ [] ++ replaces particles a)
clear_statuses_running_example = clear_statuses_running running particles running-IsValid refl refl

replay-run_example :
    let d = run (construct (some screen)) (initializes ∷ adds (codes "log") ∷ stops ∷ []) in
    replay d.trace asleep
    ≡ some (record { live = d.animation; running = d.is_animation_in_progress })
replay-run_example = replay-run (some screen) (initializes ∷ adds (codes "log") ∷ stops ∷ [])

-- A screen that is drawn on while it runs is noticed.
drawn_while_running :
    replay (initialize_animation particles ∷ start_cfb ∷ clear_cfb ∷ []) asleep ≡ none
drawn_while_running = refl

abbrev some_calls : List Call
some_calls =
    adds (codes "log") ∷ adds (codes "gps") ∷ starts (pos 2) ∷ removes (codes "log") ∷ stops ∷ []

run_shows_example :
    let d = run (construct (some screen)) (initializes ∷ some_calls) in
    let a = spec_run some_calls spec_init in
    (screen_after d.trace ≡ a.shown)
    × (d.statuses ≡ a.statuses)
    × ((z : List ℕ) → Contains z d.statuses ↔ AfterAll some_calls (λ s. ⊥) z)
run_shows_example = run_shows screen some_calls

-- The animation gave way to the one status that was left.
gps_is_shown : (spec_run some_calls spec_init).shown ≡ texts (codes "gps" ∷ [])
unfolding animation_of insert erase text_ltb
gps_is_shown = refl
