-- ===== src/Controllers/Display/Seen.antt =====
-- The display controller and its specification: the methods that start and stop an animation or
-- print a text.
pub mod Statuses
use eerie_leap_rt.Common.{
  ℕ, ◌+◌, ◌%◌, ◌==◌, ◌≡◌, refl, sym, ap, ◌∙◌, subst, Bool, true, false, Option, none, some, List,
  [], ◌∷◌, ◌++◌, ℤ, pos, negsuc, arith, insert, erase, if◌then◌else◌, ◌&&◌, Bool-cases, inl, inr,
  append_assoc, append-nil,
}
use eerie_leap_rt.Common.Texts.{text_ltb}
use eerie_leap_rt.Controllers.Display.{
  Animation, Command, destroy, initialize_animation, set_animation_handler, start_cfb, stop_cfb,
  clear_cfb, flush_cfb, print_string, invert_area, set_font, Screen, Display, construct, emit,
  destroyed, animation_of, run_animation, or_current, start_animation, stop_animation, initialize,
  print_line, draw_statuses, invert_status, show_statuses, show_on, start_x_px, update_statuses,
  add_status, remove_status, clear_statuses, default_index,
}
use eerie_leap_rt.Controllers.Display.Modes.{
  stop_animation_running, Call, initializes, stops, clears, starts, prints, adds, removes, step,
  run,
}
use eerie_leap_rt.Controllers.Display.View.{
  Shown, nothing, halted, moving, texts, View, show, show_all, show_all-append, blank, screen_after,
  Spec, halt, or_last, animate_if, with_statuses, spec_step, spec_run, spec_init,
}

abbrev is_moving : Shown → Bool
is_moving (moving a) = true
is_moving _ = false

-- An initialized controller on a screen that has what the specification has.
pub record Implements (d : Display) (a : Spec) : Type 0 where
  pub screen : Screen
  pub has_screen : d.cfb ≡ some screen
  pub on : d.is_initialized ≡ true
  pub statuses_lem : d.statuses ≡ a.statuses
  pub index_lem : d.current_animation_index ≡ a.index
  pub shown_lem : screen_after d.trace ≡ a.shown
  pub moving_lem : d.is_animation_in_progress ≡ is_moving a.shown

-- The screen after some more calls, if these alone decide it.
screen_after-append :
    (t cs : List Command) (x : Shown)
    → ((v : View) → (show_all cs v).shown ≡ x)
    → screen_after (t ++ cs) ≡ x
screen_after-append t cs x h =
    ap (λ (v : View). v.shown) (show_all-append t cs blank) ∙ h (show_all t blank)

start_shown :
    (o : Option Animation) (a : Animation) (v : View)
    → (show_all
        (destroyed o ++ (initialize_animation a ∷ set_animation_handler 30 ∷ start_cfb ∷ []))
        v).shown
      ≡ moving a
start_shown none a v = refl
start_shown (some b) a v = refl

stop_shown :
    (o : Option Animation) (v : View) → (show_all (stop_cfb ∷ destroyed o) v).shown ≡ halted
stop_shown none v = refl
stop_shown (some b) v = refl

run_animation-Implements :
    (i : ℤ) (o : Option Animation) (d : Display) (a : Spec)
    → Implements d a
    → Implements (run_animation i o d) (animate_if i o a)
unfolding run_animation
run_animation-Implements i none d a h = h
run_animation-Implements i (some animation) d a h = record {
  screen = h.screen;
  has_screen = h.has_screen;
  on = h.on;
  statuses_lem = h.statuses_lem;
  index_lem = refl;
  shown_lem = screen_after-append d.trace _ (moving animation) (start_shown d.animation animation);
  moving_lem = refl;
}

or_current_lem :
    (i : ℤ) (d : Display) (a : Spec) → Implements d a → or_current i d ≡ or_last i a.index
or_current_lem (pos i) d a h = refl
or_current_lem (negsuc i) d a h = h.index_lem

-- The guard of a method, passed or not.
then-Implements :
    (b : Bool) (e d : Display) (a : Spec)
    → b ≡ true
    → Implements e a
    → Implements (if b then e else d) a
then-Implements true e d a p h = h
then-Implements false e d a p h = cc

else-Implements :
    (b : Bool) (e d : Display) (a : Spec)
    → b ≡ false
    → Implements d a
    → Implements (if b then e else d) a
else-Implements true e d a p h = cc
else-Implements false e d a p h = h

start_animation-Implements :
    (i : ℤ) (d : Display) (a : Spec)
    → Implements d a
    → Implements
        (start_animation i d)
        (animate_if (or_last i a.index) (animation_of (or_last i a.index)) a)
unfolding start_animation
start_animation-Implements i d a h =
    let j = or_last i a.index in
    then-Implements d.is_initialized _ d (animate_if j (animation_of j) a) h.on (
      subst (λ k. Implements (run_animation k (animation_of k) d) (animate_if j (animation_of j) a))
        (sym (or_current_lem i d a h)) (run_animation-Implements j (animation_of j) d a h))

halt_moving : (x : Shown) → is_moving x ≡ true → halt x ≡ halted
halt_moving nothing e = cc
halt_moving halted e = cc
halt_moving (moving a) e = refl
halt_moving (texts ss) e = cc

halt_still : (x : Shown) → is_moving x ≡ false → halt x ≡ x
halt_still nothing e = refl
halt_still halted e = refl
halt_still (moving a) e = cc
halt_still (texts ss) e = refl

-- The screen was moving, and its animation is stopped.
stopped-Implements :
    (d e : Display) (a : Spec)
    → Implements d a
    → d.is_animation_in_progress ≡ true
    → e ≡ record (emit (stop_cfb ∷ destroyed d.animation) d) {
      animation = none;
      is_animation_in_progress = false;
    }
    → Implements e (record a { shown = halt a.shown })
stopped-Implements d e a h p q =
    subst (λ x. Implements x (record a { shown = halt a.shown })) (sym q)
      (subst
        (λ x.
          Implements
            (record (emit (stop_cfb ∷ destroyed d.animation) d) {
              animation = none;
              is_animation_in_progress = false;
            })
            (record a { shown = x }))
        (sym (halt_moving a.shown (sym h.moving_lem ∙ p)))
        (record {
          screen = h.screen;
          has_screen = h.has_screen;
          on = h.on;
          statuses_lem = h.statuses_lem;
          index_lem = h.index_lem;
          shown_lem = screen_after-append d.trace _ halted (stop_shown d.animation);
          moving_lem = refl;
        }))

still-Implements :
    (d : Display) (a : Spec)
    → Implements d a
    → d.is_animation_in_progress ≡ false
    → Implements d (record a { shown = halt a.shown })
still-Implements d a h p =
    subst (λ x. Implements d (record a { shown = x }))
      (sym (halt_still a.shown (sym h.moving_lem ∙ p))) h

stop_animation-Implements :
    (d : Display) (a : Spec)
    → Implements d a
    → Implements (stop_animation d) (record a { shown = halt a.shown })
unfolding stop_animation
stop_animation-Implements d a h = elim (Bool-cases d.is_animation_in_progress) [
  | inl p ↦
      then-Implements (d.is_initialized && d.is_animation_in_progress) _ d _ (ground (arith, h.on))
        (stopped-Implements d _ a h p refl)
  | inr p ↦
      else-Implements (d.is_initialized && d.is_animation_in_progress) _ d _ (ground (arith, h.on))
        (still-Implements d a h p)
]

-- Calls that draw texts on a screen that does not move.
draw-Implements :
    (cs : List Command) (ss : List (List ℕ)) (d : Display) (a : Spec)
    → Implements d a
    → d.is_animation_in_progress ≡ false
    → ((v : View) → (show_all cs v).shown ≡ texts ss)
    → Implements (emit cs d) (record a { shown = texts ss })
draw-Implements cs ss d a h p r = record {
  screen = h.screen;
  has_screen = h.has_screen;
  on = h.on;
  statuses_lem = h.statuses_lem;
  index_lem = h.index_lem;
  shown_lem = screen_after-append d.trace cs (texts ss) r;
  moving_lem = p;
}

print_line-Implements :
    (text : List ℕ) (d : Display) (a : Spec)
    → Implements d a
    → Implements (print_line text d) (record a { shown = texts (text ∷ []) })
unfolding print_line
print_line-Implements text d a h = then-Implements d.is_initialized _ d _ h.on (
    draw-Implements _ (text ∷ []) (stop_animation d) (record a { shown = halt a.shown })
      (stop_animation-Implements d a h) (stop_animation_running d h.on) (λ v. refl))
