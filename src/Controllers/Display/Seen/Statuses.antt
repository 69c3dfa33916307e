-- ===== src/Controllers/Display/Seen/Statuses.antt =====
-- The display controller and its specification: the statuses, and all methods together.
use eerie_leap_rt.Common.{
  ℕ, ◌+◌, ◌%◌, ◌==◌, ◌≡◌, refl, sym, ap, ◌∙◌, subst, Bool, true, false, none, some, List, [], ◌∷◌,
  ◌++◌, ℤ, pos, ◌↔◌, Contains, insert, erase, if◌then◌else◌, append_assoc, append-nil,
}
use eerie_leap_rt.Common.Texts.{text_ltb}
use eerie_leap_rt.Controllers.Display.{
  Command, clear_cfb, flush_cfb, invert_area, set_font, Screen, Display, construct, emit,
  start_animation, stop_animation, initialize, draw_statuses, invert_status, show_statuses, show_on,
  start_x_px, update_statuses, add_status, remove_status, clear_statuses, default_index,
}
use eerie_leap_rt.Controllers.Display.Modes.{
  stop_animation_running, Call, initializes, stops, clears, starts, prints, adds, removes, step,
  run,
}
use eerie_leap_rt.Controllers.Display.View.{
  texts, View, show, show_all, show_all-append, screen_after, Spec, halt, with_statuses, spec_step,
  spec_run, spec_init,
}
use eerie_leap_rt.Controllers.Display.Refinement.{AfterAll, run_refines}
use eerie_leap_rt.Controllers.Display.Seen.{
  Implements, then-Implements, start_animation-Implements, stop_animation-Implements,
  draw-Implements, print_line-Implements,
}

show_inverted :
    (b : Bool) (x0 x1 : ℕ) (y0 y1 : ℤ) (rest : List Command) (v : View)
    → show_all ((if b then [] else invert_area x0 y0 x1 y1 ∷ []) ++ rest) v ≡ show_all rest v
show_inverted true x0 x1 y0 y1 rest v = refl
show_inverted false x0 x1 y0 y1 rest v = refl

show_draw_statuses :
    (screen : Screen) (i x : ℕ) (ss : List (List ℕ)) (v : View)
    → show_all (draw_statuses screen i x ss) v ≡ record v { buffer = v.buffer ++ ss }
unfolding draw_statuses invert_status
show_draw_statuses screen i x [] v = ap (λ b. record v { buffer = b }) (sym (append-nil v.buffer))
show_draw_statuses screen i x (s ∷ ss) v =
    let next : View = record v { buffer = v.buffer ++ (s ∷ []) } in
    show_inverted (i % 2 == 0) _ _ _ _ _ next
    ∙ show_draw_statuses screen (i + 1) _ ss next
    ∙ ap (λ b. record v { buffer = b }) (append_assoc v.buffer (s ∷ []) ss)

show_statuses_shown :
    (screen : Screen) (x : ℕ) (ss : List (List ℕ)) (v : View)
    → (show_all (clear_cfb ∷ (draw_statuses screen 0 x ss ++ (flush_cfb ∷ []))) v).shown ≡ texts ss
show_statuses_shown screen x ss v =
    let clear : View = record v { buffer = [] } in
    ap (λ (u : View). u.shown)
      (show_all-append (draw_statuses screen 0 x ss) (flush_cfb ∷ []) clear
        ∙ ap (show flush_cfb) (show_draw_statuses screen 0 x ss clear))

show_statuses-Implements :
    (screen : Screen) (d : Display) (a : Spec)
    → Implements d a
    → Implements (show_statuses screen d) (record a { shown = texts a.statuses })
unfolding show_statuses
show_statuses-Implements screen d a h =
    subst (λ ss. Implements (show_statuses screen d) (record a { shown = texts ss })) h.statuses_lem
      (draw-Implements _ d.statuses (stop_animation d) (record a { shown = halt a.shown })
        (stop_animation-Implements d a h) (stop_animation_running d h.on)
        (show_statuses_shown screen (start_x_px screen d.statuses) d.statuses))

replaced-Implements :
    (ss : List (List ℕ)) (d : Display) (a : Spec)
    → Implements d a
    → Implements (record d { statuses = ss }) (record a { statuses = ss })
replaced-Implements ss d a h = record {
  screen = h.screen;
  has_screen = h.has_screen;
  on = h.on;
  statuses_lem = refl;
  index_lem = h.index_lem;
  shown_lem = h.shown_lem;
  moving_lem = h.moving_lem;
}

-- A status method on the statuses that it leaves.
update_statuses-Implements :
    (ss : List (List ℕ)) (d : Display) (a : Spec)
    → Implements d a
    → Implements
        (if d.is_initialized then update_statuses (record d { statuses = ss }) else d)
        (with_statuses ss a)
unfolding update_statuses
update_statuses-Implements ss d a h =
    then-Implements d.is_initialized _ d (with_statuses ss a) h.on (
      then-Implements d.is_initialized _ (record d { statuses = ss }) (with_statuses ss a) h.on
        (updated ss _ (replaced-Implements ss d a h)))
  where
    updated :
        (ss : List (List ℕ)) (next : Display)
        → Implements next (record a { statuses = ss })
        → Implements
            (elim ss [ [] ↦ start_animation default_index next | s ∷ rest ↦ show_on next.cfb next ])
            (with_statuses ss a)
    updated [] next k = start_animation-Implements default_index next (record a { statuses = [] }) k
    updated (s ∷ rest) next k =
        subst (λ o. Implements (show_on o next) (with_statuses (s ∷ rest) a)) (sym k.has_screen)
          (show_statuses-Implements k.screen next (record a { statuses = s ∷ rest }) k)

initialize-Implements : (d : Display) (a : Spec) → Implements d a → Implements (initialize d) a
unfolding initialize
initialize-Implements d a h =
    subst
      (λ o.
        Implements
          (elim o [
            | none ↦ d
            | some screen ↦
                if d.is_initialized
                then d
                else start_animation (pos 0)
                    (record (emit (set_font 0 ∷ []) d) { is_initialized = true })
          ])
          a)
      (sym h.has_screen) (then-Implements d.is_initialized d _ a h.on h)

pub step-Implements :
    (c : Call) (d : Display) (a : Spec) → Implements d a → Implements (step d c) (spec_step c a)
unfolding step add_status remove_status clear_statuses
step-Implements initializes d a h = initialize-Implements d a h
step-Implements stops d a h = stop_animation-Implements d a h
step-Implements clears d a h = update_statuses-Implements [] d a h
step-Implements (starts i) d a h = start_animation-Implements i d a h
step-Implements (prints text) d a h = print_line-Implements text d a h
step-Implements (adds s) d a h =
    subst (λ ss. Implements (add_status s d) (with_statuses (insert text_ltb s ss) a))
      h.statuses_lem (update_statuses-Implements (insert text_ltb s d.statuses) d a h)
step-Implements (removes s) d a h =
    subst (λ ss. Implements (remove_status s d) (with_statuses (erase text_ltb s ss) a))
      h.statuses_lem (update_statuses-Implements (erase text_ltb s d.statuses) d a h)

run-Implements :
    (cs : List Call) (d : Display) (a : Spec)
    → Implements d a
    → Implements (run d cs) (spec_run cs a)
unfolding run
run-Implements [] d a h = h
run-Implements (c ∷ cs) d a h =
    run-Implements cs (step d c) (spec_step c a) (step-Implements c d a h)

pub initialized-Implements :
    (screen : Screen) → Implements (initialize (construct (some screen))) spec_init
unfolding construct initialize
initialized-Implements screen = record {
  screen = screen;
  has_screen = refl;
  on = refl;
  statuses_lem = refl;
  index_lem = refl;
  shown_lem = refl;
  moving_lem = refl;
}

-- On a screen, behind Initialize and any other calls, the screen shows what the specification says,
-- by the calls that the frame buffer got: the statuses in their order behind a status method, as long
-- as there are any, a printed text alone, an animation that moves, or a halted one. The stored
-- statuses are those of the specification, and as a set they are what AddStatus, RemoveStatus and
-- ClearStatuses make of the empty set.
pub run_shows :
    (screen : Screen) (cs : List Call)
    → let d = run (construct (some screen)) (initializes ∷ cs) in
      let a = spec_run cs spec_init in
      (screen_after d.trace ≡ a.shown)
      × (d.statuses ≡ a.statuses)
      × ((z : List ℕ) → Contains z d.statuses ↔ AfterAll cs (λ s. ⊥) z)
unfolding run construct
run_shows screen cs =
    let h =
      run-Implements cs (initialize (construct (some screen))) spec_init
        (initialized-Implements screen) in
    (h.shown_lem, h.statuses_lem, run_refines screen cs)
