-- ===== src/Controllers/Display/Lifetimes.antt =====
-- The calls of the display controller under the automaton that watches them.
use eerie_leap_rt.Common.{
  ℕ, ◌+◌, ◌%◌, ◌==◌, ◌≡◌, refl, Bool, true, false, Option, none, some, List, [], ◌∷◌, ◌++◌, arith,
  ℤ, if◌then◌else◌, ◌&&◌, Bool-cases, inl, inr, ◌∙◌, ap, subst, sym, pos, insert, erase,
}
use eerie_leap_rt.Common.Texts.{text_ltb}
use eerie_leap_rt.Controllers.Display.{
  Animation, wave_lines, dot_path, particles, tapered_wave, Command, set_font, initialize_animation,
  set_animation_handler, start_cfb, stop_cfb, clear_cfb, flush_cfb, Screen, Display, construct,
  emit, destroyed, run_animation, start_animation, stop_animation, initialize, print_line,
  draw_statuses, show_statuses, show_on, start_x_px, update_statuses, add_status, remove_status,
  clear_statuses, default_index, invert_status,
}
use eerie_leap_rt.Controllers.Display.Modes.{
  stop_animation_running, Call, initializes, stops, clears, starts, prints, adds, removes, step,
  run,
}
use eerie_leap_rt.Controllers.Display.Watch.{
  Watch, watch_of, replay, and_replay, asleep, still, replay-append,
}

pub record IsWatched (d : Display) : Type 0 where
  pub replayed : replay d.trace asleep ≡ some (watch_of d)

-- A state that came from another by these calls.
emit-IsWatched :
    (cs : List Command) (d e : Display)
    → IsWatched d
    → e.trace ≡ d.trace ++ cs
    → replay cs (watch_of d) ≡ some (watch_of e)
    → IsWatched e
emit-IsWatched cs d e w t r = record {
  replayed =
      ap (λ x. replay x asleep) t
      ∙ replay-append d.trace cs asleep
      ∙ ap (λ o. and_replay o (replay cs)) w.replayed
      ∙ r;
}

-- The calls that end one animation, if there is one, and begin another.
replay-restart :
    (o : Option Animation) (a : Animation) (r : Bool)
    → replay
        (destroyed o ++ (initialize_animation a ∷ set_animation_handler 30 ∷ start_cfb ∷ []))
        (record { live = o; running = r })
      ≡ some (record { live = some a; running = true })
replay-restart none a r = refl
replay-restart (some wave_lines) a r = refl
replay-restart (some dot_path) a r = refl
replay-restart (some particles) a r = refl
replay-restart (some tapered_wave) a r = refl

replay-stop :
    (o : Option Animation)
    → replay (stop_cfb ∷ destroyed o) (record { live = o; running = true }) ≡ some asleep
replay-stop none = refl
replay-stop (some wave_lines) = refl
replay-stop (some dot_path) = refl
replay-stop (some particles) = refl
replay-stop (some tapered_wave) = refl

if-IsWatched :
    (b : Bool) (e d : Display)
    → (b ≡ true → IsWatched e)
    → IsWatched d
    → IsWatched (if b then e else d)
if-IsWatched true e d h w = h refl
if-IsWatched false e d h w = w

run_animation-IsWatched :
    (i : ℤ) (o : Option Animation) (d : Display) → IsWatched d → IsWatched (run_animation i o d)
unfolding run_animation
run_animation-IsWatched i none d w = w
run_animation-IsWatched i (some a) d w =
    emit-IsWatched _ d _ w refl (replay-restart d.animation a d.is_animation_in_progress)

start_animation-IsWatched : (i : ℤ) (d : Display) → IsWatched d → IsWatched (start_animation i d)
unfolding start_animation
start_animation-IsWatched i d w =
    if-IsWatched d.is_initialized _ d (λ h. run_animation-IsWatched _ _ d w) w

stop_animation-IsWatched : (d : Display) → IsWatched d → IsWatched (stop_animation d)
unfolding stop_animation
stop_animation-IsWatched d w =
    if-IsWatched (d.is_initialized && d.is_animation_in_progress) _ d
      (λ h.
        let on : d.is_animation_in_progress ≡ true = ground arith in
        emit-IsWatched _ d _ w refl (
          subst
            (λ r.
              replay (stop_cfb ∷ destroyed d.animation) (record { live = d.animation; running = r })
              ≡ some asleep)
            (sym on) (replay-stop d.animation)))
      w

-- Calls that only draw.
draw-IsWatched :
    (cs : List Command) (d : Display)
    → d.is_animation_in_progress ≡ false
    → ((o : Option Animation) → replay cs (still o) ≡ some (still o))
    → IsWatched d
    → IsWatched (emit cs d)
draw-IsWatched cs d h r w = emit-IsWatched cs d (emit cs d) w refl (
    subst (λ b. let m : Watch = record { live = d.animation; running = b } in replay cs m ≡ some m)
      (sym h) (r d.animation))

print_line-IsWatched : (text : List ℕ) (d : Display) → IsWatched d → IsWatched (print_line text d)
unfolding print_line
print_line-IsWatched text d w =
    if-IsWatched d.is_initialized _ d
      (λ h.
        draw-IsWatched _ _ (stop_animation_running d h) (λ o. refl) (stop_animation-IsWatched d w))
      w

replay-draw_statuses :
    (screen : Screen) (i x : ℕ) (ss : List (List ℕ)) (o : Option Animation)
    → replay (draw_statuses screen i x ss) (still o) ≡ some (still o)
unfolding draw_statuses invert_status
replay-draw_statuses screen i x [] o = refl
replay-draw_statuses screen i x (s ∷ ss) o = elim (Bool-cases (i % 2 == 0)) [
  | inl e ↦ rw (e, draw_statuses) (replay-draw_statuses screen (i + 1) _ ss o)
  | inr e ↦ rw (e, draw_statuses) (replay-draw_statuses screen (i + 1) _ ss o)
]

show_statuses-IsWatched :
    (screen : Screen) (d : Display)
    → d.is_initialized ≡ true
    → IsWatched d
    → IsWatched (show_statuses screen d)
unfolding show_statuses
show_statuses-IsWatched screen d h w =
    draw-IsWatched _ _ (stop_animation_running d h) drawn (stop_animation-IsWatched d w)
  where
    drawn :
        (o : Option Animation)
        → replay
            (clear_cfb
              ∷ (draw_statuses screen 0 (start_x_px screen d.statuses) d.statuses
                  ++ (flush_cfb ∷ [])))
            (still o)
          ≡ some (still o)
    drawn o =
        let cs = draw_statuses screen 0 (start_x_px screen d.statuses) d.statuses in
        replay-append cs (flush_cfb ∷ []) (still o)
        ∙ ap (λ x. and_replay x (replay (flush_cfb ∷ [])))
            (replay-draw_statuses screen 0 (start_x_px screen d.statuses) d.statuses o)

show_on-IsWatched :
    (o : Option Screen) (d : Display)
    → d.is_initialized ≡ true
    → IsWatched d
    → IsWatched (show_on o d)
show_on-IsWatched none d h w = w
show_on-IsWatched (some screen) d h w = show_statuses-IsWatched screen d h w

update_statuses-IsWatched : (d : Display) → IsWatched d → IsWatched (update_statuses d)
unfolding update_statuses
update_statuses-IsWatched d w = if-IsWatched d.is_initialized _ d (λ h. updated d.statuses h) w
  where
    updated :
        (ss : List (List ℕ))
        → d.is_initialized ≡ true
        → IsWatched (elim ss [ [] ↦ start_animation default_index d | s ∷ rest ↦ show_on d.cfb d ])
    updated [] h = start_animation-IsWatched default_index d w
    updated (s ∷ rest) h = show_on-IsWatched d.cfb d h w

-- A status method, on the set that it leaves.
with_statuses-IsWatched :
    (d : Display) (ss : List (List ℕ))
    → IsWatched d
    → IsWatched (if d.is_initialized then update_statuses (record d { statuses = ss }) else d)
with_statuses-IsWatched d ss w =
    if-IsWatched d.is_initialized _ d
      (λ h.
        update_statuses-IsWatched (record d { statuses = ss }) (record { replayed = w.replayed }))
      w

initialize-IsWatched : (d : Display) → IsWatched d → IsWatched (initialize d)
unfolding initialize
initialize-IsWatched d w = shown d.cfb
  where
    ready : Display
    ready = record (emit (set_font 0 ∷ []) d) { is_initialized = true }

    ready-IsWatched : IsWatched ready
    ready-IsWatched = emit-IsWatched (set_font 0 ∷ []) d ready w refl refl

    shown :
        (o : Option Screen)
        → IsWatched (elim o [
          | none ↦ d
          | some screen ↦ if d.is_initialized then d else start_animation (pos 0) ready
        ])
    shown none = w
    shown (some screen) =
        if-IsWatched d.is_initialized d (start_animation (pos 0) ready) (λ h. w)
          (start_animation-IsWatched (pos 0) ready ready-IsWatched)

step-IsWatched : (d : Display) (c : Call) → IsWatched d → IsWatched (step d c)
unfolding step add_status remove_status clear_statuses
step-IsWatched d initializes w = initialize-IsWatched d w
step-IsWatched d stops w = stop_animation-IsWatched d w
step-IsWatched d clears w = with_statuses-IsWatched d [] w
step-IsWatched d (starts i) w = start_animation-IsWatched i d w
step-IsWatched d (prints text) w = print_line-IsWatched text d w
step-IsWatched d (adds s) w = with_statuses-IsWatched d (insert text_ltb s d.statuses) w
step-IsWatched d (removes s) w = with_statuses-IsWatched d (erase text_ltb s d.statuses) w

run-IsWatched : (d : Display) (cs : List Call) → IsWatched d → IsWatched (run d cs)
unfolding run
run-IsWatched d [] w = w
run-IsWatched d (c ∷ cs) w = run-IsWatched (step d c) cs (step-IsWatched d c w)

-- Whatever is called on a new controller, with a screen or without, every call that it makes is in
-- place: it destroys only the animation object that lives, initializes a new one only when none
-- lives, starts the screen's animation only with one, stops only a screen that runs, and draws only
-- while the screen does not run. At the end its fields say which object lives and whether the screen
-- runs.
pub replay-run :
    (cfb : Option Screen) (cs : List Call)
    → let d = run (construct cfb) cs in
      replay d.trace asleep
      ≡ some (record { live = d.animation; running = d.is_animation_in_progress })
unfolding construct
replay-run cfb cs = (run-IsWatched (construct cfb) cs (record { replayed = refl })).replayed
