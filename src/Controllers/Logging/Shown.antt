-- ===== src/Controllers/Logging/Shown.antt =====
-- What the screen shows of the log writer.
use eerie_leap_rt.Common.{
  ◌≡◌, refl, sym, ◌∙◌, subst, Bool, true, false, Option, none, some, pos, is_zero, Bool-cases, inl,
  inr, [], ◌∷◌, insert, erase,
}
use eerie_leap_rt.Common.Texts.{text_ltb}
use eerie_leap_rt.Controllers.Display.{add_status, remove_status, animation_of, wave_lines}
use eerie_leap_rt.Controllers.Display.Modes.{adds, removes, step}
use eerie_leap_rt.Controllers.Display.View.{
  Spec, Shown, texts, moving, spec_init, spec_step, screen_after,
}
use eerie_leap_rt.Controllers.Display.Seen.{Implements}
use eerie_leap_rt.Controllers.Display.Seen.Statuses.{step-Implements}
use eerie_leap_rt.Controllers.Logging.{
  LogWriter, Logging, log_status, started, stopped, log_writer_start, log_writer_stop,
  handle_command,
}
use eerie_leap_rt.Controllers.Logging.Sync.{IsFaithful}

-- The text "log" while the writer runs, and else the wave lines.
abbrev pub log_shown : Bool → Shown
log_shown true = texts (log_status ∷ [])
log_shown false = moving wave_lines

abbrev log_spec : Bool → Spec
log_spec true = record { statuses = log_status ∷ []; index = pos 0; shown = log_shown true }
log_spec false = spec_init

add_log : spec_step (adds log_status) (log_spec false) ≡ log_spec true
unfolding insert
add_log = refl

remove_log : spec_step (removes log_status) (log_spec true) ≡ log_spec false
unfolding erase text_ltb animation_of
remove_log = refl

module _ (l : LogWriter) where
  -- A display that no one else uses, in the state that belongs to the writer's.
  pub record IsShown (s : Logging l) : Type 0 where
    pub implemented : Implements s.display (log_spec (l.is_running s.writer))

  added-IsShown :
      (w : l.World) (s : Logging l)
      → IsShown s
      → l.is_running s.writer ≡ false
      → l.is_running w ≡ true
      → IsShown (record { writer = w; display = add_status log_status s.display })
  unfolding step
  added-IsShown w s h stop run =
      let before = subst (λ r. Implements s.display (log_spec r)) stop h.implemented in
      record {
        implemented =
            subst (λ r. Implements (add_status log_status s.display) (log_spec r)) (sym run)
              (subst (Implements (add_status log_status s.display)) add_log
                (step-Implements (adds log_status) s.display (log_spec false) before));
      }

  removed-IsShown :
      (w : l.World) (s : Logging l)
      → IsShown s
      → l.is_running s.writer ≡ true
      → l.is_running w ≡ false
      → IsShown (record { writer = w; display = remove_status log_status s.display })
  unfolding step
  removed-IsShown w s h run stop =
      let before = subst (λ r. Implements s.display (log_spec r)) run h.implemented in
      record {
        implemented =
            subst (λ r. Implements (remove_status log_status s.display) (log_spec r)) (sym stop)
              (subst (Implements (remove_status log_status s.display)) remove_log
                (step-Implements (removes log_status) s.display (log_spec true) before));
      }

  kept-IsShown :
      (w : l.World) (s : Logging l)
      → IsShown s
      → l.is_running w ≡ l.is_running s.writer
      → IsShown (record s { writer = w })
  kept-IsShown w s h same = record {
    implemented = subst (λ r. Implements s.display (log_spec r)) (sym same) h.implemented;
  }

  started-IsShown :
      (law : IsFaithful l) (s : Logging l)
      → IsShown s
      → l.is_running s.writer ≡ false
      → IsShown (started l (l.writer_start s.writer) s).1
  unfolding started
  started-IsShown law s h stop = elim (Bool-cases (is_zero (l.writer_start s.writer).0)) [
    | inl e ↦ rw (e, started) (added-IsShown _ s h stop (law.start_ok s.writer e))
    | inr e ↦ rw (e, started) (kept-IsShown _ s h (law.start_failed s.writer e))
  ]

  stopped-IsShown :
      (law : IsFaithful l) (s : Logging l)
      → IsShown s
      → l.is_running s.writer ≡ true
      → IsShown (stopped l (l.writer_stop s.writer) s).1
  unfolding stopped
  stopped-IsShown law s h run = elim (Bool-cases (is_zero (l.writer_stop s.writer).0)) [
    | inl e ↦ rw (e, stopped) (removed-IsShown _ s h run (law.stop_ok s.writer e))
    | inr e ↦ rw (e, stopped) (kept-IsShown _ s h (law.stop_failed s.writer e))
  ]

  pub handle_command-IsShown :
      (law : IsFaithful l) (command : Option Bool) (s : Logging l)
      → IsShown s
      → IsShown (handle_command l command s).1
  unfolding handle_command log_writer_start log_writer_stop
  handle_command-IsShown law none s h = h
  handle_command-IsShown law (some true) s h = elim (Bool-cases (l.is_running s.writer)) [
    | inl run ↦ rw (run, log_writer_start) h
    | inr stop ↦ rw (stop, log_writer_start) (started-IsShown law s h stop)
  ]
  handle_command-IsShown law (some false) s h = elim (Bool-cases (l.is_running s.writer)) [
    | inl run ↦ rw (run, log_writer_stop) (stopped-IsShown law s h run)
    | inr stop ↦ rw (stop, log_writer_stop) h
  ]

  log_spec_shown : (running : Bool) → (log_spec running).shown ≡ log_shown running
  log_spec_shown true = refl
  log_spec_shown false = refl

  pub shown-log_shown :
      (s : Logging l) → IsShown s → screen_after s.display.trace ≡ log_shown (l.is_running s.writer)
  shown-log_shown s h = h.implemented.shown_lem ∙ log_spec_shown (l.is_running s.writer)
