-- ===== src/Controllers/Logging/Sync.antt =====
-- The status on the display and the log writer agree.
use eerie_leap_rt.Common.{
  ◌≡◌, refl, sym, ◌∙◌, Bool, true, false, Option, none, some, ℤ, is_zero, arith, Bool-cases, inl,
  inr, Contains,
}
use eerie_leap_rt.Controllers.Display.{add_status, remove_status}
use eerie_leap_rt.Controllers.Display.Modes.{IsValid, add_status-IsUpdated, remove_status-IsUpdated}
use eerie_leap_rt.Controllers.Display.Statuses.{add_status_lem, remove_status_lem}
use eerie_leap_rt.Controllers.Logging.{
  LogWriter, Logging, log_status, started, stopped, log_writer_start, log_writer_stop,
  handle_command,
}

-- What the controller relies on in the log writer: a start that returns 0 leaves it running, a stop
-- that returns 0 leaves it stopped, and a call that fails changes nothing of this.
pub record IsFaithful (l : LogWriter) : Type 0 where
  pub start_ok :
      (w : l.World) → is_zero (l.writer_start w).0 ≡ true → l.is_running (l.writer_start w).1 ≡ true
  pub start_failed :
      (w : l.World)
      → is_zero (l.writer_start w).0 ≡ false
      → l.is_running (l.writer_start w).1 ≡ l.is_running w
  pub stop_ok :
      (w : l.World) → is_zero (l.writer_stop w).0 ≡ true → l.is_running (l.writer_stop w).1 ≡ false
  pub stop_failed :
      (w : l.World)
      → is_zero (l.writer_stop w).0 ≡ false
      → l.is_running (l.writer_stop w).1 ≡ l.is_running w

module _ (l : LogWriter) where
  -- The display is in use, and it shows "log" exactly while the writer runs.
  pub record InSync (s : Logging l) : Type 0 where
    pub valid : IsValid s.display
    pub on : s.display.is_initialized ≡ true
    pub while_running : l.is_running s.writer ≡ true → Contains log_status s.display.statuses
    pub while_stopped : l.is_running s.writer ≡ false → ¬ Contains log_status s.display.statuses

  shown-InSync :
      (w : l.World) (s : Logging l)
      → InSync s
      → l.is_running w ≡ true
      → InSync (record { writer = w; display = add_status log_status s.display })
  shown-InSync w s y run =
      let up = add_status-IsUpdated log_status s.display y.valid y.on in
      record {
        valid = up.valid;
        on = up.same_initialized ∙ y.on;
        while_running =
            λ _. (add_status_lem log_status s.display y.valid y.on).0 log_status (inl refl);
        while_stopped = λ stop. cc;
      }

  hidden-InSync :
      (w : l.World) (s : Logging l)
      → InSync s
      → l.is_running w ≡ false
      → InSync (record { writer = w; display = remove_status log_status s.display })
  hidden-InSync w s y stop =
      let up = remove_status-IsUpdated log_status s.display y.valid y.on in
      let gone = (remove_status_lem log_status s.display y.valid y.on).1 in
      record {
        valid = up.valid;
        on = up.same_initialized ∙ y.on;
        while_running = λ run. cc;
        while_stopped = λ _ c. (gone log_status c).0 refl;
      }

  kept-InSync :
      (w : l.World) (s : Logging l)
      → InSync s
      → l.is_running w ≡ l.is_running s.writer
      → InSync (record s { writer = w })
  kept-InSync w s y same = record {
    valid = y.valid;
    on = y.on;
    while_running = λ run. y.while_running (sym same ∙ run);
    while_stopped = λ stop. y.while_stopped (sym same ∙ stop);
  }

  started-InSync :
      (x : ℤ × l.World) (s : Logging l)
      → InSync s
      → (is_zero x.0 ≡ true → l.is_running x.1 ≡ true)
      → (is_zero x.0 ≡ false → l.is_running x.1 ≡ l.is_running s.writer)
      → InSync (started l x s).1
  unfolding started
  started-InSync (res, w) s y ok failed = elim (Bool-cases (is_zero res)) [
    | inl e ↦ rw (e, started) (shown-InSync w s y (ok e))
    | inr e ↦ rw (e, started) (kept-InSync w s y (failed e))
  ]

  stopped-InSync :
      (x : ℤ × l.World) (s : Logging l)
      → InSync s
      → (is_zero x.0 ≡ true → l.is_running x.1 ≡ false)
      → (is_zero x.0 ≡ false → l.is_running x.1 ≡ l.is_running s.writer)
      → InSync (stopped l x s).1
  unfolding stopped
  stopped-InSync (res, w) s y ok failed = elim (Bool-cases (is_zero res)) [
    | inl e ↦ rw (e, stopped) (hidden-InSync w s y (ok e))
    | inr e ↦ rw (e, stopped) (kept-InSync w s y (failed e))
  ]

  log_writer_start-InSync :
      (law : IsFaithful l) (s : Logging l) → InSync s → InSync (log_writer_start l s).1
  unfolding log_writer_start
  log_writer_start-InSync law s y = elim (Bool-cases (l.is_running s.writer)) [
    | inl run ↦ rw (run, log_writer_start) y
    | inr stop ↦
        rw (stop, log_writer_start)
          (started-InSync (l.writer_start s.writer) s y (law.start_ok s.writer)
            (law.start_failed s.writer))
  ]

  log_writer_stop-InSync :
      (law : IsFaithful l) (s : Logging l) → InSync s → InSync (log_writer_stop l s).1
  unfolding log_writer_stop
  log_writer_stop-InSync law s y = elim (Bool-cases (l.is_running s.writer)) [
    | inl run ↦
        rw (run, log_writer_stop)
          (stopped-InSync (l.writer_stop s.writer) s y (law.stop_ok s.writer)
            (law.stop_failed s.writer))
    | inr stop ↦ rw (stop, log_writer_stop) y
  ]

  -- Every CAN command, one that cannot be read too, and whether or not the writer obeys, keeps the
  -- status "log" on the display exactly while the writer runs.
  pub handle_command-InSync :
      (law : IsFaithful l) (command : Option Bool) (s : Logging l)
      → InSync s
      → InSync (handle_command l command s).1
  unfolding handle_command
  handle_command-InSync law none s y = y
  handle_command-InSync law (some true) s y = log_writer_start-InSync law s y
  handle_command-InSync law (some false) s y = log_writer_stop-InSync law s y

  -- After a call that returned 0 the writer runs, and is stopped, respectively.
  start-is_running :
      (law : IsFaithful l) (s : Logging l)
      → is_zero (log_writer_start l s).0 ≡ true
      → l.is_running (log_writer_start l s).1.writer ≡ true
  unfolding log_writer_start
  start-is_running law s h = ground (arith, law.start_ok s.writer)

  stop-is_running :
      (law : IsFaithful l) (s : Logging l)
      → is_zero (log_writer_stop l s).0 ≡ true
      → l.is_running (log_writer_stop l s).1.writer ≡ false
  unfolding log_writer_stop
  stop-is_running law s h = ground (arith, law.stop_ok s.writer)

  start_running :
      (t : Logging l) → l.is_running t.writer ≡ true → handle_command l (some true) t ≡ (true, t)
  unfolding handle_command
  start_running t run = ground arith

  stop_stopped :
      (t : Logging l) → l.is_running t.writer ≡ false → handle_command l (some false) t ≡ (true, t)
  unfolding handle_command
  stop_stopped t stop = ground arith

  -- A command that is answered by true has reached what it asked for, and the same command again
  -- is answered by true and changes nothing.
  pub handle_command_again :
      (law : IsFaithful l) (start : Bool) (s : Logging l)
      → (handle_command l (some start) s).0 ≡ true
      → let t = (handle_command l (some start) s).1 in
        (l.is_running t.writer ≡ start) × (handle_command l (some start) t ≡ (true, t))
  unfolding handle_command
  handle_command_again law true s h =
      let run = start-is_running law s h in (run, start_running (log_writer_start l s).1 run)
  handle_command_again law false s h =
      let stop = stop-is_running law s h in (stop, stop_stopped (log_writer_stop l s).1 stop)
