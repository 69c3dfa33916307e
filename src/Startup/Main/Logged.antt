-- ===== src/Startup/Main/Logged.antt =====
-- app/src/main.cpp, main: the display controller that it makes, in the hands of the logging
-- controller.
use eerie_leap_rt.Common.{
  ◌≡◌, refl, ◌∙◌, sym, subst, Bool, true, false, Option, none, some, List, [], ◌∷◌, returns,
}
use eerie_leap_rt.Controllers.Display.{Display, Screen}
use eerie_leap_rt.Controllers.Display
use eerie_leap_rt.Controllers.Display.Modes.{initializes, run, run-construct-IsValid}
use eerie_leap_rt.Controllers.Logging.{LogWriter, Logging, handle_command}
use eerie_leap_rt.Controllers.Logging.Sync.{IsFaithful, InSync, handle_command-InSync}
use eerie_leap_rt.Controllers.Display.View.{screen_after}
use eerie_leap_rt.Controllers.Display.Seen.Statuses.{initialized-Implements}
use eerie_leap_rt.Controllers.Logging.Shown.{
  IsShown, log_shown, handle_command-IsShown, shown-log_shown,
}
use eerie_leap_rt.DeviceTree.Fs.{Host, dt_fs_init}
use eerie_leap_rt.DeviceTree.Devices.{Board}
use eerie_leap_rt.Http.Collaborators.{Collaborators}
use eerie_leap_rt.Canbus.Platform.{Platform}
use eerie_leap_rt.Startup.Main.{
  Surroundings, Boot, looping, boot_init, configure_devices, is_present, screen_of, main,
}
use eerie_leap_rt.Startup.Main.Started.{with_display-Started}
use eerie_leap_rt.Startup.Main.Running.{configured_display}

-- The CAN commands that arrive one after the other.
abbrev pub handle_commands : (l : LogWriter) → List (Option Bool) → Logging l → Logging l
handle_commands l [] s = s
handle_commands l (command ∷ commands) s = handle_commands l commands (handle_command l command s).1

handle_commands-InSync :
    (l : LogWriter) (faithful : IsFaithful l) (commands : List (Option Bool)) (s : Logging l)
    → InSync l s
    → InSync l (handle_commands l commands s)
handle_commands-InSync l faithful [] s y = y
handle_commands-InSync l faithful (command ∷ commands) s y =
    handle_commands-InSync l faithful commands (handle_command l command s).1
      (handle_command-InSync l faithful command s y)

handle_commands-IsShown :
    (l : LogWriter) (faithful : IsFaithful l) (commands : List (Option Bool)) (s : Logging l)
    → IsShown l s
    → IsShown l (handle_commands l commands s)
handle_commands-IsShown l faithful [] s h = h
handle_commands-IsShown l faithful (command ∷ commands) s h =
    handle_commands-IsShown l faithful commands (handle_command l command s).1
      (handle_command-IsShown l faithful command s h)

-- A new display and a writer that does not run agree.
initialize-InSync :
    (l : LogWriter) (w : l.World) (screen : Screen)
    → l.is_running w ≡ false
    → InSync l
        (record { writer = w; display = Display.initialize (Display.construct (some screen)) })
unfolding Display.initialize Display.construct run
initialize-InSync l w screen stopped = record {
  valid = run-construct-IsValid (some screen) (initializes ∷ []);
  on = refl;
  while_running = λ running. cc;
  while_stopped = λ h c. c;
}

initialize-IsShown :
    (l : LogWriter) (w : l.World) (screen : Screen)
    → l.is_running w ≡ false
    → IsShown l
        (record { writer = w; display = Display.initialize (Display.construct (some screen)) })
initialize-IsShown l w screen stopped = record {
  implemented = rw stopped (initialized-Implements screen);
}

module _ (b : Board) (h : Host) (c : Collaborators) (p : Platform) (m : Surroundings b h c p) where
  screen_of-InSync :
      (l : LogWriter) (w : l.World) (o : Option b.Device)
      → l.is_running w ≡ false
      → is_present o ≡ true
      → InSync l (record {
        writer = w;
        display = Display.initialize (Display.construct (screen_of b h c p m o));
      })
  screen_of-InSync l w none stopped e = cc
  screen_of-InSync l w (some device) stopped e = initialize-InSync l w (m.screen device) stopped

  screen_of-IsShown :
      (l : LogWriter) (w : l.World) (o : Option b.Device)
      → l.is_running w ≡ false
      → is_present o ≡ true
      → IsShown l (record {
        writer = w;
        display = Display.initialize (Display.construct (screen_of b h c p m o));
      })
  screen_of-IsShown l w none stopped e = cc
  screen_of-IsShown l w (some device) stopped e = initialize-IsShown l w (m.screen device) stopped

  -- After any commands, the status "log" is stored exactly while the writer runs.
  main-InSync :
      (l : LogWriter) (faithful : IsFaithful l) (w : l.World) (commands : List (Option Bool))
      (t : Boot b h c p)
      → l.is_running w ≡ false
      → is_present b.display ≡ true
      → main b h c p m (boot_init b h c p m) ≡ (returns looping, t)
      → InSync l (handle_commands l commands (record { writer = w; display = t.display }))
  unfolding main boot_init configure_devices
  main-InSync l faithful w commands t stopped display e =
      let run = with_display-Started b h c p m _ _ _ t e in
      handle_commands-InSync l faithful commands _ (
        subst (λ (d : Display). InSync l (record { writer = w; display = d })) (sym run.display_lem)
          (screen_of-InSync l w _ stopped (configured_display b h c p m (dt_fs_init h) ∙ display)))

  main-IsShown :
      (l : LogWriter) (faithful : IsFaithful l) (w : l.World) (commands : List (Option Bool))
      (t : Boot b h c p)
      → l.is_running w ≡ false
      → is_present b.display ≡ true
      → main b h c p m (boot_init b h c p m) ≡ (returns looping, t)
      → IsShown l (handle_commands l commands (record { writer = w; display = t.display }))
  unfolding main boot_init configure_devices
  main-IsShown l faithful w commands t stopped display e =
      let run = with_display-Started b h c p m _ _ _ t e in
      handle_commands-IsShown l faithful commands _ (
        subst (λ (d : Display). IsShown l (record { writer = w; display = d }))
          (sym run.display_lem)
          (screen_of-IsShown l w _ stopped (configured_display b h c p m (dt_fs_init h) ∙ display)))

  -- On a board with a display, where main reaches its loop and the log writer does not run yet: after
  -- any CAN commands, start, stop or unreadable ones, and whether or not the writer obeys, the screen
  -- shows the text "log" alone while the writer runs, and the wave lines move while it does not, and
  -- "log" is among the controller's statuses accordingly.
  pub main_shows :
      (l : LogWriter) (faithful : IsFaithful l) (w : l.World) (commands : List (Option Bool))
      (t : Boot b h c p)
      → l.is_running w ≡ false
      → is_present b.display ≡ true
      → main b h c p m (boot_init b h c p m) ≡ (returns looping, t)
      → let s = handle_commands l commands (record { writer = w; display = t.display }) in
        (screen_after s.display.trace ≡ log_shown (l.is_running s.writer)) × InSync l s
  main_shows l faithful w commands t stopped display e = (
    shown-log_shown l _ (main-IsShown l faithful w commands t stopped display e),
    main-InSync l faithful w commands t stopped display e,
  )
