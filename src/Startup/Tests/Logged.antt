-- ===== src/Startup/Tests/Logged.antt =====
-- A start of the log by CAN after the start-up.
use eerie_leap_rt.Common.{◌≡◌, refl, List, Option, Bool, false, true, none, some, [], ◌∷◌}
use eerie_leap_rt.Controllers.Logging.Sync.{InSync}
use eerie_leap_rt.Controllers.Logging.Shown.{log_shown}
use eerie_leap_rt.Controllers.Display.View.{screen_after}
use eerie_leap_rt.Controllers.Logging.Tests.{sample, sample-IsFaithful}
use eerie_leap_rt.Canbus.Tests.Sample.{bench}
use eerie_leap_rt.Http.Tests
use eerie_leap_rt.Startup.Main.Logged.{handle_commands, main_shows}
use eerie_leap_rt.Startup.Tests.{board, host, working, end_of, runs}

abbrev commands : List (Option Bool)
commands = some true ∷ none ∷ some true ∷ some false ∷ []

main_shows_example :
    let s =
      handle_commands sample commands
        (record { writer = (false, 1); display = (end_of working).display }) in
    (screen_after s.display.trace ≡ log_shown (sample.is_running s.writer)) × InSync sample s
main_shows_example =
    main_shows board host Tests.sample bench working sample sample-IsFaithful (false, 1) commands
      (end_of working) refl refl runs
