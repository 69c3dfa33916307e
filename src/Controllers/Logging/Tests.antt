-- ===== src/Controllers/Logging/Tests.antt =====
-- A log writer without a card slot for every start, and the theorems at inputs.
use eerie_leap_rt.Common.{
  ℕ, zero, suc, ◌≡◌, refl, Bool, true, false, some, [], ◌∷◌, codes, ℤ, pos, negsuc, is_zero, insert,
}
use eerie_leap_rt.Controllers.Display.{wave_lines, add_status, animation_of}
use eerie_leap_rt.Controllers.Logging.{LogWriter, Logging, handle_command}
use eerie_leap_rt.Controllers.Logging.Sync.{IsFaithful, InSync}

-- The world is whether the writer runs, and how many starts are left; the last one fails.
abbrev start_writer : Bool × ℕ → ℤ × (Bool × ℕ)
start_writer (r, zero) = (negsuc 18, (r, zero))
start_writer (r, suc n) = (pos 0, (true, n))

abbrev pub sample : LogWriter
sample = record {
  World = Bool × ℕ;
  is_running = λ w. w.0;
  writer_start = start_writer;
  writer_stop = λ w. (pos 0, (false, w.1));
}

pub sample-IsFaithful : IsFaithful sample
sample-IsFaithful = record {
  start_ok = start_ok;
  start_failed = start_failed;
  stop_ok = λ w h. refl;
  stop_failed = λ w h. cc;
}
  where
    start_ok : (w : Bool × ℕ) → is_zero (start_writer w).0 ≡ true → (start_writer w).1.0 ≡ true
    start_ok (r, zero) h = cc
    start_ok (r, suc n) h = refl

    start_failed : (w : Bool × ℕ) → is_zero (start_writer w).0 ≡ false → (start_writer w).1.0 ≡ w.0
    start_failed (r, zero) h = refl
    start_failed (r, suc n) h = cc

abbrev idle : Logging sample
idle = record {
  writer = (false, 1);
  display = record {
    cfb = some (record { font_width = 6; font_height = 8; x_res = 128; y_res = 64 });
    animation = some wave_lines;
    current_animation_index = pos 0;
    is_animation_in_progress = true;
    statuses = [];
    is_initialized = true;
    trace = [];
  };
}

idle-InSync : InSync sample idle
unfolding animation_of
idle-InSync = record {
  valid = record {
    shown = refl;
    initialized = λ h. refl;
    has_screen = λ h. refl;
    known_index = refl;
    ordered = tt;
  };
  on = refl;
  while_running = λ h. cc;
  while_stopped = λ h c. c;
}

starts_once : (handle_command sample (some true) idle).1.display.statuses ≡ codes "log" ∷ []
unfolding handle_command add_status insert
starts_once = refl
