-- ===== src/Startup/Main/Mountless.antt =====
-- app/src/main.cpp, main: a board whose device tree names no internal file system.
use eerie_leap_rt.Common.{
  ◌≡◌, refl, ap, ◌∙◌, true, Option, none, some, List, ◌∷◌, codes, Outcome, returns, throws, arith,
}
use eerie_leap_rt.DeviceTree.Fs.{Host, DtFs, dt_fs_init, init_internal_fs}
use eerie_leap_rt.DeviceTree.Devices.{Board, devices_init, configure}
use eerie_leap_rt.Http.Collaborators.{Collaborators}
use eerie_leap_rt.Canbus.Platform.{Platform}
use eerie_leap_rt.Startup.Calls.{
  Call, cfb, display_controller, http_server, make, initialize, start,
}
use eerie_leap_rt.Startup.Steps.{sd_calls, wifi_calls, server_calls}
use eerie_leap_rt.Startup.Main.{
  Surroundings, Boot, Exit, boot_init, perform_all, configure_devices, make_display_controller,
  initialize_display_controller, is_present, mount_or_throw, start_controllers, with_display, main,
}
use eerie_leap_rt.Startup.Main.Trail.{push}
use eerie_leap_rt.Startup.Main.Works.{perform_all_works}
use eerie_leap_rt.Startup.Main.Loops.{init_sd_fs-int_fs_mp}

configured_mountless :
    (b : Board) (h : Host) (w : h.World)
    → h.int_fs_entry ≡ none
    → (configure b h w (dt_fs_init h, devices_init b)).0.int_fs_mp ≡ none
unfolding configure init_internal_fs dt_fs_init
configured_mountless b h w e =
    init_sd_fs-int_fs_mp h w (init_internal_fs h (dt_fs_init h))
    ∙ (let p : (init_internal_fs h (dt_fs_init h)).int_fs_mp ≡ none = ground arith in p)

module _ (b : Board) (h : Host) (c : Collaborators) (p : Platform) (m : Surroundings b h c p)
    (works : (calls : List Call) (k : Call) → m.respond calls k ≡ returns true)
    (networking : m.config_networking ≡ true) where
  -- The exception of `value()`, right behind the server's Start.
  abbrev Breaks : Outcome Exit × Boot b h c p → Type 0
  Breaks r =
      (t : Boot b h c p) × (calls : List Call) × (r ≡ (throws (codes "bad optional access"), t))
      × (t.calls ≡ start http_server ∷ make http_server ∷ calls)

  start_controllers-Breaks :
      (fs : DtFs h) (s : Boot b h c p)
      → fs.int_fs_mp ≡ none
      → Breaks (start_controllers b h c p m fs s)
  unfolding start_controllers make_display_controller initialize_display_controller mount_or_throw
  start_controllers-Breaks fs s e =
      let calls : List Call = push (wifi_calls m.config_wifi) (
        push (sd_calls (is_present fs.sd_fs_mp))
          (initialize display_controller ∷ make display_controller ∷ s.calls)) in
      rw (perform_all_works b h c p m works (sd_calls (is_present fs.sd_fs_mp)) _) (
        rw (perform_all_works b h c p m works (wifi_calls m.config_wifi) _) (
          rw (perform_all_works b h c p m works (server_calls m.config_networking) _)
            (rw e (_, calls, refl, ap (λ n. push (server_calls n) calls) networking))))

  with_display-Breaks :
      (fs : DtFs h) (o : Option b.Device) (s : Boot b h c p)
      → fs.int_fs_mp ≡ none
      → Breaks (with_display b h c p m fs o s)
  unfolding with_display perform_all
  with_display-Breaks fs none s e = start_controllers-Breaks fs s e
  with_display-Breaks fs (some device) s e =
      rw (works s.calls (make cfb))
        (rw (works (make cfb ∷ s.calls) (initialize cfb)) (start_controllers-Breaks fs _ e))

  -- In a build with a network, on a board without an internal file system, also where every call
  -- outside works: main ends with the exception of an empty optional, which nothing catches, and its
  -- last call was the HTTP server's Start. So the handlers never get their managers.
  pub main_throws :
      h.int_fs_entry ≡ none
      → (t : Boot b h c p) × (calls : List Call) × (main b h c p m (boot_init b h c p m)
          ≡ (throws (codes "bad optional access"), t))
        × (t.calls ≡ start http_server ∷ make http_server ∷ calls)
  unfolding main configure_devices boot_init
  main_throws e = with_display-Breaks _ _ _ (configured_mountless b h m.host_world e)
