-- ===== src/Startup/Main/Loops.antt =====
-- app/src/main.cpp, main: that it reaches its loop where every call outside works.
use eerie_leap_rt.Common.{
  ◌≡◌, refl, ap, ◌∙◌, Bool, true, false, Option, none, some, List, [], ◌∷◌, Outcome, returns, Eff,
  and_then, ℕ, arith,
}
use eerie_leap_rt.DeviceTree.Fs.{Host, DtFs, dt_fs_init, init_internal_fs, init_sd_fs}
use eerie_leap_rt.DeviceTree.Devices.{Board, devices_init, configure}
use eerie_leap_rt.Http.Collaborators.{Collaborators}
use eerie_leap_rt.Canbus.Platform.{Platform}
use eerie_leap_rt.Canbus.Scheduler.{Scheduler}
use eerie_leap_rt.Canbus.Scheduler
use eerie_leap_rt.Canbus.Scheduler.Start.{IsConfigured, start-Adds}
use eerie_leap_rt.Startup.Calls.{
  Call, cfb, fs_service, sensors_processing_service, make, initialize, start,
}
use eerie_leap_rt.Startup.Steps.{
  sd_calls, wifi_calls, server_calls, core_calls, logging_calls, sensor_calls,
}
use eerie_leap_rt.Startup.Main.{
  Surroundings, Boot, Exit, looping, boot_init, perform, perform_all, configure_devices,
  make_display_controller, initialize_display_controller, initialize_http_server,
  initialize_scheduler, start_scheduler, is_present, server_if, start_services, mount_or_throw,
  go_on, start_controllers, with_display, main,
}
use eerie_leap_rt.Startup.Main.Trail.{push}
use eerie_leap_rt.Startup.Main.Works.{perform_all_works}
use eerie_leap_rt.Startup.Main.Running.{IsRunning, main-IsRunning}

pub init_sd_fs-int_fs_mp :
    (h : Host) (w : h.World) (s : DtFs h) → (init_sd_fs h w s).int_fs_mp ≡ s.int_fs_mp
unfolding init_sd_fs
init_sd_fs-int_fs_mp h w s = ground arith

configured_mount :
    (b : Board) (h : Host) (w : h.World) (mount : h.Mount) (s : DtFs h)
    → h.int_fs_entry ≡ some mount
    → (configure b h w (s, devices_init b)).0.int_fs_mp ≡ some mount
unfolding configure init_internal_fs
configured_mount b h w mount s e =
    init_sd_fs-int_fs_mp h w (init_internal_fs h s)
    ∙ (let p : (init_internal_fs h s).int_fs_mp ≡ some mount = ground arith in p)

module _ (b : Board) (h : Host) (c : Collaborators) (p : Platform) (m : Surroundings b h c p)
    (works : (calls : List Call) (k : Call) → m.respond calls k ≡ returns true)
    (channels : List (ℕ × List p.Message)) (configured : IsConfigured p m.canbus_configuration)
    (found : p.channel_configurations m.canbus_configuration ≡ some channels) where
  abbrev Loops : Outcome Exit × Boot b h c p → Type 0
  Loops r = (t : Boot b h c p) × (r ≡ (returns looping, t))

  -- A part that returned, and what follows it.
  and_then-Loops :
      {A : Type 0} (r : Outcome A × Boot b h c p) (a : A) (s : Boot b h c p)
      (f : A → Eff (Boot b h c p) Exit)
      → r ≡ (returns a, s)
      → Loops (f a s)
      → Loops (and_then r f)
  and_then-Loops r a s f e l = rw e l

  performs :
      (ks : List Call) (s : Boot b h c p)
      → perform_all b h c p m ks s ≡ (returns tt, record s { calls = push ks s.calls })
  performs ks s = perform_all_works b h c p m works ks s

  server_if_works :
      (networking : Bool) (s : Boot b h c p)
      → (t : Boot b h c p) × (server_if b h c p m networking s ≡ (returns tt, t))
        × (t.scheduler ≡ s.scheduler)
  unfolding initialize_http_server
  server_if_works false s = (s, refl, refl)
  server_if_works true s = (_, refl, refl)

  start_scheduler_works :
      (s : Boot b h c p)
      → s.scheduler.thread_ready ≡ true
      → (t : Boot b h c p) × (start_scheduler b h c p m s ≡ (returns tt, t))
  unfolding start_scheduler
  start_scheduler_works s ready =
      let t = (start_scheduler b h c p m s).1 in
      (
        t,
        ap (λ o. (o, t))
            (start-Adds p m.canbus_configuration channels s.scheduler ready configured
              found).returned,
      )

  start_services_works : (sd : Bool) (s : Boot b h c p) → Loops (start_services b h c p m sd s)
  unfolding start_services initialize_scheduler Scheduler.initialize
  start_services_works sd s = and_then-Loops _ tt _ _ (performs core_calls s) (
      and_then-Loops _ tt _ _ (performs (logging_calls sd) _) (
        and_then-Loops _ tt _ _ (performs sensor_calls _) (
          let (t, e, same) = server_if_works m.config_networking _ in
          and_then-Loops _ tt t _ e (
            and_then-Loops _ tt _ _ (performs (start sensors_processing_service ∷ []) t) (
              let (u, q) =
                start_scheduler_works _ (ap (λ (k : Scheduler p). k.thread_ready) same) in
              and_then-Loops _ tt u _ q (u, refl))))))

  go_on_works :
      (k : Call) (s : Boot b h c p) (rest : Eff (Boot b h c p) Exit)
      → ((t : Boot b h c p) → Loops (rest t))
      → Loops (and_then (perform b h c p m k s) (go_on b h c p m rest))
  go_on_works k s rest l =
      let t : Boot b h c p = record s { calls = k ∷ s.calls } in
      and_then-Loops (perform b h c p m k s) true t (go_on b h c p m rest)
        (ap (λ o. (o, t)) (works s.calls k)) (l t)

  start_controllers_works :
      (fs : DtFs h) (mount : h.Mount) (s : Boot b h c p)
      → fs.int_fs_mp ≡ some mount
      → Loops (start_controllers b h c p m fs s)
  unfolding start_controllers make_display_controller initialize_display_controller mount_or_throw
  start_controllers_works fs mount s e =
      and_then-Loops _ tt _ _ (performs (sd_calls (is_present fs.sd_fs_mp)) _) (
        and_then-Loops _ tt _ _ (performs (wifi_calls m.config_wifi) _) (
          and_then-Loops _ tt _ _ (performs (server_calls m.config_networking) _) (
            rw e (
              and_then-Loops _ tt _ _ (performs (make fs_service ∷ []) _) (
                go_on_works (initialize fs_service) _ _
                  (start_services_works (is_present fs.sd_fs_mp)))))))

  with_display_works :
      (fs : DtFs h) (mount : h.Mount) (o : Option b.Device) (s : Boot b h c p)
      → fs.int_fs_mp ≡ some mount
      → Loops (with_display b h c p m fs o s)
  unfolding with_display
  with_display_works fs mount none s e = start_controllers_works fs mount s e
  with_display_works fs mount (some device) s e =
      and_then-Loops _ tt _ _ (performs (make cfb ∷ []) s)
        (go_on_works (initialize cfb) _ _ (λ t. start_controllers_works fs mount t e))

  -- In a build with a network, on a board with an internal file system, where every call outside
  -- returns with the answer true, and the configuration of every channel with a bus can be read: main
  -- reaches its endless loop, with the display controller initialized if there is a display, the HTTP
  -- handlers ready and the scheduler's tasks those of the configuration.
  pub main_loops :
      (mount : h.Mount)
      → h.int_fs_entry ≡ some mount
      → m.config_networking ≡ true
      → (t : Boot b h c p) × (main b h c p m (boot_init b h c p m) ≡ (returns looping, t))
        × IsRunning b h c p m channels t
  unfolding main configure_devices boot_init
  main_loops mount e networking =
      let (t, q) =
        with_display_works _ mount _ _ (configured_mount b h m.host_world mount (dt_fs_init h) e) in
      (t, q, main-IsRunning b h c p m channels t networking configured found q)
