-- ===== src/Startup/Main/Running.antt =====
-- app/src/main.cpp, main: what is there once it sleeps in its loop.
use eerie_leap_rt.Common.{
  ℕ, ◌≡◌, refl, ap, ◌∙◌, sym, subst, true, Option, none, some, List, [], map, returns, arith,
  Option-cases, inl, inr,
}
use eerie_leap_rt.Controllers.Display.{Display}
use eerie_leap_rt.Controllers.Display
use eerie_leap_rt.DeviceTree.Fs.{Host, DtFs, dt_fs_init}
use eerie_leap_rt.DeviceTree.Devices.{Board, devices_init, configure}
use eerie_leap_rt.Http.Collaborators.{Collaborators}
use eerie_leap_rt.Http.Server.{HttpServer, server_init}
use eerie_leap_rt.Http.Server
use eerie_leap_rt.Http.SensorsApi.Safety.{IsReady, construct_once}
use eerie_leap_rt.Canbus.Platform.{Platform}
use eerie_leap_rt.Canbus.Scheduler.{Scheduler}
use eerie_leap_rt.Canbus.Scheduler
use eerie_leap_rt.Canbus.Scheduler.Start.{IsConfigured, expected_tasks, start-Adds}
use eerie_leap_rt.Startup.Main.{
  Surroundings, Boot, looping, boot_init, configure_devices, is_present, screen_of, main,
}
use eerie_leap_rt.Startup.Main.Kept.{server_after}
use eerie_leap_rt.Startup.Main.Started.{with_display-Started}

module _ (b : Board) (h : Host) (c : Collaborators) (p : Platform) (m : Surroundings b h c p) where
  initialize-construct :
      (o : Option b.Device)
      → (Display.initialize (Display.construct (screen_of b h c p m o))).is_initialized
        ≡ is_present o
  unfolding Display.initialize Display.construct
  initialize-construct none = refl
  initialize-construct (some device) = ground arith

  pub configured_display :
      (fs : DtFs h)
      → is_present (configure b h m.host_world (fs, devices_init b)).1.display_dev
        ≡ is_present b.display
  unfolding configure devices_init
  configured_display fs = elim (Option-cases b.display) [
    | inl e ↦ ground arith
    | inr (device, e) ↦ ground arith
  ]

  -- What is there while main sleeps: the display controller is initialized exactly if the board has a
  -- display, the HTTP handlers have their pointers and their buffer, and the scheduler has exactly
  -- the configuration's tasks.
  pub record IsRunning (channels : List (ℕ × List p.Message)) (t : Boot b h c p) : Type 0 where
    pub display_ready : t.display.is_initialized ≡ is_present b.display
    pub handlers_ready : IsReady c 24576 m.manager m.service t.server.handlers
    pub tasks_ready :
        map (λ x. x.0) t.scheduler.work_queue_tasks
        ≡ expected_tasks p m.canbus_configuration channels

  -- If main reaches its endless loop, in a build with a network, and the configuration of every
  -- channel with a bus can be read, then the display controller is initialized exactly if the board
  -- has a display, the HTTP handlers have their pointers and their buffer of 24576 bytes, and the
  -- scheduler has exactly the tasks of the configuration.
  pub main-IsRunning :
      (channels : List (ℕ × List p.Message)) (t : Boot b h c p)
      → m.config_networking ≡ true
      → IsConfigured p m.canbus_configuration
      → p.channel_configurations m.canbus_configuration ≡ some channels
      → main b h c p m (boot_init b h c p m) ≡ (returns looping, t)
      → IsRunning channels t
  unfolding main boot_init configure_devices server_init Server.initialize Scheduler.initialize
      Scheduler.construct server_after
  main-IsRunning channels t networking configured found e =
      let run = with_display-Started b h c p m _ _ _ t e in
      let (ready, _) = construct_once c m.manager m.service none none in
      let initialized : Scheduler p = record {
        thread_ready = true;
        work_queue_tasks = [];
        world = m.canbus_world;
      } in
      let adds = start-Adds p m.canbus_configuration channels initialized refl configured found in
      record {
        display_ready =
            ap (λ (d : Display). d.is_initialized) run.display_lem
            ∙ initialize-construct _
            ∙ configured_display (dt_fs_init h);
        handlers_ready =
            subst
              (λ (s : HttpServer c (Unit {0}) (Unit {0})).
                IsReady c 24576 m.manager m.service s.handlers)
              (sym (
                run.server_lem
                ∙ ap (λ n. server_after b h c p m n (server_init c (Unit {0}) (Unit {0})))
                    networking))
              ready;
        tasks_ready =
            ap (λ (r : Scheduler p). map (λ x. x.0) r.work_queue_tasks) run.scheduler_lem
            ∙ ap (map (λ x. x.0)) adds.appended
            ∙ adds.added_lem;
      }
