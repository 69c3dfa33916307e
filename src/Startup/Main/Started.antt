-- ===== src/Startup/Main/Started.antt =====
-- app/src/main.cpp, main: what its runs to the loop make of the objects of the other modules.
use eerie_leap_rt.Common.{
  ◌≡◌, refl, ap, ◌∙◌, subst, Bool, true, false, Option, none, some, [], ◌∷◌, Outcome, returns, Eff,
  and_then-eq-returns,
}
use eerie_leap_rt.Controllers.Display.{Display}
use eerie_leap_rt.Controllers.Display
use eerie_leap_rt.DeviceTree.Fs.{Host, DtFs}
use eerie_leap_rt.DeviceTree.Devices.{Board, Devices}
use eerie_leap_rt.Http.Collaborators.{Collaborators}
use eerie_leap_rt.Canbus.Platform.{Platform}
use eerie_leap_rt.Canbus.Scheduler.{Scheduler}
use eerie_leap_rt.Canbus.Scheduler
use eerie_leap_rt.Startup.Calls.{
  Call, cfb, fs_service, sensors_processing_service, make, initialize, start,
}
use eerie_leap_rt.Startup.Steps.{
  sd_calls, wifi_calls, server_calls, core_calls, logging_calls, sensor_calls,
}
use eerie_leap_rt.Startup.Main.{
  Surroundings, Boot, Exit, looping, perform, perform_all, make_display_controller,
  initialize_display_controller, initialize_scheduler, start_scheduler, is_present, screen_of,
  server_if, start_services, mount_or_throw, go_on, start_controllers, with_display,
}
use eerie_leap_rt.Startup.Main.Kept.{
  Kept, calls-Kept, Kept-trans, server_after, server_if-eq-returns, start_scheduler-eq-returns,
}

module _ (b : Board) (h : Host) (c : Collaborators) (p : Platform) (m : Surroundings b h c p) where
  -- What the services' start made of the objects.
  pub record Started (s t : Boot b h c p) : Type 0 where
    pub display_lem : t.display ≡ s.display
    pub server_lem : t.server ≡ server_after b h c p m m.config_networking s.server
    pub scheduler_lem :
        t.scheduler
        ≡ (Scheduler.start p m.canbus_configuration (Scheduler.initialize p s.scheduler)).1

  start_services-Started :
      (sd : Bool) (s t : Boot b h c p) (exit : Exit)
      → start_services b h c p m sd s ≡ (returns exit, t)
      → Started s t
  unfolding start_services initialize_scheduler start_scheduler
  start_services-Started sd s t exit e =
      let (u1, s1, q1, e1) = and_then-eq-returns (perform_all b h c p m core_calls s) _ exit t e in
      let (u2, s2, q2, e2) =
        and_then-eq-returns (perform_all b h c p m (logging_calls sd) s1) _ exit t e1 in
      let (u3, s3, q3, e3) =
        and_then-eq-returns (perform_all b h c p m sensor_calls s2) _ exit t e2 in
      let s4 = (initialize_scheduler b h c p m s3).1 in
      let (u5, s5, q5, e5) =
        and_then-eq-returns (server_if b h c p m m.config_networking s4) _ exit t e3 in
      let (u6, s6, q6, e6) =
        and_then-eq-returns (perform_all b h c p m (start sensors_processing_service ∷ []) s5) _
          exit t e5 in
      let (u7, s7, q7, e7) = and_then-eq-returns (start_scheduler b h c p m s6) _ exit t e6 in
      let k1 =
        Kept-trans b h c p m s s2 s3
          (Kept-trans b h c p m s s1 s2 (calls-Kept b h c p m _ s s1 u1 q1)
            (calls-Kept b h c p m _ s1 s2 u2 q2))
          (calls-Kept b h c p m _ s2 s3 u3 q3) in
      let (display5, server5, scheduler5) =
        server_if-eq-returns b h c p m m.config_networking s4 s5 u5 q5 in
      let k6 = calls-Kept b h c p m _ s5 s6 u6 q6 in
      let (display7, server7, scheduler7) =
        start_scheduler-eq-returns b h c p m s6 s7 t u7 exit q7 e7 in
      record {
        display_lem = display7 ∙ k6.display_kept ∙ display5 ∙ k1.display_kept;
        server_lem =
            server7
            ∙ k6.server_kept
            ∙ server5
            ∙ ap (server_after b h c p m m.config_networking) k1.server_kept;
        scheduler_lem =
            scheduler7
            ∙ ap (λ r. (Scheduler.start p m.canbus_configuration r).1)
                (k6.scheduler_kept ∙ scheduler5 ∙ ap (Scheduler.initialize p) k1.scheduler_kept);
      }

  go_on-eq-looping :
      (rest : Eff (Boot b h c p) Exit) (ready : Bool) (s t : Boot b h c p)
      → go_on b h c p m rest ready s ≡ (returns looping, t)
      → rest s ≡ (returns looping, t)
  go_on-eq-looping rest false s t e = absurd (cc)
  go_on-eq-looping rest true s t e = e

  mount_or_throw-eq-returns :
      (o : Option h.Mount) (mount : h.Mount) (s t : Boot b h c p)
      → mount_or_throw b h c p m o s ≡ (returns mount, t)
      → Kept b h c p m s t
  unfolding mount_or_throw
  mount_or_throw-eq-returns none mount s t e = absurd (cc)
  mount_or_throw-eq-returns (some a) mount s t e =
      subst (λ (r : Outcome h.Mount × Boot b h c p). Kept b h c p m s r.1) e
        (record {
          display_kept = refl;
          server_kept = refl;
          scheduler_kept = refl;
          devices_kept = refl;
        })

  perform-eq-returns :
      (k : Call) (s t : Boot b h c p) (result : Bool)
      → perform b h c p m k s ≡ (returns result, t)
      → Kept b h c p m s t
  perform-eq-returns k s t result e =
      subst (λ (r : Outcome Bool × Boot b h c p). Kept b h c p m s r.1) e
        (record {
          display_kept = refl;
          server_kept = refl;
          scheduler_kept = refl;
          devices_kept = refl;
        })

  start_controllers-Started :
      (fs : DtFs h) (s t : Boot b h c p)
      → start_controllers b h c p m fs s ≡ (returns looping, t)
      → Started
          (record s {
            display =
                Display.initialize (Display.construct (screen_of b h c p m s.devices.display_dev));
          })
          t
  unfolding start_controllers make_display_controller initialize_display_controller
  start_controllers-Started fs s t e =
      let s0 =
        (initialize_display_controller b h c p m (make_display_controller b h c p m s).1).1 in
      let (u1, s1, q1, e1) =
        and_then-eq-returns (perform_all b h c p m (sd_calls (is_present fs.sd_fs_mp)) s0) _ looping
          t e in
      let (u2, s2, q2, e2) =
        and_then-eq-returns (perform_all b h c p m (wifi_calls m.config_wifi) s1) _ looping t e1 in
      let (u3, s3, q3, e3) =
        and_then-eq-returns (perform_all b h c p m (server_calls m.config_networking) s2) _ looping
          t e2 in
      let (mount, s4, q4, e4) =
        and_then-eq-returns (mount_or_throw b h c p m fs.int_fs_mp s3) _ looping t e3 in
      let (u5, s5, q5, e5) =
        and_then-eq-returns (perform_all b h c p m (make fs_service ∷ []) s4) _ looping t e4 in
      let (ready, s6, q6, e6) =
        and_then-eq-returns (perform b h c p m (initialize fs_service) s5) _ looping t e5 in
      let k3 =
        Kept-trans b h c p m s0 s2 s3
          (Kept-trans b h c p m s0 s1 s2 (calls-Kept b h c p m _ s0 s1 u1 q1)
            (calls-Kept b h c p m _ s1 s2 u2 q2))
          (calls-Kept b h c p m _ s2 s3 u3 q3) in
      let k4 =
        Kept-trans b h c p m s0 s3 s4 k3 (mount_or_throw-eq-returns fs.int_fs_mp mount s3 s4 q4) in
      let k6 =
        Kept-trans b h c p m s0 s5 s6
          (Kept-trans b h c p m s0 s4 s5 k4 (calls-Kept b h c p m _ s4 s5 u5 q5))
          (perform-eq-returns _ s5 s6 ready q6) in
      let run =
        start_services-Started (is_present fs.sd_fs_mp) s6 t looping
          (go_on-eq-looping (start_services b h c p m (is_present fs.sd_fs_mp)) ready s6 t e6) in
      record {
        display_lem = run.display_lem ∙ k6.display_kept;
        server_lem =
            run.server_lem ∙ ap (server_after b h c p m m.config_networking) k6.server_kept;
        scheduler_lem =
            run.scheduler_lem
            ∙ ap (λ r. (Scheduler.start p m.canbus_configuration (Scheduler.initialize p r)).1)
                k6.scheduler_kept;
      }

  pub with_display-Started :
      (fs : DtFs h) (o : Option b.Device) (s t : Boot b h c p)
      → with_display b h c p m fs o s ≡ (returns looping, t)
      → Started
          (record s {
            display =
                Display.initialize (Display.construct (screen_of b h c p m s.devices.display_dev));
          })
          t
  unfolding with_display
  with_display-Started fs none s t e = start_controllers-Started fs s t e
  with_display-Started fs (some device) s t e =
      let (u1, s1, q1, e1) =
        and_then-eq-returns (perform_all b h c p m (make cfb ∷ []) s) _ looping t e in
      let (ready, s2, q2, e2) =
        and_then-eq-returns (perform b h c p m (initialize cfb) s1) _ looping t e1 in
      let k2 =
        Kept-trans b h c p m s s1 s2 (calls-Kept b h c p m _ s s1 u1 q1)
          (perform-eq-returns _ s1 s2 ready q2) in
      let run =
        start_controllers-Started fs s2 t
          (go_on-eq-looping (start_controllers b h c p m fs) ready s2 t e2) in
      record {
        display_lem =
            run.display_lem
            ∙ ap
                (λ (d : Devices b).
                  Display.initialize (Display.construct (screen_of b h c p m d.display_dev)))
                k2.devices_kept;
        server_lem =
            run.server_lem ∙ ap (server_after b h c p m m.config_networking) k2.server_kept;
        scheduler_lem =
            run.scheduler_lem
            ∙ ap (λ r. (Scheduler.start p m.canbus_configuration (Scheduler.initialize p r)).1)
                k2.scheduler_kept;
      }
