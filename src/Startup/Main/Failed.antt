-- ===== src/Startup/Main/Failed.antt =====
-- app/src/main.cpp, main: when it returns -1.
use eerie_leap_rt.Common.{
  ◌≡◌, ap, ◌∙◌, sym, ◌⊎◌, inl, inr, Bool, true, false, Option, none, some, List, [], ◌∷◌, Outcome,
  returns, Eff, and_then, and_then-eq-returns,
}
use eerie_leap_rt.DeviceTree.Fs.{Host, DtFs}
use eerie_leap_rt.DeviceTree.Devices.{Board}
use eerie_leap_rt.Http.Collaborators.{Collaborators}
use eerie_leap_rt.Canbus.Platform.{Platform}
use eerie_leap_rt.Startup.Calls.{
  Call, cfb, fs_service, sensors_processing_service, make, initialize, start,
}
use eerie_leap_rt.Startup.Steps.{
  sd_calls, wifi_calls, server_calls, core_calls, logging_calls, sensor_calls,
}
use eerie_leap_rt.Startup.Main.{
  Surroundings, Boot, Exit, failed, looping, boot_init, perform, perform_all, configure_devices,
  make_display_controller, initialize_display_controller, initialize_scheduler, start_scheduler,
  is_present, server_if, start_services, mount_or_throw, go_on, start_controllers, with_display,
  main,
}

module _ (b : Board) (h : Host) (c : Collaborators) (p : Platform) (m : Surroundings b h c p) where
  -- The last call was this one, and it answered false.
  pub record Refused (k : Call) (t : Boot b h c p) : Type 0 where
    pub before : List Call
    pub refused : m.respond before k ≡ returns false
    pub last : t.calls ≡ k ∷ before

  looping-ne-failed :
      (s t : Boot b h c p)
      → ◌≡◌ {A = Outcome Exit × Boot b h c p} (returns looping, s) (returns failed, t)
      → ⊥
  looping-ne-failed s t e = absurd (cc)

  start_services-ne-failed :
      (sd : Bool) (s t : Boot b h c p) → start_services b h c p m sd s ≡ (returns failed, t) → ⊥
  unfolding start_services
  start_services-ne-failed sd s t e =
      let (u1, s1, q1, e1) =
        and_then-eq-returns (perform_all b h c p m core_calls s) _ failed t e in
      let (u2, s2, q2, e2) =
        and_then-eq-returns (perform_all b h c p m (logging_calls sd) s1) _ failed t e1 in
      let (u3, s3, q3, e3) =
        and_then-eq-returns (perform_all b h c p m sensor_calls s2) _ failed t e2 in
      let (u4, s4, q4, e4) =
        and_then-eq-returns (initialize_scheduler b h c p m s3) _ failed t e3 in
      let (u5, s5, q5, e5) =
        and_then-eq-returns (server_if b h c p m m.config_networking s4) _ failed t e4 in
      let (u6, s6, q6, e6) =
        and_then-eq-returns (perform_all b h c p m (start sensors_processing_service ∷ []) s5) _
          failed t e5 in
      let (u7, s7, q7, e7) = and_then-eq-returns (start_scheduler b h c p m s6) _ failed t e6 in
      looping-ne-failed s7 t e7

  Refused-or_later :
      (k : Call) (s t : Boot b h c p) (rest : Eff (Boot b h c p) Exit)
      → and_then (perform b h c p m k s) (go_on b h c p m rest) ≡ (returns failed, t)
      → Refused k t ⊎ ((s' : Boot b h c p) × (rest s' ≡ (returns failed, t)))
  Refused-or_later k s t rest e =
      let (ready, s', q, e') = and_then-eq-returns (perform b h c p m k s) _ failed t e in
      by_answer ready s' q e'
    where
      by_answer :
          (ready : Bool) (s' : Boot b h c p)
          → perform b h c p m k s ≡ (returns ready, s')
          → go_on b h c p m rest ready s' ≡ (returns failed, t)
          → Refused k t ⊎ ((s' : Boot b h c p) × (rest s' ≡ (returns failed, t)))
      by_answer false s' q e' = inl (record {
        before = s.calls;
        refused = ap (λ r. r.0) q;
        last = ap (λ r. r.1.calls) (sym e') ∙ ap (λ r. r.1.calls) (sym q);
      })
      by_answer true s' q e' = inr (s', e')

  start_controllers-failed :
      (fs : DtFs h) (s t : Boot b h c p)
      → start_controllers b h c p m fs s ≡ (returns failed, t)
      → Refused (initialize fs_service) t
  unfolding start_controllers
  start_controllers-failed fs s t e =
      let (v1, r1, _, d1) =
        and_then-eq-returns (make_display_controller b h c p m s) _ failed t e in
      let (v2, r2, _, d2) =
        and_then-eq-returns (initialize_display_controller b h c p m r1) _ failed t d1 in
      let (u1, s1, q1, e1) =
        and_then-eq-returns (perform_all b h c p m (sd_calls (is_present fs.sd_fs_mp)) r2) _ failed
          t d2 in
      let (u2, s2, q2, e2) =
        and_then-eq-returns (perform_all b h c p m (wifi_calls m.config_wifi) s1) _ failed t e1 in
      let (u3, s3, q3, e3) =
        and_then-eq-returns (perform_all b h c p m (server_calls m.config_networking) s2) _ failed t
          e2 in
      let (mount, s4, q4, e4) =
        and_then-eq-returns (mount_or_throw b h c p m fs.int_fs_mp s3) _ failed t e3 in
      let (u5, s5, q5, e5) =
        and_then-eq-returns (perform_all b h c p m (make fs_service ∷ []) s4) _ failed t e4 in
      elim (Refused-or_later (initialize fs_service) s5 t
        (start_services b h c p m (is_present fs.sd_fs_mp)) e5) [
          | inl r ↦ r
          | inr (s6, e6) ↦ absurd (start_services-ne-failed (is_present fs.sd_fs_mp) s6 t e6)
        ]

  with_display-failed :
      (fs : DtFs h) (o : Option b.Device) (s t : Boot b h c p)
      → with_display b h c p m fs o s ≡ (returns failed, t)
      → Refused (initialize cfb) t ⊎ Refused (initialize fs_service) t
  unfolding with_display
  with_display-failed fs none s t e = inr (start_controllers-failed fs s t e)
  with_display-failed fs (some device) s t e =
      let (u1, s1, q1, e1) =
        and_then-eq-returns (perform_all b h c p m (make cfb ∷ []) s) _ failed t e in
      elim (Refused-or_later (initialize cfb) s1 t (start_controllers b h c p m fs) e1) [
        | inl r ↦ inl r
        | inr (s2, e2) ↦ inr (start_controllers-failed fs s2 t e2)
      ]

  -- Main returns -1 only right after the frame buffer's Initialize, or that of the internal file
  -- system, has answered false.
  pub main_failed :
      (t : Boot b h c p)
      → main b h c p m (boot_init b h c p m) ≡ (returns failed, t)
      → Refused (initialize cfb) t ⊎ Refused (initialize fs_service) t
  unfolding main configure_devices
  main_failed t e = with_display-failed _ _ _ t e
