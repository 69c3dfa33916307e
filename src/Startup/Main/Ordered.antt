-- ===== src/Startup/Main/Ordered.antt =====
-- app/src/main.cpp, main: nothing is used before it has been made.
use eerie_leap_rt.Common.{
  ◌≡◌, refl, ap, ◌∙◌, sym, subst, Bool, true, false, ◌&&◌, Option, none, some, List, [], ◌∷◌, ◌++◌,
  All, returns, Eff, Bool-cases, inl, inr, arith,
}
use eerie_leap_rt.DeviceTree.Fs.{Host, DtFs}
use eerie_leap_rt.DeviceTree.Devices.{Board}
use eerie_leap_rt.Http.Collaborators.{Collaborators}
use eerie_leap_rt.Canbus.Platform.{Platform}
use eerie_leap_rt.Startup.Calls.{
  cfb, display_controller, http_server, fs_service, sensors_processing_service,
  canbus_scheduler_service, Call, make, initialize, start, was_called, needs, IsOrdered,
}
use eerie_leap_rt.Startup.Steps.{
  sd_calls, wifi_calls, server_calls, core_calls, logging_calls, sensor_calls,
}
use eerie_leap_rt.Startup.Main.{
  Surroundings, Boot, Exit, failed, looping, boot_init, perform, configure_devices,
  make_display_controller, initialize_display_controller, initialize_http_server,
  initialize_scheduler, start_scheduler, is_present, server_if, start_services, mount_or_throw,
  go_on, start_controllers, with_display, main,
}
use eerie_leap_rt.Startup.Main.Trail.{
  push, Trail, Makes, bind-Trail, one-Makes, none-Trail, done-Full, perform_all-Full,
}

abbrev all_called : List Call → List Call → Bool
all_called [] calls = true
all_called (k ∷ ks) calls = was_called k calls && all_called ks calls

all_called-All :
    (ks calls : List Call) → all_called ks calls ≡ true → All (λ k. was_called k calls ≡ true) ks
all_called-All [] calls h = tt
all_called-All (k ∷ ks) calls h = elim (Bool-cases (was_called k calls)) [
  | inl e ↦ (e, all_called-All ks calls (ground arith))
  | inr e ↦ absurd (ground arith)
]

-- Each of the calls finds what it needs in the trace before it.
check : Bool → Bool → List Call → List Call → Bool
check display sd calls [] = true
check display sd calls (k ∷ ks) =
    all_called (needs display sd k) calls && check display sd (k ∷ calls) ks

check-IsOrdered :
    (display sd : Bool) (calls made left : List Call)
    → check display sd calls (made ++ left) ≡ true
    → IsOrdered display sd calls
    → IsOrdered display sd (push made calls)
unfolding check
check-IsOrdered d sd calls [] left h o = o
check-IsOrdered d sd calls (k ∷ ks) left h o = elim (Bool-cases (all_called (needs d sd k) calls)) [
  | inl e ↦
      check-IsOrdered d sd (k ∷ calls) ks left (ground arith)
        (all_called-All (needs d sd k) calls e, o)
  | inr e ↦ absurd (ground arith)
]

abbrev server_again : Bool → List Call
server_again false = []
server_again true = initialize http_server ∷ []

abbrev services_plan : Bool → Bool → List Call
services_plan sd networking =
    core_calls
    ++ (logging_calls sd
        ++ (sensor_calls
            ++ ((initialize canbus_scheduler_service ∷ [])
                ++ (server_again networking
                    ++ ((start sensors_processing_service ∷ [])
                        ++ ((start canbus_scheduler_service ∷ []) ++ []))))))

abbrev controllers_plan : Bool → Bool → Bool → List Call
controllers_plan sd wifi networking =
    (make display_controller ∷ [])
    ++ ((initialize display_controller ∷ [])
        ++ (sd_calls sd
            ++ (wifi_calls wifi
                ++ (server_calls networking
                    ++ ([]
                        ++ ((make fs_service ∷ [])
                            ++ ((initialize fs_service ∷ []) ++ services_plan sd networking)))))))

abbrev cfb_calls : Bool → List Call
cfb_calls false = []
cfb_calls true = make cfb ∷ initialize cfb ∷ []

plan_checks :
    (display sd wifi networking : Bool)
    → check display sd [] (cfb_calls display ++ controllers_plan sd wifi networking) ≡ true
unfolding check
plan_checks true true true true = refl
plan_checks true true true false = refl
plan_checks true true false true = refl
plan_checks true true false false = refl
plan_checks true false true true = refl
plan_checks true false true false = refl
plan_checks true false false true = refl
plan_checks true false false false = refl
plan_checks false true true true = refl
plan_checks false true true false = refl
plan_checks false true false true = refl
plan_checks false true false false = refl
plan_checks false false true true = refl
plan_checks false false true false = refl
plan_checks false false false true = refl
plan_checks false false false false = refl

module _ (b : Board) (h : Host) (c : Collaborators) (p : Platform) (m : Surroundings b h c p) where
  server_if-Makes :
      (networking : Bool) → Makes b h c p (server_again networking) (server_if b h c p m networking)
  unfolding initialize_http_server
  server_if-Makes false s = done-Full b h c p s (returns tt)
  server_if-Makes true s =
      one-Makes b h c p (initialize http_server) (server_if b h c p m true) (λ t. refl) s

  initialize_scheduler-Makes :
      Makes b h c p (initialize canbus_scheduler_service ∷ []) (initialize_scheduler b h c p m)
  unfolding initialize_scheduler
  initialize_scheduler-Makes = one-Makes b h c p _ (initialize_scheduler b h c p m) (λ s. refl)

  start_scheduler-Makes :
      Makes b h c p (start canbus_scheduler_service ∷ []) (start_scheduler b h c p m)
  unfolding start_scheduler
  start_scheduler-Makes = one-Makes b h c p _ (start_scheduler b h c p m) (λ s. refl)

  make_display_controller-Makes :
      Makes b h c p (make display_controller ∷ []) (make_display_controller b h c p m)
  unfolding make_display_controller
  make_display_controller-Makes =
      one-Makes b h c p _ (make_display_controller b h c p m) (λ s. refl)

  initialize_display_controller-Makes :
      Makes b h c p (initialize display_controller ∷ []) (initialize_display_controller b h c p m)
  unfolding initialize_display_controller
  initialize_display_controller-Makes =
      one-Makes b h c p _ (initialize_display_controller b h c p m) (λ s. refl)

  perform-Makes : (k : Call) → Makes b h c p (k ∷ []) (perform b h c p m k)
  perform-Makes k = one-Makes b h c p k (perform b h c p m k) (λ s. refl)

  mount_or_throw-Makes : (o : Option h.Mount) → Makes b h c p [] (mount_or_throw b h c p m o)
  unfolding mount_or_throw
  mount_or_throw-Makes none s = done-Full b h c p s _
  mount_or_throw-Makes (some mount) s = done-Full b h c p s _

  go_on-Trail :
      (ks : List Call) (rest : Eff (Boot b h c p) Exit) (ready : Bool) (t : Boot b h c p)
      → Trail b h c p ks t (rest t)
      → Trail b h c p ks t (go_on b h c p m rest ready t)
  go_on-Trail ks rest false t r = none-Trail b h c p ks t (returns failed)
  go_on-Trail ks rest true t r = r

  start_services-Trail :
      (sd : Bool) (s : Boot b h c p)
      → Trail b h c p (services_plan sd m.config_networking) s (start_services b h c p m sd s)
  unfolding start_services
  start_services-Trail sd = bind-Trail b h c p (perform_all-Full b h c p m core_calls) (λ u1.
      bind-Trail b h c p (perform_all-Full b h c p m (logging_calls sd)) (λ u2.
        bind-Trail b h c p (perform_all-Full b h c p m sensor_calls) (λ u3.
          bind-Trail b h c p initialize_scheduler-Makes (λ u4.
            bind-Trail b h c p (server_if-Makes m.config_networking) (λ u5.
              bind-Trail b h c p
                (perform_all-Full b h c p m (start sensors_processing_service ∷ []))
                (λ u6.
                  bind-Trail b h c p start_scheduler-Makes
                    (λ u7 t. none-Trail b h c p [] t (returns looping))))))))

  start_controllers-Trail :
      (fs : DtFs h) (s : Boot b h c p)
      → Trail b h c p
          (controllers_plan (is_present fs.sd_fs_mp) m.config_wifi m.config_networking)
          s
          (start_controllers b h c p m fs s)
  unfolding start_controllers
  start_controllers-Trail fs =
      let sd = is_present fs.sd_fs_mp in
      bind-Trail b h c p make_display_controller-Makes (λ u1.
        bind-Trail b h c p initialize_display_controller-Makes (λ u2.
          bind-Trail b h c p (perform_all-Full b h c p m (sd_calls sd)) (λ u3.
            bind-Trail b h c p (perform_all-Full b h c p m (wifi_calls m.config_wifi)) (λ u4.
              bind-Trail b h c p (perform_all-Full b h c p m (server_calls m.config_networking))
                (λ u5. bind-Trail b h c p (mount_or_throw-Makes fs.int_fs_mp) (λ mount.
                  bind-Trail b h c p (perform_all-Full b h c p m (make fs_service ∷ [])) (λ u6.
                    bind-Trail b h c p (perform-Makes (initialize fs_service)) (λ ready t.
                      go_on-Trail (services_plan sd m.config_networking)
                        (start_services b h c p m sd) ready t (start_services-Trail sd t)))))))))

  with_display-Trail :
      (fs : DtFs h) (o : Option b.Device) (s : Boot b h c p)
      → Trail b h c p
          (cfb_calls (is_present o)
            ++ controllers_plan (is_present fs.sd_fs_mp) m.config_wifi m.config_networking)
          s
          (with_display b h c p m fs o s)
  unfolding with_display
  with_display-Trail fs none s = start_controllers-Trail fs s
  with_display-Trail fs (some device) s =
      let plan = controllers_plan (is_present fs.sd_fs_mp) m.config_wifi m.config_networking in
      bind-Trail b h c p (perform_all-Full b h c p m (make cfb ∷ []))
        (λ u1. bind-Trail b h c p {ls = plan} (perform-Makes (initialize cfb)) (λ ready t.
          go_on-Trail plan (start_controllers b h c p m fs) ready t (start_controllers-Trail fs t)))
        s

  with_display-IsOrdered :
      (fs : DtFs h) (o : Option b.Device) (s : Boot b h c p)
      → s.calls ≡ []
      → IsOrdered (is_present o) (is_present fs.sd_fs_mp) (with_display b h c p m fs o s).1.calls
  with_display-IsOrdered fs o s e =
      let trail = with_display-Trail fs o s in
      let plan =
        plan_checks (is_present o) (is_present fs.sd_fs_mp) m.config_wifi m.config_networking in
      let display = is_present o in
      let sd = is_present fs.sd_fs_mp in
      let ordered =
        check-IsOrdered display sd [] trail.made trail.left
          (ap (check display sd []) (sym trail.split) ∙ plan) tt in
      subst (IsOrdered display sd) (sym (trail.calls_lem ∙ ap (push trail.made) e)) ordered

  -- Whatever the calls outside return, throw or fault, each call that main makes comes after all
  -- that it needs: every object is made after the objects that its constructor takes, also after
  -- `cfb` where the device tree gives a display, and after the SD card's service where it gives an SD
  -- card, which else are null; it is initialized after it was made, and started after it was
  -- initialized, but for the HTTP server, which is started before.
  pub main-IsOrdered :
      let (configured, s) = configure_devices b h c p m (boot_init b h c p m) in
      IsOrdered
        (is_present s.devices.display_dev)
        (is_present s.fs.sd_fs_mp)
        (main b h c p m (boot_init b h c p m)).1.calls
  unfolding main boot_init configure_devices
  main-IsOrdered = with_display-IsOrdered _ _ _ refl
