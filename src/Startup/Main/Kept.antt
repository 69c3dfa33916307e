-- ===== src/Startup/Main/Kept.antt =====
-- app/src/main.cpp, main: what its parts make of the objects of the other modules.
use eerie_leap_rt.Common.{
  ◌≡◌, refl, ap, ◌∙◌, sym, subst, Bool, true, false, some, List, [], ◌∷◌, Outcome, returns, throws,
  faults, and_then,
}
use eerie_leap_rt.DeviceTree.Fs.{Host}
use eerie_leap_rt.DeviceTree.Devices.{Board}
use eerie_leap_rt.Http.Collaborators.{Collaborators}
use eerie_leap_rt.Http.Server.{HttpServer, server_init}
use eerie_leap_rt.Http.Server
use eerie_leap_rt.Canbus.Platform.{Platform}
use eerie_leap_rt.Canbus.Scheduler.{Scheduler}
use eerie_leap_rt.Canbus.Scheduler
use eerie_leap_rt.Startup.Calls.{Call}
use eerie_leap_rt.Startup.Main.{
  Surroundings, Boot, Exit, looping, perform_all, initialize_http_server, start_scheduler,
  server_if,
}

module _ (b : Board) (h : Host) (c : Collaborators) (p : Platform) (m : Surroundings b h c p) where
  -- The objects of the other modules are as they were.
  pub record Kept (s t : Boot b h c p) : Type 0 where
    pub display_kept : t.display ≡ s.display
    pub server_kept : t.server ≡ s.server
    pub scheduler_kept : t.scheduler ≡ s.scheduler
    pub devices_kept : t.devices ≡ s.devices

  perform-Kept :
      (k : Call) (ks : List Call) (s : Boot b h c p) (o : Outcome Bool)
      → Kept s (perform_all b h c p m ks (record s { calls = k ∷ s.calls })).1
      → Kept s
          (and_then (o, record s { calls = k ∷ s.calls }) (λ result. perform_all b h c p m ks)).1
  perform-Kept k ks s (returns a) r = r
  perform-Kept k ks s (throws e) r = record {
    display_kept = refl;
    server_kept = refl;
    scheduler_kept = refl;
    devices_kept = refl;
  }
  perform-Kept k ks s faults r = record {
    display_kept = refl;
    server_kept = refl;
    scheduler_kept = refl;
    devices_kept = refl;
  }

  perform_all-Kept : (ks : List Call) (s : Boot b h c p) → Kept s (perform_all b h c p m ks s).1
  unfolding perform_all
  perform_all-Kept [] s = record {
    display_kept = refl;
    server_kept = refl;
    scheduler_kept = refl;
    devices_kept = refl;
  }
  perform_all-Kept (k ∷ ks) s =
      let rest = perform_all-Kept ks (record s { calls = k ∷ s.calls }) in
      perform-Kept k ks s (m.respond s.calls k) (record {
        display_kept = rest.display_kept;
        server_kept = rest.server_kept;
        scheduler_kept = rest.scheduler_kept;
        devices_kept = rest.devices_kept;
      })

  -- A sequence of calls that returned kept the objects.
  pub calls-Kept :
      (ks : List Call) (s t : Boot b h c p) (u : Unit {0})
      → perform_all b h c p m ks s ≡ (returns u, t)
      → Kept s t
  calls-Kept ks s t u e = subst (λ r. Kept s r.1) e (perform_all-Kept ks s)

  pub Kept-trans : (s t u : Boot b h c p) → Kept s t → Kept t u → Kept s u
  Kept-trans s t u k l = record {
    display_kept = l.display_kept ∙ k.display_kept;
    server_kept = l.server_kept ∙ k.server_kept;
    scheduler_kept = l.scheduler_kept ∙ k.scheduler_kept;
    devices_kept = l.devices_kept ∙ k.devices_kept;
  }

  unfoldable pub server_after :
      Bool → HttpServer c (Unit {0}) (Unit {0}) → HttpServer c (Unit {0}) (Unit {0})
  server_after false s = s
  server_after true s =
      Server.initialize c (Unit {0}) (Unit {0}) (some tt) (some tt) (some m.manager)
        (some m.service) s

  pub server_if-eq-returns :
      (networking : Bool) (s t : Boot b h c p) (u : Unit {0})
      → server_if b h c p m networking s ≡ (returns u, t)
      → (t.display ≡ s.display)
        × (t.server ≡ server_after networking s.server)
        × (t.scheduler ≡ s.scheduler)
  unfolding initialize_http_server server_after
  server_if-eq-returns false s t u e =
      (ap (λ r. r.1.display) (sym e), ap (λ r. r.1.server) (sym e), ap (λ r. r.1.scheduler) (sym e))
  server_if-eq-returns true s t u e =
      (ap (λ r. r.1.display) (sym e), ap (λ r. r.1.server) (sym e), ap (λ r. r.1.scheduler) (sym e))

  pub start_scheduler-eq-returns :
      (s t t' : Boot b h c p) (u : Unit {0}) (exit : Exit)
      → start_scheduler b h c p m s ≡ (returns u, t)
      → ◌≡◌ {A = Outcome Exit × Boot b h c p} (returns looping, t) (returns exit, t')
      → (t'.display ≡ s.display)
        × (t'.server ≡ s.server)
        × (t'.scheduler ≡ (Scheduler.start p m.canbus_configuration s.scheduler).1)
  unfolding start_scheduler
  start_scheduler-eq-returns s t t' u exit e l = (
    ap (λ r. r.1.display) (sym l) ∙ ap (λ r. r.1.display) (sym e),
    ap (λ r. r.1.server) (sym l) ∙ ap (λ r. r.1.server) (sym e),
    ap (λ r. r.1.scheduler) (sym l) ∙ ap (λ r. r.1.scheduler) (sym e),
  )
