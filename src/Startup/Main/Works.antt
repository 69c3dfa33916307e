-- ===== src/Startup/Main/Works.antt =====
-- app/src/main.cpp, main: the parts that only call other modules, where every such call works.
use eerie_leap_rt.Common.{◌≡◌, refl, true, List, [], ◌∷◌, returns}
use eerie_leap_rt.DeviceTree.Fs.{Host}
use eerie_leap_rt.DeviceTree.Devices.{Board}
use eerie_leap_rt.Http.Collaborators.{Collaborators}
use eerie_leap_rt.Canbus.Platform.{Platform}
use eerie_leap_rt.Startup.Calls.{Call}
use eerie_leap_rt.Startup.Main.{Surroundings, Boot, perform_all}
use eerie_leap_rt.Startup.Main.Trail.{push}

module _ (b : Board) (h : Host) (c : Collaborators) (p : Platform) (m : Surroundings b h c p)
    (works : (calls : List Call) (k : Call) → m.respond calls k ≡ returns true) where
  pub perform_all_works :
      (ks : List Call) (s : Boot b h c p)
      → perform_all b h c p m ks s ≡ (returns tt, record s { calls = push ks s.calls })
  unfolding perform_all
  perform_all_works [] s = refl
  perform_all_works (k ∷ ks) s =
      rw (works s.calls k) (perform_all_works ks (record s { calls = k ∷ s.calls }))
