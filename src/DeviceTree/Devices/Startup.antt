-- ===== src/DeviceTree/Devices/Startup.antt =====
-- The devices after the start.
use eerie_leap_rt.Common.{
  ℕ, ◌≡◌, refl, Option, none, some, List, [], ◌∷◌, ◌==◌, arith, if◌then◌else◌, ap, ◌∙◌, Bool-cases,
  inl, inr,
}
use eerie_leap_rt.DeviceTree.Fs.{Host, DtFs}
use eerie_leap_rt.DeviceTree.Devices.{
  Board, Devices, find, emplace, emplace_if, devices_init, canbus_get, configure,
}

module _ {ℓ} {V : Type ℓ} where
  -- `emplace` adds an entry only where there was none.
  pub find-emplace :
      (k j : ℕ) (v : V) (m : List (ℕ × V))
      → find j (emplace k v m)
        ≡ (if k == j then (elim (find j m) [ none ↦ some v | some w ↦ some w ]) else find j m)
  unfolding find emplace
  find-emplace k j v [] = ground arith
  find-emplace k j v ((i, w) ∷ m) = ground (arith, find-emplace k j v m)

  emplace_present : (k : ℕ) (v w : V) (m : List (ℕ × V)) → find k m ≡ some w → emplace k v m ≡ m
  unfolding find emplace
  emplace_present k v w [] h = cc
  emplace_present k v w ((i, u) ∷ m) h = ground (arith, emplace_present k v w m)

  find-emplace_self :
      (k : ℕ) (v : V) (m : List (ℕ × V)) → (w : V) × (find k (emplace k v m) ≡ some w)
  unfolding find emplace
  find-emplace_self k v [] = (v, ground arith)
  find-emplace_self k v ((i, u) ∷ m) = elim (Bool-cases (i == k)) [
    | inl e ↦ (u, rw (e, emplace) (rw (e, find)))
    | inr e ↦ let (w, q) = find-emplace_self k v m in (w, rw (e, emplace) (rw (e, find) q))
  ]

  find-emplace_keeps :
      (k j : ℕ) (v w : V) (m : List (ℕ × V)) → find j m ≡ some w → find j (emplace k v m) ≡ some w
  find-emplace_keeps k j v w m h = ground (arith, find-emplace k j v m)

  -- A second round of the two additions changes nothing.
  emplace_if_again :
      (p q : Option V) (m : List (ℕ × V))
      → let once = emplace_if 1 q (emplace_if 0 p m) in emplace_if 1 q (emplace_if 0 p once) ≡ once
  unfolding emplace_if
  emplace_if_again none none m = refl
  emplace_if_again none (some v) m =
      let (w, e) = find-emplace_self 1 v m in emplace_present 1 v w (emplace 1 v m) e
  emplace_if_again (some u) none m =
      let (w, e) = find-emplace_self 0 u m in emplace_present 0 u w (emplace 0 u m) e
  emplace_if_again (some u) (some v) m =
      let m0 = emplace 0 u m in
      let m1 = emplace 1 v m0 in
      let (w0, e0) = find-emplace_self 0 u m in
      let (w1, e1) = find-emplace_self 1 v m0 in
      ap (emplace 1 v) (emplace_present 0 u w0 m1 (find-emplace_keeps 1 0 v w0 m0 e0))
      ∙ emplace_present 1 v w1 m1 e1

module _ (b : Board) (h : Host) where
  -- After the start, `DtCanbus::Get` knows exactly the channels whose aliases the board has.
  pub canbus_get-configure :
      (w : h.World) (fs : DtFs h) (c : ℕ)
      → canbus_get b c (configure b h w (fs, devices_init b)).1
        ≡ (if c == 0 then b.can0 else if c == 1 then b.can1 else none)
  unfolding canbus_get configure devices_init
  canbus_get-configure w fs c = ground arith

  -- A second run of the configurator changes nothing.
  pub configure_again :
      (w : h.World) (fs : DtFs h) (d : Devices b)
      → let once = configure b h w (fs, d) in configure b h w once ≡ once
  unfolding configure
  configure_again w fs d = ground (arith, emplace_if_again b.can0 b.can1 d.canbus_devs)
