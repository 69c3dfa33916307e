-- ===== src/Http/AccessPoint/Joined.antt =====
-- The start of the access point and its event handler together: what the log tells of the interface
-- once a station has joined.
use eerie_leap_rt.Common.{
  ℕ, zero, suc, ◌≡◌, refl, ap, true, [], ◌∷◌, codes, some, returns, Bool-cases, ◌∙◌, sym, inl, inr,
}
use eerie_leap_rt.Http.AccessPoint.{
  Network, Address, ap_sta_connected, initialize, net_event_wifi_mask, wifi_ap_ip_address,
  wifi_ap_netmask, configure, ap_config, wait_up, retry_count, retry_delay,
}
use eerie_leap_rt.Http.AccessPoint.Start.{Started, Started-wait_up, initialize_iff}
use eerie_leap_rt.Http.AccessPoint.Events.{Mac, event_handler, joined_line, labelled, log}

module _ (n : Network) where
  open n use {World, Interface}

  -- The documented behaviour of the network's calls on an interface whose first address is free:
  -- what they set is read back, and the others leave the IPv4 settings alone. The two texts of the
  -- configuration are printed as they were parsed.
  pub record ReadsBack (i : Interface) : Type 0 where
    pub print-parse_address :
        (a : Address) → n.addr_pton wifi_ap_ip_address ≡ some a → n.addr_ntop a ≡ wifi_ap_ip_address
    pub print-parse_netmask :
        (a : Address) → n.addr_pton wifi_ap_netmask ≡ some a → n.addr_ntop a ≡ wifi_ap_netmask
    pub set :
        (a netmask : Address) (w : World)
        → let w1 = n.set_gw i a w in
          let (added, w2) = n.addr_add i a w1 in
          let (masked, w3) = n.set_netmask i a netmask w2 in
          added ≡ true
          → masked ≡ true
          → n.ipv4 i w3 ≡ some (record { address = a; netmask = netmask; gw = a })
    pub ipv4-dhcpv4_server_start :
        (a : Address) (w : World) → n.ipv4 i (n.dhcpv4_server_start i a w).1 ≡ n.ipv4 i w
    pub ipv4-ap_enable : (w : World) → n.ipv4 i (n.ap_enable i ap_config w).1 ≡ n.ipv4 i w
    pub ipv4-sleep : (w : World) → n.ipv4 i (n.sleep retry_delay w) ≡ n.ipv4 i w

  ipv4-wait_up :
      (i : Interface)
      → ReadsBack i
      → (rounds : ℕ) (w : World) → n.ipv4 i (wait_up n rounds i w) ≡ n.ipv4 i w
  unfolding wait_up
  ipv4-wait_up i r zero w = refl
  ipv4-wait_up i r (suc rounds) w = elim (Bool-cases (n.is_up i w)) [
    | inl e ↦ rw (e, wait_up) refl
    | inr e ↦ rw (e, wait_up) (ipv4-wait_up i r rounds (n.sleep retry_delay w) ∙ r.ipv4-sleep w)
  ]

  -- The start's calls on the address and on the netmask succeeded, which the code only logs.
  pub record IsAssigned (w w' : World) (i : Interface) (s : Started n w i w') : Type 0 where
    pub added :
        (n.addr_add i s.addr (n.set_gw i s.addr (n.add_event_callback net_event_wifi_mask w))).0
        ≡ true
    pub masked :
        let w1 = n.set_gw i s.addr (n.add_event_callback net_event_wifi_mask w) in
        (n.set_netmask i s.addr s.netmask (n.addr_add i s.addr w1).1).0 ≡ true

  -- The settings behind such a start.
  ipv4-initialize :
      (w w' : World) (i : Interface) (s : Started n w i w')
      → ReadsBack i
      → IsAssigned w w' i s
      → n.ipv4 i w' ≡ some (record { address = s.addr; netmask = s.netmask; gw = s.addr })
  unfolding configure ap_config
  ipv4-initialize w w' i s r h =
      ap (n.ipv4 i) (Started-wait_up n w w' i s)
      ∙ ipv4-wait_up i r retry_count s.w2
      ∙ ap (λ x. n.ipv4 i x.1) (sym s.enabled)
      ∙ r.ipv4-ap_enable s.w1
      ∙ ap (λ x. n.ipv4 i x.1) (sym s.served)
      ∙ r.ipv4-dhcpv4_server_start _ _
      ∙ r.set s.addr s.netmask _ h.added h.masked

  -- After a start that succeeded, also in setting the address and the netmask, on an interface that
  -- behaves as documented: when a station joins, the log has its address and then the address, the
  -- subnet and the router of the configuration, 192.168.4.1, 255.255.255.0 and again 192.168.4.1.
  pub event_handler-initialize :
      (w w' : World) (i : Interface) (s : Started n w i w')
      → ReadsBack i
      → IsAssigned w w' i s
      → (m : Mac)
      → (initialize n w ≡ (true, w'))
        × (event_handler n ap_sta_connected m i w' [] ≡ (
          returns tt,
          joined_line m
              ∷ labelled (codes "Address") (n.get_by_iface i) (codes "192.168.4.1")
              ∷ labelled (codes "Subnet") (n.get_by_iface i) (codes "255.255.255.0")
              ∷ labelled (codes "Router") (n.get_by_iface i) (codes "192.168.4.1")
              ∷ [],
        ))
  unfolding event_handler log
  event_handler-initialize w w' i s r h m = (
    (initialize_iff n w w').1 (i, s),
    rw
        (
          ipv4-initialize w w' i s r h,
          r.print-parse_address s.addr s.addr_parsed,
          r.print-parse_netmask s.netmask s.netmask_parsed,
        )
        refl,
  )
