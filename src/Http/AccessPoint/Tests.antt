-- ===== src/Http/AccessPoint/Tests.antt =====
-- A network whose world counts delays and lists what was done, and the theorems at inputs.
mod Joined
use eerie_leap_rt.Common.{
  ℕ, ◌+◌, ◌≡◌, refl, true, false, none, some, leb, ◌==◌, ◌↔◌, if◌then◌else◌, length,
}
use eerie_leap_rt.Http.AccessPoint.{
  Network, Ipv4, Address, initialize, ap_config, dhcp_start, security_none, wifi_ap_ip_address,
  wifi_ap_netmask,
}
use eerie_leap_rt.Http.AccessPoint.Start.{Started, initialize_iff}

-- The world is the time in milliseconds; the interface is up from 1200 on.
abbrev sample : Network
sample = record {
  World = ℕ;
  Interface = ℕ;
  addr_pton = λ s.
      if length s == 11
      then some (record { octet_0 = 192; octet_1 = 168; octet_2 = 4; octet_3 = 1 })
      else some (record { octet_0 = 255; octet_1 = 255; octet_2 = 255; octet_3 = 0 });
  addr_ntop = λ a. if a.octet_3 == 0 then wifi_ap_netmask else wifi_ap_ip_address;
  get_by_iface = λ i. i;
  ipv4 = λ i w. none;
  add_event_callback = λ events w. w;
  get_wifi_sap = λ w. some 3;
  set_gw = λ i a w. w;
  addr_add = λ i a w. (false, w);
  set_netmask = λ i a m w. (true, w);
  dhcpv4_server_start = λ i a w. (a.octet_3 == 11, w + 1);
  ap_enable = λ i c w. (true, w);
  is_up = λ i w. leb 1200 w;
  sleep = λ ms w. w + ms;
}

-- The pool starts ten addresses above the access point.
pool_start :
    (dhcp_start (record { octet_0 = 192; octet_1 = 168; octet_2 = 4; octet_3 = 1 })).octet_3 ≡ 11
unfolding dhcp_start
pool_start = refl

no_password : ap_config.security ≡ security_none
unfolding ap_config
no_password = refl

three_delays : initialize sample 0 ≡ (true, 1501)
unfolding initialize
three_delays = refl

initialize_iff_example : (initialize sample 0 ≡ (true, 1501)) ↔ ((i : ℕ) × Started sample 0 i 1501)
initialize_iff_example = initialize_iff sample 0 1501
