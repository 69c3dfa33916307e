-- ===== src/Http/AccessPoint/Tests/Joined.antt =====
-- A network that keeps the settings of its interface, and what the log tells of it and of a station.
use eerie_leap_rt.Common.{
  ℕ, ◌+◌, ◌≡◌, refl, true, some, [], ◌∷◌, if◌then◌else◌, length, ◌==◌, codes, inl, inr, returns,
  arith,
}
use eerie_leap_rt.Http.AccessPoint.{
  Network, Address, Ipv4, initialize, ap_sta_connected, wifi_ap_ip_address, wifi_ap_netmask,
}
use eerie_leap_rt.Http.AccessPoint.Start.{Started, delays}
use eerie_leap_rt.Http.AccessPoint.Events.{
  Mac, event_handler, joined_line, labelled, mac_text, hex_byte, hex_digit,
}
use eerie_leap_rt.Http.AccessPoint.Stations.{
  IsMac, station_of, event_of, first_line, station_of-event_handler,
}
use eerie_leap_rt.Http.AccessPoint.Joined.{ReadsBack, event_handler-initialize}

abbrev home : Address
home = record { octet_0 = 192; octet_1 = 168; octet_2 = 4; octet_3 = 1 }

abbrev mask : Address
mask = record { octet_0 = 255; octet_1 = 255; octet_2 = 255; octet_3 = 0 }

-- The world is the time with the settings; the interface is up at once.
abbrev keeper : Network
keeper = record {
  World = ℕ × Ipv4;
  Interface = ℕ;
  addr_pton = λ s. if length s == 11 then some home else some mask;
  addr_ntop = λ a. if a.octet_3 == 0 then wifi_ap_netmask else wifi_ap_ip_address;
  get_by_iface = λ i. i;
  ipv4 = λ i w. some w.1;
  add_event_callback = λ events w. (length events, w.1);
  get_wifi_sap = λ w. some 2;
  set_gw = λ i a w. (w.0, record { address = w.1.address; netmask = w.1.netmask; gw = a });
  addr_add = λ i a w. (true, (w.0, record { address = a; netmask = w.1.netmask; gw = w.1.gw }));
  set_netmask =
      λ i a m w. (true, (w.0, record { address = w.1.address; netmask = m; gw = w.1.gw }));
  dhcpv4_server_start = λ i a w. (true, w);
  ap_enable = λ i c w. (true, w);
  is_up = λ i w. true;
  sleep = λ ms w. (w.0 + ms, w.1);
}

abbrev blank : Ipv4
blank = record { address = mask; netmask = mask; gw = mask }

abbrev set_up : ℕ × Ipv4
set_up = (4, record { address = home; netmask = mask; gw = home })

abbrev phone : Mac
phone = record { mac_0 = 0x9c; mac_1 = 0; mac_2 = 0xff; mac_3 = 10; mac_4 = 0xa0; mac_5 = 5 }

phone_text : mac_text phone ≡ codes "9C:00:FF:0A:A0:05"
unfolding mac_text hex_byte hex_digit
phone_text = refl

phone-IsMac : IsMac phone
phone-IsMac = record {
  byte_0 = omega arith;
  byte_1 = omega arith;
  byte_2 = omega arith;
  byte_3 = omega arith;
  byte_4 = omega arith;
  byte_5 = omega arith;
}

station_of-event_handler_example :
    let line = first_line (event_handler keeper ap_sta_connected phone 2 set_up []).1 in
    (station_of line ≡ phone) × (event_of line ≡ ap_sta_connected)
station_of-event_handler_example =
    station_of-event_handler keeper ap_sta_connected phone 2 set_up phone-IsMac (inl refl)

octet_3-some : (a b : Address) → some a ≡ some b → b.octet_3 ≡ a.octet_3
octet_3-some a b h = cc

keeper-ReadsBack : ReadsBack keeper 2
keeper-ReadsBack = record {
  print-parse_address = λ a h. rw (octet_3-some home a h) refl;
  print-parse_netmask = λ a h. rw (octet_3-some mask a h) refl;
  set = λ a m w p q. refl;
  ipv4-dhcpv4_server_start = λ a w. refl;
  ipv4-ap_enable = λ w. refl;
  ipv4-sleep = λ w. refl;
}

abbrev keeper_started : Started keeper (0, blank) 2 set_up
unfolding delays
keeper_started = record {
  addr = home;
  netmask = mask;
  w1 = set_up;
  w2 = set_up;
  found = refl;
  addr_parsed = refl;
  netmask_parsed = refl;
  served = refl;
  enabled = refl;
  waited = record {
    k = 0;
    bound = omega arith;
    ends = refl;
    polls = λ j h. absurd (omega arith);
    last = inr refl;
  };
}

event_handler-initialize_example :
    (initialize keeper (0, blank) ≡ (true, set_up))
    × (event_handler keeper ap_sta_connected phone 2 set_up [] ≡ (
      returns tt,
      joined_line phone
          ∷ labelled (codes "Address") 2 (codes "192.168.4.1")
          ∷ labelled (codes "Subnet") 2 (codes "255.255.255.0")
          ∷ labelled (codes "Router") 2 (codes "192.168.4.1")
          ∷ [],
    ))
event_handler-initialize_example =
    event_handler-initialize keeper (0, blank) set_up 2 keeper_started keeper-ReadsBack
      (record { added = refl; masked = refl }) phone
