-- ===== src/Http/AccessPoint/Events.antt =====
-- `WifiApService::EventHandler`: what it logs for each event.
use eerie_leap_rt.Common.{
  ℕ, ◌+◌, ◌/◌, ◌%◌, List, [], ◌∷◌, ◌++◌, ltb, if◌then◌else◌, codes, Eff, ◌>>=◌, ◌>>◌, pure, deref,
  returns,
}
use eerie_leap_rt.Common.Texts.{to_string}
use eerie_leap_rt.Http.AccessPoint.{
  Network, Event, ap_enable_result, ap_disable_result, ap_sta_connected, ap_sta_disconnected,
  other_event,
}

-- `mac` of `wifi_ap_sta_info`, by its bytes.
pub record Mac : Type 0 where
  pub mac_0 : ℕ
  pub mac_1 : ℕ
  pub mac_2 : ℕ
  pub mac_3 : ℕ
  pub mac_4 : ℕ
  pub mac_5 : ℕ

unfoldable pub hex_digit : ℕ → ℕ
hex_digit d = if ltb d 10 then 48 + d else 55 + d

-- `%02X`, of a byte.
unfoldable pub hex_byte : ℕ → List ℕ
hex_byte b = hex_digit (b / 16) ∷ hex_digit (b % 16) ∷ []

-- `MACSTR`, with the bytes of the address.
unfoldable pub mac_text : Mac → List ℕ
mac_text m =
    hex_byte m.mac_0
    ++ (codes ":"
        ++ (hex_byte m.mac_1
            ++ (codes ":"
                ++ (hex_byte m.mac_2
                    ++ (codes ":"
                        ++ (hex_byte m.mac_3
                            ++ (codes ":"
                                ++ (hex_byte m.mac_4 ++ (codes ":" ++ hex_byte m.mac_5)))))))))

-- A line of the log, before the messages that are still to come.
unfoldable pub log : List ℕ → Eff (List (List ℕ)) (Unit {0})
log line lines = (returns tt, lines ++ (line ∷ []))

abbrev pub joined_line : Mac → List ℕ
joined_line m = codes "station: " ++ (mac_text m ++ codes " joined ")

abbrev pub leave_line : Mac → List ℕ
leave_line m = codes "station: " ++ (mac_text m ++ codes " leave ")

-- `"    <label>[%d]: %s"`, with the number of the interface.
abbrev pub labelled : List ℕ → ℕ → List ℕ → List ℕ
labelled label i text =
    codes "    " ++ (label ++ (codes "[" ++ (to_string i ++ (codes "]: " ++ text))))

module _ (n : Network) where
  open n use {World, Interface}

  -- The handler: the lines of the log, with the station's address in the event's information, on
  -- the interface in that world.
  unfoldable pub event_handler : Event → Mac → Interface → World → Eff (List (List ℕ)) (Unit {0})
  unfolding log
  event_handler ap_enable_result m i w =
      log (codes "AP Mode is enabled. Waiting for station to connect")
  event_handler ap_disable_result m i w = log (codes "AP Mode is disabled.")
  event_handler ap_sta_connected m i w = do
    log (joined_line m)
    address ← deref (n.ipv4 i w)
    log (labelled (codes "Address") (n.get_by_iface i) (n.addr_ntop address.address))
    subnet ← deref (n.ipv4 i w)
    log (labelled (codes "Subnet") (n.get_by_iface i) (n.addr_ntop subnet.netmask))
    router ← deref (n.ipv4 i w)
    log (labelled (codes "Router") (n.get_by_iface i) (n.addr_ntop router.gw))
  event_handler ap_sta_disconnected m i w = log (leave_line m)
  event_handler other_event m i w = pure tt
