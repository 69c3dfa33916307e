-- ===== src/Http/AccessPoint.antt =====
-- app/src/domain/http_domain/services/wifi_ap_service.{h,cpp}: `WifiApService`, in a build with
-- CONFIG_WIFI.
pub mod Events
pub mod Stations
pub mod Joined
pub mod Start
mod Tests
use eerie_leap_rt.Common.{
  ℕ, zero, suc, ◌+◌, ◌%◌, Bool, true, false, Option, none, some, List, [], ◌∷◌, ltb, codes, length,
  if◌then◌else◌, String, ◌==◌,
}

-- `in_addr`, by its octets.
pub record Address : Type 0 where
  pub octet_0 : ℕ
  pub octet_1 : ℕ
  pub octet_2 : ℕ
  pub octet_3 : ℕ

pub data Security : Type 0 where
  security_none security_psk : Security

-- `wifi_connect_req_params`; the band and the channel are constants.
pub record AccessPointConfig : Type 0 where
  pub ssid : List ℕ
  pub psk : List ℕ
  pub security : Security

-- The events of the access point that the code names; `other_event` is every other one.
pub data Event : Type 0 where
  ap_enable_result ap_disable_result ap_sta_connected ap_sta_disconnected other_event : Event

-- What the handler reads of `iface->config.ip.ipv4`: the first unicast address with its netmask, and
-- the gateway.
pub record Ipv4 : Type 0 where
  pub address : Address
  pub netmask : Address
  pub gw : Address

-- Zephyr's network API. A call that only fails or not returns `true` for success.
pub record Network : Type 1 where
  pub World : Type 0
  pub Interface : Type 0
  pub addr_pton : List ℕ → Option Address
  pub addr_ntop : Address → List ℕ
  pub get_by_iface : Interface → ℕ
  -- The interface's IPv4 settings, unless it has none.
  pub ipv4 : Interface → World → Option Ipv4
  pub add_event_callback : List Event → World → World
  pub get_wifi_sap : World → Option Interface
  pub set_gw : Interface → Address → World → World
  pub addr_add : Interface → Address → World → Bool × World
  pub set_netmask : Interface → Address → Address → World → Bool × World
  pub dhcpv4_server_start : Interface → Address → World → Bool × World
  pub ap_enable : Interface → AccessPointConfig → World → Bool × World
  pub is_up : Interface → World → Bool
  pub sleep : ℕ → World → World

abbrev pub wifi_ap_ssid : List ℕ
wifi_ap_ssid = codes "EerieLeap"

abbrev pub wifi_ap_psk : List ℕ
wifi_ap_psk = codes ""

abbrev pub wifi_ap_ip_address : List ℕ
wifi_ap_ip_address = codes "192.168.4.1"

abbrev pub wifi_ap_netmask : List ℕ
wifi_ap_netmask = codes "255.255.255.0"

-- `NET_EVENT_WIFI_MASK`.
abbrev pub net_event_wifi_mask : List Event
net_event_wifi_mask =
    ap_enable_result ∷ ap_disable_result ∷ ap_sta_connected ∷ ap_sta_disconnected ∷ []

abbrev pub retry_count : ℕ
retry_count = 10

abbrev pub retry_delay : ℕ
retry_delay = 500

-- `addr.s4_addr[3] += dhcp_start_ip_offset`, on a byte.
unfoldable pub dhcp_start : Address → Address
dhcp_start a = record a { octet_3 = (a.octet_3 + 10) % 256 }

unfoldable pub ap_config : AccessPointConfig
ap_config = record {
  ssid = wifi_ap_ssid;
  psk = wifi_ap_psk;
  security = if length wifi_ap_psk == 0 then security_none else security_psk;
}

module _ (n : Network) where
  open n use {World, Interface}

  -- The body of `DHCPv4ServerInitialize` behind the two parsed addresses. That an address or a
  -- netmask cannot be set is only logged.
  unfoldable pub configure : Interface → Address → Address → World → Bool × World
  unfolding dhcp_start
  configure i addr netmask w =
      let w1 = n.set_gw i addr w in
      let w2 = (n.addr_add i addr w1).1 in
      let w3 = (n.set_netmask i addr netmask w2).1 in n.dhcpv4_server_start i (dhcp_start addr) w3

  unfoldable pub with_addresses : Option Address → Option Address → Interface → World → Bool × World
  unfolding configure
  with_addresses (some addr) (some netmask) i w = configure i addr netmask w
  with_addresses _ _ i w = (false, w)

  unfoldable pub dhcpv4_server_initialize : Interface → World → Bool × World
  unfolding with_addresses
  dhcpv4_server_initialize i w =
      with_addresses (n.addr_pton wifi_ap_ip_address) (n.addr_pton wifi_ap_netmask) i w

  unfoldable pub enable_if : Bool × World → Interface → Bool × World
  enable_if (true, w) i = n.ap_enable i ap_config w
  enable_if (false, w) i = (false, w)

  -- `AccessPointInitialize`, on `ap_interface_`.
  unfoldable pub access_point_initialize : Option Interface → World → Bool × World
  unfolding dhcpv4_server_initialize enable_if
  access_point_initialize none w = (false, w)
  access_point_initialize (some i) w = enable_if (dhcpv4_server_initialize i w) i

  -- The loop of `Initialize`, with the rounds that are left.
  unfoldable pub wait_up : ℕ → Interface → World → World
  wait_up zero i w = w
  wait_up (suc rounds) i w = elim (n.is_up i w) [
    | true ↦ w
    | false ↦ wait_up rounds i (n.sleep retry_delay w)
  ]

  -- What follows `AccessPointInitialize`.
  unfoldable pub wait_if : Bool × World → Option Interface → Bool × World
  unfolding wait_up
  wait_if (true, w) (some i) = (true, wait_up retry_count i w)
  wait_if (true, w) none = (true, w)
  wait_if (false, w) i = (false, w)

  -- `Initialize`: the result and the world; `ap_interface_` is what `get_wifi_sap` gave.
  unfoldable pub initialize : World → Bool × World
  unfolding access_point_initialize wait_if
  initialize w =
      let w1 = n.add_event_callback net_event_wifi_mask w in
      let i = n.get_wifi_sap w1 in wait_if (access_point_initialize i w1) i
