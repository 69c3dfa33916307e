-- ===== src/Http/AccessPoint/Stations.antt =====
-- What the log tells of the stations and of the interface they joined.
use eerie_leap_rt.Common.{
  ℕ, suc, ◌+◌, ◌-◌, ◌*◌, ◌/◌, ◌%◌, ◌<◌, ◌≡◌, refl, List, [], ◌∷◌, ◌++◌, ltb, if◌then◌else◌, codes,
  Option, none, some, ◌⊎◌, inl, inr, Option-cases, arith, get_elem?, ◌==◌,
}
use eerie_leap_rt.Http.AccessPoint.{
  Network, Event, ap_enable_result, ap_disable_result, ap_sta_connected, ap_sta_disconnected,
  other_event,
}
use eerie_leap_rt.Http.AccessPoint.Events.{
  Mac, hex_digit, hex_byte, mac_text, joined_line, leave_line, event_handler,
}

-- The value of a digit `0` to `9` or `A` to `F`.
abbrev digit_value : ℕ → ℕ
digit_value c = if ltb c 65 then c - 48 else c - 55

abbrev value_at : List ℕ → ℕ → ℕ
value_at text k = digit_of (get_elem? text k)
  where
    digit_of : Option ℕ → ℕ
    digit_of none = 0
    digit_of (some c) = digit_value c

abbrev byte_at : List ℕ → ℕ → ℕ
byte_at text k = value_at text k * 16 + value_at text (suc k)

-- The address that stands at the ninth place of a line.
abbrev pub station_of : List ℕ → Mac
station_of line = record {
  mac_0 = byte_at line 9;
  mac_1 = byte_at line 12;
  mac_2 = byte_at line 15;
  mac_3 = byte_at line 18;
  mac_4 = byte_at line 21;
  mac_5 = byte_at line 24;
}

pub record IsMac (m : Mac) : Type 0 where
  pub byte_0 : m.mac_0 < 256
  pub byte_1 : m.mac_1 < 256
  pub byte_2 : m.mac_2 < 256
  pub byte_3 : m.mac_3 < 256
  pub byte_4 : m.mac_4 < 256
  pub byte_5 : m.mac_5 < 256

digit_value-hex_digit : (d : ℕ) → d < 16 → digit_value (hex_digit d) ≡ d
unfolding hex_digit
digit_value-hex_digit d h = ground arith

byte_lem :
    (b : ℕ) → b < 256 → digit_value (hex_digit (b / 16)) * 16 + digit_value (hex_digit (b % 16)) ≡ b
byte_lem b h = omega (
  arith,
  digit_value-hex_digit (b / 16) (omega arith),
  digit_value-hex_digit (b % 16) (omega arith),
)

station_of-line :
    (m : Mac) (rest : List ℕ) → IsMac m → station_of (codes "station: " ++ (mac_text m ++ rest)) ≡ m
unfolding mac_text hex_byte
station_of-line m rest h =
    rw
      (
        byte_lem m.mac_0 h.byte_0,
        byte_lem m.mac_1 h.byte_1,
        byte_lem m.mac_2 h.byte_2,
        byte_lem m.mac_3 h.byte_3,
        byte_lem m.mac_4 h.byte_4,
        byte_lem m.mac_5 h.byte_5,
      )
      refl

-- Which of the two messages a line about a station is: the letter behind the address and a space.
abbrev pub event_of : List ℕ → Event
event_of line = elim (get_elem? line 27) [
  | some c ↦
      if c == 106 then ap_sta_connected else if c == 108 then ap_sta_disconnected else other_event
  | none ↦ other_event
]

-- The first line that an event leaves in an empty log.
abbrev pub first_line : List (List ℕ) → List ℕ
first_line [] = []
first_line (line ∷ lines) = line

event_of-joined_line : (m : Mac) → event_of (joined_line m) ≡ ap_sta_connected
unfolding mac_text hex_byte
event_of-joined_line m = refl

event_of-leave_line : (m : Mac) → event_of (leave_line m) ≡ ap_sta_disconnected
unfolding mac_text hex_byte
event_of-leave_line m = refl

module _ (n : Network) where
  first_line-event_handler :
      (m : Mac) (i : n.Interface) (w : n.World)
      → first_line (event_handler n ap_sta_connected m i w []).1 ≡ joined_line m
  unfolding event_handler
  first_line-event_handler m i w = elim (Option-cases (n.ipv4 i w)) [
    | inl e ↦ rw e refl
    | inr (a, e) ↦ rw e refl
  ]

  -- The first line of a station's event can be read back: it tells whether the station joined or
  -- left, and the six bytes of its address.
  pub station_of-event_handler :
      (event : Event) (m : Mac) (i : n.Interface) (w : n.World)
      → IsMac m
      → (event ≡ ap_sta_connected) ⊎ (event ≡ ap_sta_disconnected)
      → let line = first_line (event_handler n event m i w []).1 in
        (station_of line ≡ m) × (event_of line ≡ event)
  unfolding event_handler
  station_of-event_handler ap_sta_connected m i w h k =
      rw (first_line-event_handler m i w) (station_of-line m _ h, event_of-joined_line m)
  station_of-event_handler ap_sta_disconnected m i w h k =
      (station_of-line m _ h, event_of-leave_line m)
  station_of-event_handler ap_enable_result m i w h k = ground arith
  station_of-event_handler ap_disable_result m i w h k = ground arith
  station_of-event_handler other_event m i w h k = ground arith
