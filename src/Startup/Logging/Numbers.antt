-- ===== src/Startup/Logging/Numbers.antt =====
-- app/src/main.cpp, SetupLoggingConfiguration: which sensor is logged how.
use eerie_leap_rt.Common.{
  ℕ, ◌≤◌, ◌≡◌, refl, sym, ap, ◌∙◌, false, ◌==◌, if◌then◌else◌, List, [], ◌∷◌, map, length,
  get_elem?, Option, none, some, returns, throws, arith, ℕ_discrete,
}
use eerie_leap_rt.DeviceTree.Devices.{emplace, find}
use eerie_leap_rt.Startup.Logging.{
  SensorLogging, LoggingConfiguration, sensor_logging_config_1, sensor_logging_config_2,
  sensor_logging_config_6, sensor_logging_config_7, insert_sensor, setup_logging_configuration,
}

-- The hashes of the sensors' ids are different.
abbrev pub AreDistinct : List ℕ → Type 0
AreDistinct hashes = (i j h : ℕ) → get_elem? hashes i ≡ some h → get_elem? hashes j ≡ some h → i ≡ j

-- The configuration of the sensor with a number.
abbrev pub configuration_of : ℕ → Option SensorLogging
configuration_of i =
    if 0 == i
    then some sensor_logging_config_1
    else if 1 == i
    then some sensor_logging_config_2
    else if 5 == i
    then some sensor_logging_config_6
    else if 6 == i
    then some sensor_logging_config_7
    else none

-- Two sensors have the same hash exactly if they have the same number.
same :
    (hashes : List ℕ)
    → AreDistinct hashes
    → (i j x y : ℕ) → get_elem? hashes i ≡ some x
    → get_elem? hashes j ≡ some y
    → (x == y) ≡ (i == j)
same hashes distinct i j x y p q = elim (ℕ_discrete x y) [
  | yes e ↦ let i≡j : i ≡ j = distinct i j y (p ∙ ap some e) q in ground arith
  | no n ↦ elim (ℕ_discrete i j) [
    | yes e ↦ let r : some x ≡ some y = sym p ∙ ap (get_elem? hashes) e ∙ q in absurd (n cc)
    | no m ↦ ground arith
  ]
]

module _ {V : Type 0} (h0 h1 h5 h6 : ℕ) (a b c d : V) where
  -- Four entries under different keys.
  emplaced :
      (h0 == h1) ≡ false
      → (h0 == h5) ≡ false
      → (h0 == h6) ≡ false
      → (h1 == h5) ≡ false
      → (h1 == h6) ≡ false
      → (h5 == h6) ≡ false
      → emplace h6 d (emplace h5 c (emplace h1 b (emplace h0 a [])))
        ≡ (h0, a) ∷ (h1, b) ∷ (h5, c) ∷ (h6, d) ∷ []
  unfolding emplace
  emplaced s01 s05 s06 s15 s16 s56 = ground arith

  found :
      (i h : ℕ)
      → (h0 == h) ≡ (0 == i)
      → (h1 == h) ≡ (1 == i)
      → (h5 == h) ≡ (5 == i)
      → (h6 == h) ≡ (6 == i)
      → find h ((h0, a) ∷ (h1, b) ∷ (h5, c) ∷ (h6, d) ∷ []) ≡ (
          if 0 == i
          then some a
          else if 1 == i
          then some b
          else if 5 == i
          then some c
          else if 6 == i
          then some d
          else none)
  unfolding find
  found i h s0 s1 s5 s6 = rw s0 (rw s1 (rw s5 (rw s6 refl)))

-- Where there are at most six sensors, SetupLoggingConfiguration throws. With seven or more, none of them null and no two
-- with the same hash, the configuration has an interval of 100 ms, and the sensors with the numbers 0, 1, 5
-- and 6 find their settings in it, every other sensor none.
pub setup_logging_configuration_lem :
    (e hashes : List ℕ)
    → AreDistinct hashes
    → (length hashes ≤ 6 → (setup_logging_configuration e (some (map some hashes)) []).0 ≡ throws e)
      × (7 ≤ length hashes
          → (k : LoggingConfiguration) × ((setup_logging_configuration e
                (some (map some hashes))
                []).0
              ≡ returns k)
            × (k.logging_interval_ms ≡ 100)
            × ((i h : ℕ)
                → get_elem? hashes i ≡ some h
                → find h k.sensor_configurations ≡ configuration_of i))
unfolding setup_logging_configuration insert_sensor
setup_logging_configuration_lem e [] d = (λ p. refl, λ p. absurd (omega arith))
setup_logging_configuration_lem e (h0 ∷ []) d = (λ p. refl, λ p. absurd (omega arith))
setup_logging_configuration_lem e (h0 ∷ h1 ∷ []) d = (λ p. refl, λ p. absurd (omega arith))
setup_logging_configuration_lem e (h0 ∷ h1 ∷ h2 ∷ []) d = (λ p. refl, λ p. absurd (omega arith))
setup_logging_configuration_lem e (h0 ∷ h1 ∷ h2 ∷ h3 ∷ []) d =
    (λ p. refl, λ p. absurd (omega arith))
setup_logging_configuration_lem e (h0 ∷ h1 ∷ h2 ∷ h3 ∷ h4 ∷ []) d =
    (λ p. refl, λ p. absurd (omega arith))
setup_logging_configuration_lem e (h0 ∷ h1 ∷ h2 ∷ h3 ∷ h4 ∷ h5 ∷ []) d =
    (λ p. refl, λ p. absurd (omega arith))
setup_logging_configuration_lem e (h0 ∷ h1 ∷ h2 ∷ h3 ∷ h4 ∷ h5 ∷ h6 ∷ l) d = (
  λ p. absurd (omega arith),
  λ p.
      let hashes = h0 ∷ h1 ∷ h2 ∷ h3 ∷ h4 ∷ h5 ∷ h6 ∷ l in
      let s = same hashes d in
      (
        record {
          logging_interval_ms = 100;
          sensor_configurations =
              (h0, sensor_logging_config_1)
              ∷ (h1, sensor_logging_config_2)
              ∷ (h5, sensor_logging_config_6)
              ∷ (h6, sensor_logging_config_7)
              ∷ [];
        },
        ap (λ m. returns (record { logging_interval_ms = 100; sensor_configurations = m }))
            (emplaced h0 h1 h5 h6 sensor_logging_config_1 sensor_logging_config_2
              sensor_logging_config_6 sensor_logging_config_7 (s 0 1 h0 h1 refl refl)
              (s 0 5 h0 h5 refl refl) (s 0 6 h0 h6 refl refl) (s 1 5 h1 h5 refl refl)
              (s 1 6 h1 h6 refl refl) (s 5 6 h5 h6 refl refl)),
        refl,
        λ i h q.
            found h0 h1 h5 h6 sensor_logging_config_1 sensor_logging_config_2
              sensor_logging_config_6 sensor_logging_config_7 i h (s 0 i h0 h refl q)
              (s 1 i h1 h refl q) (s 5 i h5 h refl q) (s 6 i h6 h refl q),
      ),
)
