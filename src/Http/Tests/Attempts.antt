-- ===== src/Http/Tests/Attempts.antt =====
-- An upload behind one that was given up, one that did not fit and one that the manager refused.
use eerie_leap_rt.Common.{◌≡◌, refl, List, [], ◌∷◌}
use eerie_leap_rt.Http.SensorsApi.{update_sensors_config}
use eerie_leap_rt.Http.SensorsApi.Upload.{upload}
use eerie_leap_rt.Http.SensorsApi.Attempts.{
  Attempt, completed, abandoned, attempts, visible, upload-attempts,
}
use eerie_leap_rt.Http.Tests.{sample, sample-IsSafe, idle, small-IsReady}

abbrev pub tries : List Attempt
tries =
    abandoned ((1 ∷ 2 ∷ 3 ∷ []) ∷ [])
    ∷ completed ((1 ∷ 2 ∷ 3 ∷ []) ∷ []) (4 ∷ 5 ∷ [])
    ∷ completed [] (1 ∷ 2 ∷ 3 ∷ 4 ∷ [])
    ∷ []

-- The bytes of the last one are in the buffer, and only the new ones become the configuration.
only_new : (upload sample [] (7 ∷ []) (attempts sample tries idle)).1.world.0 ≡ 7 ∷ []
unfolding upload attempts update_sensors_config
only_new = refl

upload-attempts_example :
    let t = attempts sample tries idle in
    visible sample (upload sample [] (7 ∷ []) t)
    ≡ visible sample
        (upload sample [] (7 ∷ []) (record idle { response = t.response; world = t.world }))
upload-attempts_example =
    upload-attempts sample 4 3 1 sample-IsSafe tries [] (7 ∷ []) idle
      (record { is_ready = small-IsReady; at_start = refl })
