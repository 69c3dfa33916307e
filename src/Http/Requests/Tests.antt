-- ===== src/Http/Requests/Tests.antt =====
-- A request that comes before Initialize, and one behind it.
use eerie_leap_rt.Common.{some, refl, [], ◌∷◌, Ends}
use eerie_leap_rt.Http.SensorsApi.{
  http_get, http_post, final, config_handler, construct, statics_init,
}
use eerie_leap_rt.Http.SensorsApi.Safety.{IsReady}
use eerie_leap_rt.Http.Tests.{sample, sample-IsSafe, early}
use eerie_leap_rt.Http.Requests.{
  System, stopped, serving, ready, start, initialize, request, Reach, here, next,
}
use eerie_leap_rt.Http.Requests.Reached.{Reach-Ends}

abbrev s0 : System sample
s0 = record { phase = stopped; state = early }

abbrev s1 : System sample
s1 = record s0 { phase = serving }

-- A POST that the missing buffer refuses.
abbrev s2 : System sample
s2 = record s1 { state = (config_handler sample http_post final (1 ∷ []) early).1 }

abbrev s3 : System sample
s3 = record {
  phase = ready;
  state = record s2.state { self = construct sample (some 3) (some 1) s2.state.self };
}

early_post : Reach sample 3 1 s0 s3
unfolding config_handler statics_init
early_post =
    next (next (next here (start refl refl)) (request http_post final (1 ∷ []) (λ h. cc) tt refl))
      (initialize refl refl)

Reach-Ends_example :
    IsReady sample 24576 3 1 s3.state.self
    × Ends (config_handler sample http_get final [] s3.state).0
Reach-Ends_example =
    Reach-Ends sample 3 1 sample-IsSafe s0 s3 http_get final [] refl refl early_post refl
