-- ===== src/Http/Tests/Current.antt =====
-- The store of the sample collaborators, after the attempts of `Attempts`.
use eerie_leap_rt.Common.{
  ℕ, ◌≡◌, refl, Bool, not, Option, none, some, List, [], ◌∷◌, length, ltb, arith, if◌then◌else◌,
}
use eerie_leap_rt.Http.SensorsApi.{get_handler, final}
use eerie_leap_rt.Http.SensorsApi.Attempts.{Attempt, attempts, completed}
use eerie_leap_rt.Http.SensorsApi.Store.{IsStore, rendering, object_of, is_true}
use eerie_leap_rt.Http.SensorsApi.Current.{current_all, Sends, get_handler-attempts}
use eerie_leap_rt.Http.Tests.{sample, sample-IsSafe, idle, small-IsReady}
use eerie_leap_rt.Http.Tests.Attempts.{tries}

abbrev nonempty : List ℕ → Option (List ℕ)
nonempty [] = none
nonempty (b ∷ bs) = some (b ∷ bs)

sample-parse :
    (b : List ℕ) (w : List ℕ × List Bool)
    → (object_of (sample.parse b w).0 ≡ nonempty b) × ((sample.parse b w).1.0 ≡ w.0)
sample-parse [] w = (refl, refl)
sample-parse (b ∷ bs) w = (refl, refl)

sample-update :
    (s : List ℕ) (w : List ℕ × List Bool)
    → (is_true (sample.update 3 s w).0 ≡ not (ltb 3 (length s)))
      × ((sample.update 3 s w).1.0 ≡ (if not (ltb 3 (length s)) then s else w.0))
sample-update s w = ground arith

abbrev sample-IsStore : IsStore sample 3 1
sample-IsStore = record {
  stored = λ w. w.0;
  config_of = nonempty;
  sensors_of = some;
  accepts = λ s. not (ltb 3 (length s));
  parse_lem = λ b w. (sample-parse b w).0;
  deserialize_lem = λ j w. refl;
  update_lem = λ s w. (sample-update s w).0;
  stored-parse = λ b w. (sample-parse b w).1;
  stored-deserialize = λ j w. refl;
  stored-update = λ s w. (sample-update s w).1;
  get_lem = λ w. refl;
  stored-stop = λ w. refl;
  stored-start = λ w. refl;
}

-- A body of two bytes, and behind it those that were given up, too long or refused.
abbrev more : List Attempt
more = completed ((8 ∷ []) ∷ []) (9 ∷ []) ∷ tries

first_is_current : current_all sample 4 3 1 sample-IsStore more [] ≡ 8 ∷ 9 ∷ []
first_is_current = refl

get_handler-attempts_example :
    let t = attempts sample more idle in
    let sensors = current_all sample 4 3 1 sample-IsStore more [] in
    (t.world.0 ≡ sensors)
    × Sends sample 4 3 1 sample-IsStore
        (rendering sample sample-IsStore sensors t.world)
        (get_handler sample final t)
get_handler-attempts_example =
    get_handler-attempts sample 4 3 1 sample-IsStore sample-IsSafe more idle
      (record { is_ready = small-IsReady; at_start = refl })
