-- ===== src/Http/SensorsApi/Store.antt =====
-- The endpoint as a store of sensors: which of the uploaded bodies is the current configuration.
use eerie_leap_rt.Common.{
  ℕ, ◌≡◌, refl, sym, ◌∙◌, ap, Bool, true, false, Option, none, some, List, if◌then◌else◌, Outcome,
  returns, throws, faults, and_then, Eff, deref, require, ◌>>=◌, ◌>>◌,
}
use eerie_leap_rt.Http.Collaborators.{Collaborators}
use eerie_leap_rt.Http.SensorsApi.{Statics, update_sensors_config, render_config}
use eerie_leap_rt.Http.SensorsApi.Safety.{IsReady}

-- The value that a call returned, if it did.
abbrev pub value_of {ℓ} : {A : Type ℓ} → Outcome A → Option A
value_of (returns a) = some a
value_of (throws e) = none
value_of faults = none

-- The same of a pointer that is not null.
abbrev pub object_of {ℓ} : {A : Type ℓ} → Outcome (Option A) → Option A
object_of (returns o) = o
object_of (throws e) = none
object_of faults = none

abbrev pub is_true : Outcome Bool → Bool
is_true (returns b) = b
is_true (throws e) = false
is_true faults = false

module _ (c : Collaborators) where
  open c use {World, Manager, Service, Sensors, JsonConfig, new_parser}

  -- Collaborators that keep sensors: `stored` are those of the configuration manager. What a body and
  -- a configuration stand for, and whether the manager takes the sensors, does not depend on the
  -- world; only an update that is answered by true changes what is stored.
  pub record IsStore (m : Manager) (v : Service) : Type 0 where
    pub stored : World → Sensors
    pub config_of : List ℕ → Option JsonConfig
    pub sensors_of : JsonConfig → Option Sensors
    pub accepts : Sensors → Bool
    pub parse_lem : (b : List ℕ) (w : World) → object_of (c.parse b w).0 ≡ config_of b
    pub deserialize_lem :
        (j : JsonConfig) (w : World)
        → value_of (c.deserialize new_parser j 16 16 w).0 ≡ sensors_of j
    pub update_lem : (s : Sensors) (w : World) → is_true (c.update m s w).0 ≡ accepts s
    pub stored-parse : (b : List ℕ) (w : World) → stored (c.parse b w).1 ≡ stored w
    pub stored-deserialize :
        (j : JsonConfig) (w : World) → stored (c.deserialize new_parser j 16 16 w).1 ≡ stored w
    pub stored-update :
        (s : Sensors) (w : World) → stored (c.update m s w).1 ≡ (if accepts s then s else stored w)
    pub get_lem : (w : World) → c.get m w ≡ (returns (some (stored w)), w)
    pub stored-stop : (w : World) → stored (c.stop v w).1 ≡ stored w
    pub stored-start : (w : World) → stored (c.start v w).1 ≡ stored w

  module _ {m : Manager} {v : Service} (law : IsStore m v) where
    open law use {stored, config_of, sensors_of, accepts}

    abbrev accepted : Option Sensors → Sensors → Sensors
    accepted none old = old
    accepted (some s) old = if accepts s then s else old

    abbrev read : Option JsonConfig → Option Sensors
    read none = none
    read (some j) = sensors_of j

    -- The sensors behind the upload of a body.
    abbrev pub applied : List ℕ → Sensors → Sensors
    applied body old = accepted (read (config_of body)) old

    -- A call that keeps what is stored, and what follows it.
    stored-and_then :
        {A : Type 0} (r : Outcome A × World) (f : A → Eff World (Unit {0})) (x y : Sensors)
        → stored r.1 ≡ x
        → ((a : A) (w : World) → value_of r.0 ≡ some a → stored w ≡ x → stored (f a w).1 ≡ y)
        → (value_of r.0 ≡ none → x ≡ y)
        → stored (and_then r f).1 ≡ y
    stored-and_then (returns a, w) f x y k go stop = go a w refl k
    stored-and_then (throws e, w) f x y k go stop = k ∙ stop refl
    stored-and_then (faults, w) f x y k go stop = k ∙ stop refl

    stored-object :
        (r : Outcome (Option JsonConfig) × World) (f : JsonConfig → Eff World (Unit {0}))
        (x y : Sensors)
        → stored r.1 ≡ x
        → ((j : JsonConfig) (w : World)
            → object_of r.0 ≡ some j
            → stored w ≡ x
            → stored (f j w).1 ≡ y)
        → (object_of r.0 ≡ none → x ≡ y)
        → stored (and_then r (λ o. deref o >>= f)).1 ≡ y
    stored-object (returns none, w) f x y k go stop = k ∙ stop refl
    stored-object (returns (some j), w) f x y k go stop = go j w refl k
    stored-object (throws e, w) f x y k go stop = k ∙ stop refl
    stored-object (faults, w) f x y k go stop = k ∙ stop refl

    -- What follows an update that was answered keeps what is stored.
    stored-required :
        (r : Outcome Bool × World) (e : List ℕ) (f : Eff World (Unit {0})) (x : Sensors)
        → stored r.1 ≡ x
        → ((w : World) → stored w ≡ x → stored (f w).1 ≡ x)
        → stored (and_then r (λ b. require b e >> f)).1 ≡ x
    stored-required (returns true, w) e f x k go = go w k
    stored-required (returns false, w) e f x k go = k
    stored-required (throws error, w) e f x k go = k
    stored-required (faults, w) e f x k go = k

    applied_lem :
        (body : List ℕ) (j : JsonConfig) (o : Option Sensors) (old : Sensors)
        → config_of body ≡ some j
        → sensors_of j ≡ o
        → applied body old ≡ accepted o old
    applied_lem body j o old ej eo =
        ap (λ x. accepted (read x) old) ej ∙ ap (λ x. accepted x old) eo

    pub stored-update_sensors_config :
        (n : ℕ) (a : Statics c) (body : List ℕ) (w : World)
        → IsReady c n m v a
        → stored (update_sensors_config c a body w).1 ≡ applied body (stored w)
    unfolding update_sensors_config
    stored-update_sensors_config n a body w r =
        let new = applied body (stored w) in
        rw (r.parser_ready, r.manager_ready, r.service_ready)
          (stored-object (c.parse body w) _ (stored w) new (law.stored-parse body w)
            (λ j w1 ej k1.
              let parsed = sym (law.parse_lem body w) ∙ ej in
              stored-and_then (c.deserialize new_parser j 16 16 w1) _ (stored w) new
                (law.stored-deserialize j w1 ∙ k1)
                (λ s w2 es k2.
                  let read = sym (law.deserialize_lem j w1) ∙ es in
                  stored-required (c.update m s w2) _ _ new
                    (law.stored-update s w2
                      ∙ ap (λ old. if accepts s then s else old) k2
                      ∙ sym (applied_lem body j (some s) (stored w) parsed read))
                    (λ w3 k3.
                      stored-and_then (c.stop v w3) (λ _. c.start v) new new
                        (law.stored-stop w3 ∙ k3) (λ _ w4 _ k4. law.stored-start w4 ∙ k4)
                        (λ _. refl)))
                (λ es. sym (
                  applied_lem body j none (stored w) parsed (sym (law.deserialize_lem j w1) ∙ es))))
            (λ ej. sym (ap (λ o. accepted (read o) (stored w)) (sym (law.parse_lem body w) ∙ ej))))

    -- How a GET renders sensors.
    abbrev pub rendering : Sensors → Eff World (List ℕ)
    rendering s = do config ← c.serialize new_parser s 16 16; json ← deref config; c.print json

    pub render_config_lem :
        (n : ℕ) (a : Statics c) (w : World)
        → IsReady c n m v a
        → render_config c a w ≡ rendering (stored w) w
    unfolding render_config
    render_config_lem n a w r = rw (r.parser_ready, r.manager_ready) (rw (law.get_lem w) refl)
