-- ===== src/Controllers/Display/Refinement.antt =====
-- DisplayController as a set of statuses: what its calls promise, without order and representation.
use eerie_leap_rt.Common.{
  ℕ, ◌≡◌, ◌≢◌, refl, sym, ◌∙◌, subst, true, some, List, [], ◌∷◌, arith, ◌⊎◌, inl, inr, ◌↔◌,
  Contains, ℤ,
}
use eerie_leap_rt.Controllers.Display.{
  Screen, Display, construct, initialize, start_animation, stop_animation, print_line,
}
use eerie_leap_rt.Controllers.Display.Modes.{
  Call, initializes, stops, clears, starts, prints, adds, removes, step, run, IsValid, step-IsValid,
  run-construct-IsValid, add_status-IsUpdated, remove_status-IsUpdated, clear_statuses-IsUpdated,
}
use eerie_leap_rt.Controllers.Display.Statuses.{add_status_lem, remove_status_lem}

-- The set of the statuses after a call, as a predicate.
abbrev pub After : Call → (List ℕ → Type 0) → List ℕ → Type 0
After (adds s) P z = (z ≡ s) ⊎ P z
After (removes s) P z = (z ≢ s) × P z
After clears P z = ⊥
After initializes P z = P z
After stops P z = P z
After (starts index) P z = P z
After (prints text) P z = P z

abbrev pub AfterAll : List Call → (List ℕ → Type 0) → List ℕ → Type 0
AfterAll [] P = P
AfterAll (c ∷ cs) P = AfterAll cs (After c P)

-- An initialized controller in its invariant, whose statuses are a set.
record Shows (P : List ℕ → Type 0) (d : Display) : Type 0 where
  valid : IsValid d
  on : d.is_initialized ≡ true
  statuses_lem : (z : List ℕ) → Contains z d.statuses ↔ P z

right : {A P Q : Type 0} → (P → Q) → A ⊎ P → A ⊎ Q
right g (inl a) = inl a
right g (inr p) = inr (g p)

-- Neither the statuses nor the initialization change.
abbrev IsSame : Display → Display → Type 0
IsSame d e = (e.is_initialized ≡ d.is_initialized) × (e.statuses ≡ d.statuses)

initialize-IsSame : (d : Display) → d.is_initialized ≡ true → IsSame d (initialize d)
unfolding initialize
initialize-IsSame d h = ground arith

stop_animation-IsSame : (d : Display) → IsSame d (stop_animation d)
unfolding stop_animation
stop_animation-IsSame d = ground arith

start_animation-IsSame : (index : ℤ) (d : Display) → IsSame d (start_animation index d)
unfolding start_animation
start_animation-IsSame index d = ground arith

print_line-IsSame : (text : List ℕ) (d : Display) → IsSame d (print_line text d)
unfolding print_line
print_line-IsSame text d = ground arith

-- The calls that leave the statuses alone.
Shows-same :
    (P : List ℕ → Type 0) (d : Display) (c : Call)
    → Shows P d
    → IsSame d (step d c)
    → Shows P (step d c)
Shows-same P d c s (i, e) = record {
  valid = step-IsValid d c s.valid;
  on = i ∙ s.on;
  statuses_lem = λ z. subst (λ l. Contains z l ↔ P z) (sym e) (s.statuses_lem z);
}

step-Shows :
    (P : List ℕ → Type 0) (d : Display) (c : Call) → Shows P d → Shows (After c P) (step d c)
unfolding step
step-Shows P d initializes s = Shows-same P d initializes s (initialize-IsSame d s.on)
step-Shows P d stops s = Shows-same P d stops s (stop_animation-IsSame d)
step-Shows P d (starts index) s = Shows-same P d (starts index) s (start_animation-IsSame index d)
step-Shows P d (prints text) s = Shows-same P d (prints text) s (print_line-IsSame text d)
step-Shows P d clears s =
    let u = clear_statuses-IsUpdated d s.valid s.on in
    record {
      valid = u.valid;
      on = u.same_initialized ∙ s.on;
      statuses_lem = λ z. (subst (Contains z) u.same_statuses, absurd);
    }
step-Shows P d (adds t) s =
    let u = add_status-IsUpdated t d s.valid s.on in
    let (into, back, _) = add_status_lem t d s.valid s.on in
    record {
      valid = u.valid;
      on = u.same_initialized ∙ s.on;
      statuses_lem = λ z.
          (λ c. right (s.statuses_lem z).0 (back z c), λ h. into z (right (s.statuses_lem z).1 h));
    }
step-Shows P d (removes t) s =
    let u = remove_status-IsUpdated t d s.valid s.on in
    let (into, back, _, _) = remove_status_lem t d s.valid s.on in
    record {
      valid = u.valid;
      on = u.same_initialized ∙ s.on;
      statuses_lem = λ z. (
        λ c. ((back z c).0, (s.statuses_lem z).0 (back z c).1),
        λ (n, p). into z n ((s.statuses_lem z).1 p),
      );
    }

run-Shows :
    (P : List ℕ → Type 0) (d : Display) (cs : List Call)
    → Shows P d
    → Shows (AfterAll cs P) (run d cs)
unfolding run
run-Shows P d [] s = s
run-Shows P d (c ∷ cs) s = run-Shows (After c P) (step d c) cs (step-Shows P d c s)

-- The controller implements a set of statuses. On a screen, once Initialize has been called, and
-- after any calls behind it, a status is stored exactly if it is in the set that starts empty, gains
-- a status with AddStatus, loses it with RemoveStatus, loses all with ClearStatuses, and stays as it
-- is with every other call.
pub run_refines :
    (screen : Screen) (cs : List Call) (z : List ℕ)
    → Contains z (run (construct (some screen)) (initializes ∷ cs)).statuses
      ↔ AfterAll cs (λ s. ⊥) z
unfolding run construct
run_refines screen cs =
    (run-Shows (λ s. ⊥) (step (construct (some screen)) initializes) cs
      (record {
        valid = run-construct-IsValid (some screen) (initializes ∷ []);
        on = refl;
        statuses_lem = λ z. (λ h. h, λ h. h);
      })).statuses_lem
