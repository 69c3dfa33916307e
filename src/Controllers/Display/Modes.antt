-- ===== src/Controllers/Display/Modes.antt =====
-- The controller's two modes, an animation and the statuses, over any sequence of calls.
use eerie_leap_rt.Common.{
  ℕ, ◌≡◌, ◌≢◌, refl, Bool, true, false, Option, none, some, List, [], ◌∷◌, arith, ℤ, if◌then◌else◌,
  Bool-cases, inl, inr, ◌∙◌, insert, erase, IsSorted, insert-IsSorted, erase-IsSorted, ap, subst,
  sym,
}
use eerie_leap_rt.Common.Texts.{text_ltb, text_ltb-IsStrictOrder}
use eerie_leap_rt.Controllers.Display.{
  Screen, Display, construct, animation_of, start_animation, stop_animation, initialize, print_line,
  update_statuses, add_status, remove_status, clear_statuses,
}

pub data Call : Type 0 where
  initializes stops clears : Call
  starts : ℤ → Call
  prints adds removes : List ℕ → Call

unfoldable pub step : Display → Call → Display
unfolding initialize start_animation stop_animation print_line add_status remove_status
    clear_statuses
step d initializes = initialize d
step d stops = stop_animation d
step d clears = clear_statuses d
step d (starts index) = start_animation index d
step d (prints text) = print_line text d
step d (adds s) = add_status s d
step d (removes s) = remove_status s d

unfoldable pub run : Display → List Call → Display
unfolding step
run d [] = d
run d (c ∷ cs) = run (step d c) cs

abbrev is_some {ℓ} : {A : Type ℓ} → Option A → Bool
is_some none = false
is_some (some a) = true

-- There is an animation object exactly while one is in progress, and only on a screen; the index is
-- one that the `switch` knows; the statuses are in order, without duplicates.
pub record IsValid (d : Display) : Type 0 where
  pub shown : d.is_animation_in_progress ≡ is_some d.animation
  pub initialized : d.is_animation_in_progress ≡ true → d.is_initialized ≡ true
  pub has_screen : d.is_initialized ≡ true → is_some d.cfb ≡ true
  pub known_index : is_some (animation_of d.current_animation_index) ≡ true
  pub ordered : IsSorted text_ltb d.statuses

construct-IsValid : (cfb : Option Screen) → IsValid (construct cfb)
unfolding construct animation_of
construct-IsValid cfb = record {
  shown = refl;
  initialized = λ h. cc;
  has_screen = λ h. cc;
  known_index = refl;
  ordered = tt;
}

start_animation-IsValid : (i : ℤ) (d : Display) → IsValid d → IsValid (start_animation i d)
unfolding start_animation
start_animation-IsValid i d v = ground arith

stop_animation-IsValid : (d : Display) → IsValid d → IsValid (stop_animation d)
unfolding stop_animation
stop_animation-IsValid d v = ground arith

-- Stopped, an animation is not in progress.
pub stop_animation_running :
    (d : Display) → d.is_initialized ≡ true → (stop_animation d).is_animation_in_progress ≡ false
unfolding stop_animation
stop_animation_running d h = ground arith

initialize-IsValid : (d : Display) → IsValid d → IsValid (initialize d)
unfolding initialize
initialize-IsValid d v = ground arith

print_line-IsValid : (text : List ℕ) (d : Display) → IsValid d → IsValid (print_line text d)
unfolding print_line
print_line-IsValid text d v = ground arith

-- What `UpdateStatuses` leaves: an animation if there are no statuses, and none if there are.
pub record IsUpdated (d e : Display) : Type 0 where
  pub valid : IsValid e
  pub same_statuses : e.statuses ≡ d.statuses
  pub same_initialized : e.is_initialized ≡ d.is_initialized
  pub idle_mode : d.statuses ≡ [] → e.is_animation_in_progress ≡ true
  pub status_mode : d.statuses ≢ [] → e.is_animation_in_progress ≡ false

update_statuses-IsUpdated :
    (d : Display) → IsValid d → d.is_initialized ≡ true → IsUpdated d (update_statuses d)
unfolding update_statuses
update_statuses-IsUpdated d v h = ground arith

with_statuses-IsValid :
    (d : Display) (ss : List (List ℕ))
    → IsValid d
    → IsSorted text_ltb ss
    → IsValid (record d { statuses = ss })
with_statuses-IsValid d ss v o = ground arith

-- The guard of the status methods, passed.
when_initialized :
    (next d : Display)
    → d.is_initialized ≡ true
    → IsUpdated next (update_statuses next)
    → IsUpdated next (if d.is_initialized then update_statuses next else d)
when_initialized next d h u =
    subst (λ b. IsUpdated next (if b then update_statuses next else d)) (sym h) u

pub add_status-IsUpdated :
    (s : List ℕ) (d : Display)
    → IsValid d
    → d.is_initialized ≡ true
    → IsUpdated (record d { statuses = insert text_ltb s d.statuses }) (add_status s d)
unfolding add_status
add_status-IsUpdated s d v h =
    let next : Display = record d { statuses = insert text_ltb s d.statuses } in
    let ordered = insert-IsSorted text_ltb text_ltb-IsStrictOrder s d.statuses v.ordered in
    when_initialized next d h
      (update_statuses-IsUpdated next (with_statuses-IsValid d next.statuses v ordered) h)

pub remove_status-IsUpdated :
    (s : List ℕ) (d : Display)
    → IsValid d
    → d.is_initialized ≡ true
    → IsUpdated (record d { statuses = erase text_ltb s d.statuses }) (remove_status s d)
unfolding remove_status
remove_status-IsUpdated s d v h =
    let next : Display = record d { statuses = erase text_ltb s d.statuses } in
    let ordered = erase-IsSorted text_ltb s d.statuses v.ordered in
    when_initialized next d h
      (update_statuses-IsUpdated next (with_statuses-IsValid d next.statuses v ordered) h)

pub clear_statuses-IsUpdated :
    (d : Display)
    → IsValid d
    → d.is_initialized ≡ true
    → IsUpdated (record d { statuses = [] }) (clear_statuses d)
unfolding clear_statuses
clear_statuses-IsUpdated d v h =
    let next : Display = record d { statuses = [] } in
    when_initialized next d h (update_statuses-IsUpdated next (with_statuses-IsValid d [] v tt) h)

uninitialized_step :
    (d : Display) (c : Call) → d.is_initialized ≡ false → d.cfb ≡ none → step d c ≡ d
unfolding step
uninitialized_step d initializes h n = ground arith
uninitialized_step d stops h n = ground arith
uninitialized_step d clears h n = ground arith
uninitialized_step d (starts i) h n = ground arith
uninitialized_step d (prints t) h n = ground arith
uninitialized_step d (adds s) h n = ground arith
uninitialized_step d (removes s) h n = ground arith

-- A controller that was built without a screen never does anything, whatever is called.
pub run_without_screen : (cs : List Call) → run (construct none) cs ≡ construct none
unfolding run construct
run_without_screen [] = refl
run_without_screen (c ∷ cs) =
    ap (λ d. run d cs) (uninitialized_step (construct none) c refl refl) ∙ run_without_screen cs

-- A status method keeps the invariant whether or not its guard passes.
guarded-IsValid :
    (next d : Display)
    → IsValid d
    → (d.is_initialized ≡ true
        → IsUpdated next (if d.is_initialized then update_statuses next else d))
    → IsValid (if d.is_initialized then update_statuses next else d)
guarded-IsValid next d v u = elim (Bool-cases d.is_initialized) [
  | inl h ↦ (u h).valid
  | inr h ↦ subst (λ b. IsValid (if b then update_statuses next else d)) (sym h) v
]

-- Every call, with any argument, keeps the invariant.
pub step-IsValid : (d : Display) (c : Call) → IsValid d → IsValid (step d c)
unfolding step
step-IsValid d initializes v = initialize-IsValid d v
step-IsValid d stops v = stop_animation-IsValid d v
step-IsValid d clears v = guarded-IsValid _ d v (clear_statuses-IsUpdated d v)
step-IsValid d (starts i) v = start_animation-IsValid i d v
step-IsValid d (prints text) v = print_line-IsValid text d v
step-IsValid d (adds s) v = guarded-IsValid _ d v (add_status-IsUpdated s d v)
step-IsValid d (removes s) v = guarded-IsValid _ d v (remove_status-IsUpdated s d v)

run-IsValid : (d : Display) (cs : List Call) → IsValid d → IsValid (run d cs)
unfolding run
run-IsValid d [] v = v
run-IsValid d (c ∷ cs) v = run-IsValid (step d c) cs (step-IsValid d c v)

-- After any calls on a new controller, with a screen or without: the animation object exists exactly
-- while an animation is in progress, that is only so once initialized, an initialized controller has
-- a screen, the current index names an animation, and the statuses are in strictly ascending order.
pub run-construct-IsValid :
    (cfb : Option Screen) (cs : List Call) → IsValid (run (construct cfb) cs)
run-construct-IsValid cfb cs = run-IsValid (construct cfb) cs (construct-IsValid cfb)
