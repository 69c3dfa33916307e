-- ===== src/Controllers/Display/Statuses.antt =====
-- What the status methods do to the set of statuses and to the mode of the screen.
use eerie_leap_rt.Common.{
  ◌≡◌, ◌≢◌, sym, ◌∙◌, ap, subst, true, false, some, ℕ, List, [], ◌∷◌, ◌++◌, arith, ◌⊎◌, insert,
  erase, Contains, Contains-insert, Contains-erase, Contains-of_erase, not-Contains-erase,
  erase-insert,
}
use eerie_leap_rt.Common.Texts.{text_ltb, text_ltb-IsStrictOrder}
use eerie_leap_rt.Controllers.Display.{
  Animation, Display, Command, animation_of, destroy, initialize_animation, set_animation_handler,
  start_cfb, add_status, remove_status, clear_statuses,
}
use eerie_leap_rt.Controllers.Display.Modes.{
  IsValid, IsUpdated, add_status-IsUpdated, remove_status-IsUpdated,
}

module _ (s : List ℕ) (d : Display) (v : IsValid d) (on : d.is_initialized ≡ true) where
  added : IsUpdated (record d { statuses = insert text_ltb s d.statuses }) (add_status s d)
  added = add_status-IsUpdated s d v on

  removed : IsUpdated (record d { statuses = erase text_ltb s d.statuses }) (remove_status s d)
  removed = remove_status-IsUpdated s d v on

  insert-ne-nil : insert text_ltb s d.statuses ≢ []
  unfolding insert
  insert-ne-nil e = go d.statuses e
    where
      go : (l : List (List ℕ)) → insert text_ltb s l ≡ [] → ⊥
      go [] h = cc
      go (x ∷ l) h = ground arith

  -- On an initialized controller `AddStatus` adds the one status, keeps the others, and leaves the
  -- screen to the statuses, with no animation.
  pub add_status_lem :
      ((z : List ℕ) → (z ≡ s) ⊎ Contains z d.statuses → Contains z (add_status s d).statuses)
      × ((z : List ℕ) → Contains z (add_status s d).statuses → (z ≡ s) ⊎ Contains z d.statuses)
      × ((add_status s d).is_animation_in_progress ≡ false)
  add_status_lem = (
    λ z h.
        subst (Contains z) (sym added.same_statuses)
          ((Contains-insert text_ltb text_ltb-IsStrictOrder z s d.statuses).0 h),
    λ z h.
        (Contains-insert text_ltb text_ltb-IsStrictOrder z s d.statuses).1
          (subst (Contains z) added.same_statuses h),
    added.status_mode insert-ne-nil,
  )

  -- `RemoveStatus` removes the one status and keeps the others; the animation runs afterwards
  -- exactly if none is left.
  pub remove_status_lem :
      ((z : List ℕ) → z ≢ s → Contains z d.statuses → Contains z (remove_status s d).statuses)
      × ((z : List ℕ) → Contains z (remove_status s d).statuses → (z ≢ s) × Contains z d.statuses)
      × ((remove_status s d).statuses ≡ [] → (remove_status s d).is_animation_in_progress ≡ true)
      × ((remove_status s d).statuses ≢ [] → (remove_status s d).is_animation_in_progress ≡ false)
  remove_status_lem = (
    λ z n h.
        subst (Contains z) (sym removed.same_statuses)
          (Contains-erase text_ltb text_ltb-IsStrictOrder z s d.statuses n h),
    λ z h.
        let c = subst (Contains z) removed.same_statuses h in
        (
          λ e.
              not-Contains-erase text_ltb text_ltb-IsStrictOrder s d.statuses v.ordered
                (subst (λ y. Contains y (erase text_ltb s d.statuses)) e c),
          Contains-of_erase text_ltb z s d.statuses c,
        ),
    λ e. removed.idle_mode (sym removed.same_statuses ∙ e),
    λ n. removed.status_mode (λ e. n (removed.same_statuses ∙ e)),
  )

  added_on : (add_status s d).is_initialized ≡ true
  added_on = added.same_initialized ∙ on

-- A status that was not shown is taken back without a trace in the set.
pub remove_status-add_status :
    (s : List ℕ) (d : Display)
    → IsValid d
    → d.is_initialized ≡ true
    → ¬ Contains s d.statuses
    → (remove_status s (add_status s d)).statuses ≡ d.statuses
remove_status-add_status s d v on n =
    let a = add_status-IsUpdated s d v on in
    let r = remove_status-IsUpdated s (add_status s d) a.valid (a.same_initialized ∙ on) in
    r.same_statuses
    ∙ ap (erase text_ltb s) a.same_statuses
    ∙ erase-insert text_ltb text_ltb-IsStrictOrder s d.statuses v.ordered n

-- The calls of `StartAnimation` for an animation `a` that replaces `old`.
abbrev pub replaces : Animation → Animation → List Command
replaces old a = destroy old ∷ initialize_animation a ∷ set_animation_handler 30 ∷ start_cfb ∷ []

-- In a valid controller with an animation in progress, `ClearStatuses` destroys its object and starts another one with no
-- `StopAnimation` of the screen in between.
pub clear_statuses_running :
    (d : Display) (old : Animation)
    → IsValid d
    → d.is_animation_in_progress ≡ true
    → d.animation ≡ some old
    → (a : Animation) × (animation_of d.current_animation_index ≡ some a)
      × ((clear_statuses d).trace ≡ d.trace ++ replaces old a)
unfolding clear_statuses
clear_statuses_running d old v p q = ground arith
