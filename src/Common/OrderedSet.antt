-- ===== src/Common/OrderedSet.antt =====
-- `std::set` over a strict order, as its elements in order.
use mathlib.Core.Path.{◌≡◌, ap}
use mathlib.Core.Logic.{◌≢◌, ◌⊎◌, inl, inr}
use mathlib.Core.Bool.{Bool, true, false}
use mathlib.Core.List.{List, [], ◌∷◌}
use native.Mathlib.Omega.{arith}
use eerie_leap_rt.Common.Tests.{if◌then◌else◌, Bool-cases}
use eerie_leap_rt.Common.Lists.{All}

pub record IsStrictOrder {K : Type 0} (lt : K → K → Bool) : Type 0 where
  pub irrefl : (a : K) → lt a a ≡ false
  pub trans : (a b c : K) → lt a b ≡ true → lt b c ≡ true → lt a c ≡ true
  pub total : (a b : K) → lt a b ≡ false → lt b a ≡ false → a ≡ b

abbrev pub Contains : {K : Type 0} → K → List K → Type 0
Contains x [] = ⊥
Contains x (y ∷ ys) = (x ≡ y) ⊎ Contains x ys

module _ {K : Type 0} (lt : K → K → Bool) where
  -- `insert` keeps an element that is there; `erase` removes the one that is equivalent.
  unfoldable pub insert : K → List K → List K
  insert x [] = x ∷ []
  insert x (y ∷ ys) = if lt x y then x ∷ y ∷ ys else if lt y x then y ∷ insert x ys else y ∷ ys

  unfoldable pub erase : K → List K → List K
  erase x [] = []
  erase x (y ∷ ys) = if lt x y then y ∷ ys else if lt y x then y ∷ erase x ys else ys

  -- Every element stands below those behind it.
  abbrev pub IsSorted : List K → Type 0
  IsSorted [] = Unit
  IsSorted (x ∷ xs) = All (λ y. lt x y ≡ true) xs × IsSorted xs

  All-insert : (P : K → Type 0) (x : K) (l : List K) → P x → All P l → All P (insert x l)
  unfolding insert
  All-insert P x [] p a = (p, tt)
  All-insert P x (y ∷ ys) p a = ground (arith, All-insert P x ys p a.1)

  All-erase : (P : K → Type 0) (x : K) (l : List K) → All P l → All P (erase x l)
  unfolding erase
  All-erase P x [] a = tt
  All-erase P x (y ∷ ys) a = ground (arith, All-erase P x ys a.1)

  All-lt_trans :
      (law : IsStrictOrder lt) (x y : K) (l : List K)
      → lt x y ≡ true
      → All (λ z. lt y z ≡ true) l
      → All (λ z. lt x z ≡ true) l
  All-lt_trans law x y [] h a = tt
  All-lt_trans law x y (z ∷ l) h a = (law.trans x y z h a.0, All-lt_trans law x y l h a.1)

  pub insert-IsSorted :
      (law : IsStrictOrder lt) (x : K) (l : List K) → IsSorted l → IsSorted (insert x l)
  unfolding insert
  insert-IsSorted law x [] s = (tt, tt)
  insert-IsSorted law x (y ∷ ys) s = elim (Bool-cases (lt x y)) [
    | inl h ↦ rw (h, insert) ((h, All-lt_trans law x y ys h s.0), s)
    | inr n ↦ elim (Bool-cases (lt y x)) [
      | inl h ↦
          rw (n, insert)
            (rw h (All-insert (λ z. lt y z ≡ true) x ys h s.0, insert-IsSorted law x ys s.1))
      | inr m ↦ rw (n, insert) (rw m s)
    ]
  ]

  pub erase-IsSorted : (x : K) (l : List K) → IsSorted l → IsSorted (erase x l)
  unfolding erase
  erase-IsSorted x [] s = tt
  erase-IsSorted x (y ∷ ys) s =
      ground (arith, All-erase (λ z. lt y z ≡ true) x ys s.0, erase-IsSorted x ys s.1)

  pub Contains-insert :
      (law : IsStrictOrder lt) (z x : K) (l : List K)
      → ((z ≡ x) ⊎ Contains z l → Contains z (insert x l))
        × (Contains z (insert x l) → (z ≡ x) ⊎ Contains z l)
  unfolding insert
  Contains-insert law z x [] = ground arith
  Contains-insert law z x (y ∷ ys) = ground (arith, law.total x y, Contains-insert law z x ys)

  not-Contains-below :
      (law : IsStrictOrder lt) (x : K) (l : List K) → All (λ z. lt x z ≡ true) l → ¬ Contains x l
  not-Contains-below law x [] a c = c
  not-Contains-below law x (y ∷ ys) a (inl e) =
      let r : lt x x ≡ true = rw (ap (lt x) e) a.0 in cc (law.irrefl x)
  not-Contains-below law x (y ∷ ys) a (inr c) = not-Contains-below law x ys a.1 c

  pub Contains-of_erase : (z x : K) (l : List K) → Contains z (erase x l) → Contains z l
  unfolding erase
  Contains-of_erase z x [] c = c
  Contains-of_erase z x (y ∷ ys) c = ground (arith, Contains-of_erase z x ys)

  pub Contains-erase :
      (law : IsStrictOrder lt) (z x : K) (l : List K)
      → z ≢ x
      → Contains z l
      → Contains z (erase x l)
  unfolding erase
  Contains-erase law z x [] n c = c
  Contains-erase law z x (y ∷ ys) n c = ground (arith, law.total x y, Contains-erase law z x ys n)

  not-Contains-cons :
      (law : IsStrictOrder lt) (x y : K) (ys : List K)
      → lt y x ≡ true
      → ¬ Contains x ys
      → ¬ Contains x (y ∷ ys)
  not-Contains-cons law x y ys h n (inl e) = ground (arith, law.irrefl x)
  not-Contains-cons law x y ys h n (inr c) = n c

  pub not-Contains-erase :
      (law : IsStrictOrder lt) (x : K) (l : List K) → IsSorted l → ¬ Contains x (erase x l)
  unfolding erase
  not-Contains-erase law x [] s = λ c. c
  not-Contains-erase law x (y ∷ ys) s = elim (Bool-cases (lt x y)) [
    | inl h ↦ rw (h, erase) (not-Contains-below law x (y ∷ ys) (h, All-lt_trans law x y ys h s.0))
    | inr n ↦ elim (Bool-cases (lt y x)) [
      | inl h ↦
          rw (n, erase)
            (rw h (not-Contains-cons law x y (erase x ys) h (not-Contains-erase law x ys s.1)))
      | inr m ↦
          let e = law.total x y n m in rw (n, erase) (rw m (not-Contains-below law x ys (rw e s.0)))
    ]
  ]

  -- An element that was not there is removed again.
  pub erase-insert :
      (law : IsStrictOrder lt) (x : K) (l : List K)
      → IsSorted l
      → ¬ Contains x l
      → erase x (insert x l) ≡ l
  unfolding insert erase
  erase-insert law x [] s n = ground (arith, law.irrefl x)
  erase-insert law x (y ∷ ys) s n =
      ground (arith, law.irrefl x, law.total x y, erase-insert law x ys s.1)
