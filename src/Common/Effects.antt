-- ===== src/Common/Effects.antt =====
-- How a C++ call ends: with a value, with a `std::exception` and the bytes of its `what()`, or in
-- undefined behaviour, such as a read through a null pointer. A computation changes a state and
-- keeps the changes that it made before an exception.
use Prim.Native.Nat.{ℕ}
use mathlib.Core.Path.{◌≡◌, refl}
use mathlib.Core.Bool.{Bool, true, false}
use mathlib.Core.List.{List}
use mathlib.Core.Option.{Option, none, some}

pub data Outcome {ℓ} (A : Type ℓ) : Type ℓ where
  returns : A → Outcome A
  throws : List ℕ → Outcome A
  faults : Outcome A

abbrev pub Eff {ℓ κ} : Type ℓ → Type κ → Type (ℓ ⊔ κ)
Eff S A = S → Outcome A × S

abbrev pub pure {ℓ κ} : {S : Type ℓ} {A : Type κ} → A → Eff S A
pure a s = (returns a, s)

abbrev pub throw {ℓ κ} : {S : Type ℓ} {A : Type κ} → List ℕ → Eff S A
throw e s = (throws e, s)

abbrev pub fault {ℓ κ} : {S : Type ℓ} {A : Type κ} → Eff S A
fault s = (faults, s)

-- What follows a call that has ended.
abbrev pub and_then {ℓ κ μ} :
    {S : Type ℓ} {A : Type κ} {B : Type μ} → Outcome A × S → (A → Eff S B) → Outcome B × S
and_then (returns a, s) f = f a s
and_then (throws e, s) f = (throws e, s)
and_then (faults, s) f = (faults, s)

infixl 5 ◌>>=◌ ◌>>◌
abbrev pub ◌>>=◌ {ℓ κ μ} :
    {S : Type ℓ} {A : Type κ} {B : Type μ} → Eff S A → (A → Eff S B) → Eff S B
◌>>=◌ m f s = and_then (m s) f

abbrev pub ◌>>◌ {ℓ κ} : {S : Type ℓ} {B : Type κ} → Eff S (Unit {0}) → Eff S B → Eff S B
m >> k = m >>= λ _. k

-- `*p` and `p->`.
abbrev pub deref {ℓ κ} : {S : Type ℓ} {A : Type κ} → Option A → Eff S A
deref none = fault
deref (some a) = pure a

-- A `catch(const std::exception& e)` around a call that has ended.
abbrev pub catching {ℓ κ} :
    {S : Type ℓ} {A : Type κ} → Outcome A × S → (List ℕ → Eff S A) → Outcome A × S
catching (returns a, s) handler = (returns a, s)
catching (throws e, s) handler = handler e s
catching (faults, s) handler = (faults, s)

-- The body ran to its end or was left by an exception.
abbrev pub Ends {ℓ} : {A : Type ℓ} → Outcome A → Type 0
Ends (returns a) = Unit
Ends (throws e) = Unit
Ends faults = ⊥

-- A computation that returned: its first part returned, and the rest went on from there.
pub and_then-eq-returns {ℓ κ μ} :
    {S : Type ℓ} {A : Type κ} {B : Type μ} (r : Outcome A × S) (f : A → Eff S B) (b : B) (s' : S)
    → and_then r f ≡ (returns b, s')
    → (a : A) × (s : S) × (r ≡ (returns a, s)) × (f a s ≡ (returns b, s'))
and_then-eq-returns (returns a, s) f b s' h = (a, s, refl, h)
and_then-eq-returns (throws e, s) f b s' h = cc
and_then-eq-returns (faults, s) f b s' h = cc

-- The same where the first part reads a pointer: it was not null.
pub deref-eq-returns {ℓ κ μ} :
    {S : Type ℓ} {A : Type κ} {B : Type μ} (p : Option A) (f : A → Eff S B) (b : B) (s s' : S)
    → and_then (deref p s) f ≡ (returns b, s')
    → (a : A) × (p ≡ some a) × (f a s ≡ (returns b, s'))
deref-eq-returns none f b s s' h = cc
deref-eq-returns (some a) f b s s' h = (a, refl, h)

-- `if(!b) throw e;`
abbrev pub require {ℓ} : {S : Type ℓ} → Bool → List ℕ → Eff S (Unit {0})
require true e = pure tt
require false e = throw e

pub require-eq-returns {ℓ κ} :
    {S : Type ℓ} {B : Type κ} (c : Bool) (e : List ℕ) (k : Eff S B) (b : B) (s s' : S)
    → (require c e >> k) s ≡ (returns b, s')
    → (c ≡ true) × (k s ≡ (returns b, s'))
require-eq-returns true e k b s s' h = (refl, h)
require-eq-returns false e k b s s' h = cc

-- A computation ends if its first part does, and the rest does from wherever that leads.
pub and_then-Ends {ℓ κ μ} :
    {S : Type ℓ} {A : Type κ} {B : Type μ} (r : Outcome A × S) (f : A → Eff S B)
    → Ends r.0
    → ((a : A) → r.0 ≡ returns a → (s : S) → Ends (f a s).0)
    → Ends (and_then r f).0
and_then-Ends (returns a, s) f h k = k a refl s
and_then-Ends (throws e, s) f h k = tt
and_then-Ends (faults, s) f h k = h
