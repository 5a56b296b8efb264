-- ===== src/Prelude/Runs.antt =====
-- Runs of C code: a value, or undefined behaviour (a null or uninitialised pointer is read, or an
-- access is out of bounds).
use mathlib.Core.Path.{◌≡◌, refl}
use mathlib.Core.Bool.{Bool, true, false}
use mathlib.Core.Option.{Option, none, some}
use libdiscord.Prelude.Tests.{if◌then◌else◌}

pub data Exec {ℓ} (A : Type ℓ) : Type ℓ where
  fault : Exec A
  done : A → Exec A

infixl 5 ◌>>=◌ ◌>>◌
abbrev pub ◌>>=◌ {ℓ κ} : {A : Type ℓ} {B : Type κ} → Exec A → (A → Exec B) → Exec B
fault >>= f = fault
done a >>= f = f a

abbrev pub ◌>>◌ {ℓ} : {B : Type ℓ} → Exec (Unit {0}) → Exec B → Exec B
m >> k = m >>= λ _. k

-- A read through a pointer.
abbrev pub deref {ℓ} : {A : Type ℓ} → Option A → Exec A
deref none = fault
deref (some a) = done a

-- An access that is defined only under a condition on its bounds.
abbrev pub within : Bool → Exec (Unit {0})
within true = done tt
within false = fault

-- Inversion of a bind that returns.
pub >>=-eq-done {ℓ κ} :
    {A : Type ℓ} {B : Type κ} (m : Exec A) (f : A → Exec B) {b : B}
    → (m >>= f) ≡ done b
    → (a : A) × (m ≡ done a) × (f a ≡ done b)
>>=-eq-done (done a) f h = (a, refl, h)
>>=-eq-done fault f h = cc

-- Whatever a run returns has a property; nothing is said of a run that faults.
abbrev pub Ensures {ℓ κ} : {A : Type ℓ} → (A → Type κ) → Exec A → Type κ
Ensures P fault = Unit
Ensures P (done a) = P a

pub Ensures->>= {ℓ ℓ' κ κ'} :
    {A : Type ℓ} {B : Type ℓ'} (P : A → Type κ) (Q : B → Type κ') (m : Exec A) (f : A → Exec B)
    → Ensures P m
    → ((a : A) → P a → Ensures Q (f a))
    → Ensures Q (m >>= f)
Ensures->>= P Q fault f h k = tt
Ensures->>= P Q (done a) f h k = k a h

pub Ensures-deref {ℓ ℓ' κ} :
    {A : Type ℓ} {B : Type ℓ'} (Q : B → Type κ) (o : Option A) (f : A → Exec B)
    → ((a : A) → o ≡ some a → Ensures Q (f a))
    → Ensures Q (deref o >>= f)
Ensures-deref Q none f h = tt
Ensures-deref Q (some a) f h = h a refl

pub Ensures-if {ℓ κ} :
    {A : Type ℓ} (P : A → Type κ) (b : Bool) (m n : Exec A)
    → Ensures P m
    → Ensures P n
    → Ensures P (if b then m else n)
Ensures-if P true m n h k = h
Ensures-if P false m n h k = k

-- What a run that is known to return ensures.
pub Ensures-done {ℓ κ} :
    {A : Type ℓ} (P : A → Type κ) (m : Exec A) {a : A} → Ensures P m → m ≡ done a → P a
Ensures-done P m h e = rw e at h

pub Ensures->>=-any {ℓ ℓ' κ} :
    {A : Type ℓ} {B : Type ℓ'} (Q : B → Type κ) (m : Exec A) (f : A → Exec B)
    → ((a : A) → Ensures Q (f a))
    → Ensures Q (m >>= f)
Ensures->>=-any Q fault f k = tt
Ensures->>=-any Q (done a) f k = k a

pub Ensures-option {ℓ ℓ' κ} :
    {A : Type ℓ} {B : Type ℓ'} (Q : B → Type κ) (o : Option A) (m : Exec B) (f : A → Exec B)
    → Ensures Q m
    → ((a : A) → Ensures Q (f a))
    → Ensures Q (elim o as (λ _. Exec B) [ none ↦ m | some a ↦ f a ])
Ensures-option Q none m f h k = h
Ensures-option Q (some a) m f h k = k a

pub Ensures-map {ℓ κ κ'} :
    {A : Type ℓ} (P : A → Type κ) (Q : A → Type κ') (m : Exec A)
    → Ensures P m
    → ((a : A) → P a → Ensures Q (done a))
    → Ensures Q m
Ensures-map P Q fault h k = tt
Ensures-map P Q (done a) h k = k a h
