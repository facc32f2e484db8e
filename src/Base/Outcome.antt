-- ===== src/Base/Outcome.antt =====
-- What a call of the program comes to: a value, or one of the ways in which it does not return.
use mathlib.Core.Path.{◌≡◌, refl}
use mathlib.Core.Bool.{Bool, true, false}
use mathlib.Core.Option.{Option, none, some}
use mathlib.Core.Logic.{◌⊎◌, inl, inr}

-- `wild_read` and `wild_write` are accesses through a raw pointer past the end of the buffer,
-- and `misaligned` a reference whose address does not fit its type; Rust leaves these undefined.
-- The others are panics. `out_of_fuel` is no behaviour of the code:
-- it marks a bounded loop that was cut short.
pub data Fault : Type 0 where
  assertion out_of_bounds overflow todo unwrap_none explicit_panic already_borrowed : Fault
  wild_read wild_write misaligned out_of_fuel : Fault

pub data Res {ℓ} (A : Type ℓ) : Type ℓ where
  ok : A → Res A
  fault : Fault → Res A

infixl 5 ◌>>=◌ ◌>>◌
abbrev pub ◌>>=◌ {ℓ κ} : {A : Type ℓ} {B : Type κ} → Res A → (A → Res B) → Res B
ok a >>= f = f a
fault e >>= f = fault e

abbrev pub ◌>>◌ {ℓ} : {B : Type ℓ} → Res (Unit {0}) → Res B → Res B
m >> k = m >>= λ _. k

-- `assert!` and the other checks that stop the program.
abbrev pub check : Fault → Bool → Res (Unit {0})
check e true = ok tt
check e false = fault e

-- A slice or `Option` access that panics when nothing is there.
abbrev pub expect {ℓ} : {A : Type ℓ} → Fault → Option A → Res A
expect e none = fault e
expect e (some a) = ok a

pub Res-cases {ℓ} :
    {A : Type ℓ} (r : Res A) → ((a : A) × (r ≡ ok a)) ⊎ ((e : Fault) × (r ≡ fault e))
Res-cases (ok a) = inl (a, refl)
Res-cases (fault e) = inr (e, refl)

-- Where a sequence returned, its first part did.
pub bind-eq-ok {ℓ κ} :
    {A : Type ℓ} {B : Type κ} {result : B} (rest : A → Res B) (part : Res A)
    → (part >>= rest) ≡ ok result
    → (value : A) × (part ≡ ok value) × (rest value ≡ ok result)
bind-eq-ok rest (fault e) run = cc
bind-eq-ok rest (ok value) run = (value, refl, run)
