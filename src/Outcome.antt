-- ===== src/Outcome.antt =====
-- The outcome of a run of the program.
-- `fault` is a read through a null, dangling or indeterminate pointer, where the C program has no
-- defined behaviour. `out_of_fuel` has no counterpart in the program.
use cact.Prelude.{◌≡◌, refl}

pub data Outcome {ℓ} (A : Type ℓ) : Type ℓ where
  fault out_of_fuel : Outcome A
  ok : A → Outcome A

infixl 5 ◌>>=◌ ◌>>◌
abbrev pub ◌>>=◌ {ℓ κ} : {A : Type ℓ} {B : Type κ} → Outcome A → (A → Outcome B) → Outcome B
fault >>= next = fault
out_of_fuel >>= next = out_of_fuel
ok result >>= next = next result

abbrev pub ◌>>◌ {ℓ κ} : {A : Type ℓ} {B : Type κ} → Outcome A → Outcome B → Outcome B
first >> second = first >>= λ _. second

-- A property of the value, if there is one.
abbrev pub Ensures {ℓ κ} : {A : Type ℓ} → (A → Type κ) → Outcome A → Type κ
Ensures P (ok a) = P a
Ensures P fault = Unit
Ensures P out_of_fuel = Unit

pub Ensures-bind {ℓ κ λ' μ} :
    {A : Type ℓ} {B : Type κ} (P : A → Type λ') (Q : B → Type μ) (m : Outcome A) (k : A → Outcome B)
    → Ensures P m
    → ((a : A) → P a → Ensures Q (k a))
    → Ensures Q (m >>= k)
Ensures-bind P Q (ok a) k h hk = hk a h
Ensures-bind P Q fault k h hk = tt
Ensures-bind P Q out_of_fuel k h hk = tt

-- Where nothing has to be known of the values in between.
pub Ensures-all {ℓ κ μ} :
    {A : Type ℓ} {B : Type κ} (Q : B → Type μ) (m : Outcome A) (k : A → Outcome B)
    → ((a : A) → Ensures Q (k a))
    → Ensures Q (m >>= k)
Ensures-all Q (ok a) k h = h a
Ensures-all Q fault k h = tt
Ensures-all Q out_of_fuel k h = tt

-- The run comes to an end, with fuel left.
abbrev pub Halts {ℓ} : {A : Type ℓ} → Outcome A → Type 0
Halts (ok a) = Unit
Halts fault = Unit
Halts out_of_fuel = ⊥

pub Halts-bind {ℓ κ} :
    {A : Type ℓ} {B : Type κ} (m : Outcome A) (k : A → Outcome B)
    → Halts m
    → ((a : A) → m ≡ ok a → Halts (k a))
    → Halts (m >>= k)
Halts-bind (ok a) k h hk = hk a refl
Halts-bind fault k h hk = tt
Halts-bind out_of_fuel k h hk = absurd h

-- A fault that follows whatever the value is.
pub faults-after {ℓ κ} :
    {A : Type ℓ} {B : Type κ} (m : Outcome A) (k : A → Outcome B)
    → Halts m
    → ((a : A) → k a ≡ fault)
    → (m >>= k) ≡ fault
faults-after (ok a) k h hk = hk a
faults-after fault k h hk = refl
faults-after out_of_fuel k h hk = absurd h
