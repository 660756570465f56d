-- ===== src/Common/Result.antt =====
-- The outcome of a piece of Go code: a value, or a run-time panic (a nil dereference, an index
-- out of range). `out_of_fuel` is no outcome of the code: a loop of the model ran out of rounds.
use mathlib.Core.Path.{◌≡◌, refl}

pub data Go {ℓ} (A : Type ℓ) : Type ℓ where
  ok : A → Go A
  panic : Go A
  out_of_fuel : Go A

infixl 5 ◌>>=◌ ◌>>◌
abbrev pub ◌>>=◌ {ℓ κ} : {A : Type ℓ} {B : Type κ} → Go A → (A → Go B) → Go B
ok a >>= f = f a
panic >>= f = panic
out_of_fuel >>= f = out_of_fuel

abbrev pub ◌>>◌ {ℓ} : {B : Type ℓ} → Go (Unit {0}) → Go B → Go B
m >> k = m >>= λ _. k

-- The type with no value, at every level.
pub data Never {κ} : Type κ where

-- The code ends without a panic, in a value with the property.
abbrev pub Returns {ℓ κ} : {A : Type ℓ} → Go A → (A → Type κ) → Type κ
Returns (ok a) P = P a
Returns panic P = Never
Returns out_of_fuel P = Never

-- The code panics, or ends in a value with the property.
abbrev pub Ensures {ℓ κ} : {A : Type ℓ} → Go A → (A → Type κ) → Type κ
Ensures (ok a) P = P a
Ensures panic P = Unit
Ensures out_of_fuel P = Unit

module _ {ℓ κ} {A : Type ℓ} where
  pub Returns-Ensures : (m : Go A) (P : A → Type κ) → Returns m P → Ensures m P
  Returns-Ensures (ok a) P h = h
  Returns-Ensures panic P h = tt
  Returns-Ensures out_of_fuel P h = tt

  pub Returns-cases : (m : Go A) (P : A → Type κ) → Returns m P → (a : A) × (m ≡ ok a) × P a
  Returns-cases (ok a) P r = (a, refl, r)
  Returns-cases panic P r = elim r [ ]
  Returns-cases out_of_fuel P r = elim r [ ]

-- A property that holds of every value.
pub always {ℓ κ} : {A : Type ℓ} (m : Go A) (P : A → Type κ) → ((a : A) → P a) → Ensures m P
always (ok a) P h = h a
always panic P h = tt
always out_of_fuel P h = tt

module _ {ℓ κ μ} {A : Type ℓ} {B : Type κ} where
  pub Ensures-bind {ν} :
      (m : Go A) (f : A → Go B) (P : A → Type μ) (Q : B → Type ν)
      → Ensures m P
      → ((a : A) → P a → Ensures (f a) Q)
      → Ensures (m >>= f) Q
  Ensures-bind (ok a) f P Q h step = step a h
  Ensures-bind panic f P Q h step = tt
  Ensures-bind out_of_fuel f P Q h step = tt

  pub Returns-bind {ν} :
      (m : Go A) (f : A → Go B) (P : A → Type μ) (Q : B → Type ν)
      → Returns m P
      → ((a : A) → P a → Returns (f a) Q)
      → Returns (m >>= f) Q
  Returns-bind (ok a) f P Q h step = step a h
  Returns-bind panic f P Q h step = elim h [ ]
  Returns-bind out_of_fuel f P Q h step = elim h [ ]

module _ {ℓ κ μ} {A : Type ℓ} where
  pub Returns-and :
      (m : Go A) (P : A → Type κ) (Q : A → Type μ)
      → Returns m P
      → Ensures m Q
      → Returns m (λ a. P a × Q a)
  Returns-and (ok a) P Q h k = (h, k)
  Returns-and panic P Q h k = elim h [ ]
  Returns-and out_of_fuel P Q h k = elim h [ ]

  pub Returns-imp :
      (m : Go A) (P : A → Type κ) (Q : A → Type μ)
      → ((a : A) → P a → Q a)
      → Returns m P
      → Returns m Q
  Returns-imp (ok a) P Q f h = f a h
  Returns-imp panic P Q f h = elim h [ ]
  Returns-imp out_of_fuel P Q f h = elim h [ ]

  pub Ensures-imp :
      (m : Go A) (P : A → Type κ) (Q : A → Type μ)
      → ((a : A) → P a → Q a)
      → Ensures m P
      → Ensures m Q
  Ensures-imp (ok a) P Q f h = f a h
  Ensures-imp panic P Q f h = tt
  Ensures-imp out_of_fuel P Q f h = tt

module _ {ℓ κ μ} {A : Type ℓ} where
  pub Ensures-and :
      (m : Go A) (P : A → Type κ) (Q : A → Type μ)
      → Ensures m P
      → Ensures m Q
      → Ensures m (λ a. P a × Q a)
  Ensures-and (ok a) P Q h k = (h, k)
  Ensures-and panic P Q h k = tt
  Ensures-and out_of_fuel P Q h k = tt

-- The code ends, with a value or with a panic.
abbrev pub Ends {ℓ} : {A : Type ℓ} → Go A → Type 0
Ends (ok a) = Unit
Ends panic = Unit
Ends out_of_fuel = ⊥

module _ {ℓ κ} {A : Type ℓ} {B : Type κ} where
  pub Ends-bind : (m : Go A) (f : A → Go B) → Ends m → ((a : A) → Ends (f a)) → Ends (m >>= f)
  Ends-bind (ok a) f h step = step a
  Ends-bind panic f h step = tt
  Ends-bind out_of_fuel f h step = elim h [ ]

  -- The same with what is known of the value.
  pub Ends-bind_Ensures {μ} :
      (m : Go A) (f : A → Go B) (P : A → Type μ)
      → Ends m
      → Ensures m P
      → ((a : A) → P a → Ends (f a))
      → Ends (m >>= f)
  Ends-bind_Ensures (ok a) f P h k step = step a k
  Ends-bind_Ensures panic f P h k step = tt
  Ends-bind_Ensures out_of_fuel f P h k step = elim h [ ]

module _ {ℓ κ} {A : Type ℓ} where
  pub Returns-Ends : (m : Go A) (P : A → Type κ) → Returns m P → Ends m
  Returns-Ends (ok a) P h = tt
  Returns-Ends panic P h = elim h [ ]
  Returns-Ends out_of_fuel P h = elim h [ ]
