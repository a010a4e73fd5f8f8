-- ===== src/Errors.antt =====
-- crates/mmdb-core/src/error.rs: the errors of the library, with their payload as text, and `Result`.
use mmdb.Common.{String, Option, none, some, ◌≡◌, refl, ◌⊎◌, inl, inr}

pub data Error : Type 0 where
  storage codec : String → Error
  not_found : Error
  invalid_argument : String → Error
  io json : String → Error

pub data Result {ℓ} (A : Type ℓ) : Type ℓ where
  ok : A → Result A
  err : Error → Result A

infixl 5 ◌>>=◌
abbrev pub ◌>>=◌ {ℓ κ} : {A : Type ℓ} {B : Type κ} → Result A → (A → Result B) → Result B
ok a >>= f = f a
err e >>= f = err e

-- `Option::ok_or_else`.
abbrev pub ok_or {ℓ} : {A : Type ℓ} → Option A → Error → Result A
ok_or none e = err e
ok_or (some a) e = ok a

-- A chain that ends well took every step of it.
pub bind-ok {ℓ κ} :
    {A : Type ℓ} {B : Type κ} (r : Result A) (f : A → Result B) (b : B)
    → r >>= f ≡ ok b
    → (a : A) × (r ≡ ok a) × (f a ≡ ok b)
bind-ok (ok a) f b e = (a, refl, e)
bind-ok (err x) f b e = cc

pub Result-cases {ℓ} :
    {A : Type ℓ} (answer : Result A)
    → ((value : A) × (answer ≡ ok value)) ⊎ ((error : Error) × (answer ≡ err error))
Result-cases (err e) = inr (e, refl)
Result-cases (ok a) = inl (a, refl)
