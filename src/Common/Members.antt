-- ===== src/Common/Members.antt =====
-- Membership by position, and what it says of writes, filters and Boolean quantifiers.
use Prim.Native.Nat.{ℕ, zero, suc, ◌<◌}
use mathlib.Core.Path.{◌≡◌, refl, ap, ◌∙◌, subst}
use mathlib.Core.Bool.{Bool, true}
use mathlib.Core.Logic.{◌≢◌, inl, inr}
use mathlib.Core.List.{List, [], ◌∷◌, ◌++◌, map}
use mathlib.Core.Option.{some}
use native.Mathlib.Omega.{arith}
use mmdb.Common.Tests.{Bool-cases}
use mmdb.Common.Lists.{length, get_elem?, set, filter, all}

module _ {ℓ} {A : Type ℓ} where
  -- `x` stands somewhere in the list.
  abbrev pub In : A → List A → Type ℓ
  In x xs = (t : ℕ) × (get_elem? xs t ≡ some x)

  pub get_elem?-set_self :
      (xs : List A) (i : ℕ) (v : A) → i < length xs → get_elem? (set xs i v) i ≡ some v
  get_elem?-set_self [] i v h = elim h [ ]
  get_elem?-set_self (x ∷ xs) zero v h = refl
  get_elem?-set_self (x ∷ xs) (suc i) v h = get_elem?-set_self xs i v (omega arith)

  pub get_elem?-set_ne :
      (xs : List A) (i j : ℕ) (v : A) → i ≢ j → get_elem? (set xs i v) j ≡ get_elem? xs j
  get_elem?-set_ne [] i j v h = refl
  get_elem?-set_ne (x ∷ xs) zero zero v h = absurd (h refl)
  get_elem?-set_ne (x ∷ xs) zero (suc j) v h = refl
  get_elem?-set_ne (x ∷ xs) (suc i) zero v h = refl
  get_elem?-set_ne (x ∷ xs) (suc i) (suc j) v h = get_elem?-set_ne xs i j v (λ e. h (ap suc e))

  pub length-set : (xs : List A) (i : ℕ) (v : A) → length (set xs i v) ≡ length xs
  length-set [] i v = refl
  length-set (x ∷ xs) zero v = refl
  length-set (x ∷ xs) (suc i) v = ap suc (length-set xs i v)

  pub get_elem?_lt : (xs : List A) (i : ℕ) (x : A) → get_elem? xs i ≡ some x → i < length xs
  get_elem?_lt [] i x h = cc
  get_elem?_lt (y ∷ xs) zero x h = omega arith
  get_elem?_lt (y ∷ xs) (suc i) x h = omega (arith, get_elem?_lt xs i x h)

  pub get_elem?-some : (xs : List A) (i : ℕ) → i < length xs → (x : A) × (get_elem? xs i ≡ some x)
  get_elem?-some [] i h = elim h [ ]
  get_elem?-some (x ∷ xs) zero h = (x, refl)
  get_elem?-some (x ∷ xs) (suc i) h = get_elem?-some xs i (omega arith)

  pub all-In : (p : A → Bool) (xs : List A) → all p xs ≡ true → (x : A) → In x xs → p x ≡ true
  all-In p [] h x (t, e) = cc
  all-In p (y ∷ xs) h x (zero, e) = ground arith
  all-In p (y ∷ xs) h x (suc t, e) = all-In p xs (ground arith) x (t, e)

  pub all-of_In : (p : A → Bool) (xs : List A) → ((x : A) → In x xs → p x ≡ true) → all p xs ≡ true
  all-of_In p [] h = refl
  all-of_In p (x ∷ xs) h =
      rw (h x (0, refl)) (all-of_In p xs (λ y (m : In y xs). h y (suc m.0, m.1)))

  -- Filters that agree on the members agree.
  pub filter_congr_In :
      (p q : A → Bool) (xs : List A) → ((x : A) → In x xs → p x ≡ q x) → filter p xs ≡ filter q xs
  filter_congr_In p q [] h = refl
  filter_congr_In p q (x ∷ xs) h =
      let rest = filter_congr_In p q xs (λ y (m : In y xs). h y (suc m.0, m.1)) in
      let here = h x (0, refl) in rw (here, rest) refl

  In-filter_kept :
      (p : A → Bool) (y : A) (xs : List A) (x : A)
      → (In x (filter p xs) → In x xs × (p x ≡ true))
      → p y ≡ true
      → In x (y ∷ filter p xs)
      → In x (y ∷ xs) × (p x ≡ true)
  In-filter_kept p y xs x ih holds (zero, e) = ((zero, e), ground arith)
  In-filter_kept p y xs x ih holds (suc t, e) = let (i, q) = ih (t, e) in ((suc i.0, i.1), q)

  pub In-filter : (p : A → Bool) (xs : List A) (x : A) → In x (filter p xs) → In x xs × (p x ≡ true)
  In-filter p [] x (t, e) = cc
  In-filter p (y ∷ xs) x m = elim (Bool-cases (p y)) [
    | inl holds ↦ In-filter_kept p y xs x (In-filter p xs x) holds (rw holds at m)
    | inr fails ↦ let (i, q) = In-filter p xs x (rw fails at m) in ((suc i.0, i.1), q)
  ]

  pub filter-In : (p : A → Bool) (xs : List A) (x : A) → In x xs → p x ≡ true → In x (filter p xs)
  filter-In p [] x (t, e) h = cc
  filter-In p (y ∷ xs) x (zero, e) h = let same : y ≡ x = cc in rw (ap p same ∙ h) (0, e)
  filter-In p (y ∷ xs) x (suc t, e) h =
      let (s, later) = filter-In p xs x (t, e) h in
      elim (Bool-cases (p y)) [
        | inl kept ↦ rw kept (suc s, later)
        | inr dropped ↦ rw dropped (s, later)
      ]

module _ {ℓ} {A : Type ℓ} where
  abbrev pub All {κ} : (A → Type κ) → List A → Type κ
  All P [] = Unit
  All P (x ∷ xs) = P x × All P xs

  pub All-of_In {κ} : (P : A → Type κ) (xs : List A) → ((x : A) → In x xs → P x) → All P xs
  All-of_In P [] h = tt
  All-of_In P (x ∷ xs) h = (h x (0, refl), All-of_In P xs (λ y (m : In y xs). h y (suc m.0, m.1)))

  pub All-append {κ} : (P : A → Type κ) (xs ys : List A) → All P xs → All P ys → All P (xs ++ ys)
  All-append P [] ys h k = k
  All-append P (x ∷ xs) ys h k = (h.0, All-append P xs ys h.1 k)

  pub All-In {κ} : (P : A → Type κ) (xs : List A) → All P xs → (x : A) → In x xs → P x
  All-In P [] h x (t, e) = cc
  All-In P (y ∷ xs) h x (zero, e) = let same : y ≡ x = cc in subst P same h.0
  All-In P (y ∷ xs) h x (suc t, e) = All-In P xs h.1 x (t, e)

pub All-map {ℓ κ μ} :
    {A : Type ℓ} {B : Type κ} (P : A → Type μ) (Q : B → Type μ) (f : A → B)
    → ((x : A) → P x → Q (f x))
    → (xs : List A) → All P xs
    → All Q (map f xs)
All-map P Q f keep [] h = tt
All-map P Q f keep (x ∷ xs) h = (keep x h.0, All-map P Q f keep xs h.1)
