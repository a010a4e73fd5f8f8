-- ===== src/Common/Sorted.antt =====
-- Sorting by a comparison that agrees with a transitive relation puts a list in that order, and only
-- changes the places.
use Prim.Native.Nat.{Ordering, suc}
use mathlib.Core.List.{Perm, List, [], ◌∷◌}
use mathlib.Core.List.Perm as Permutation
use mathlib.Core.Logic.{inl, inr}
use mathlib.Core.Path.{◌≡◌, refl, ap, ◌∙◌}
use native.Mathlib.Omega.{arith}
use mmdb.Common.Lists.{length}
use mathlib.Core.Bool.{true, false}
use mmdb.Common.Tests.{is_gt, Bool-cases}
use mmdb.Common.Members.{All}
use mmdb.Common.Sort.{sort_by, insert_sorted}

-- Each element stands in the relation to all after it.
abbrev pub Sorted {ℓ κ} : {A : Type ℓ} → (A → A → Type κ) → List A → Type κ
Sorted R [] = Unit
Sorted R (x ∷ xs) = All (R x) xs × Sorted R xs

pub All-imp {ℓ κ μ} :
    {A : Type ℓ} (P : A → Type κ) (Q : A → Type μ)
    → ((x : A) → P x → Q x)
    → (xs : List A) → All P xs
    → All Q xs
All-imp P Q f [] h = tt
All-imp P Q f (x ∷ xs) h = (f x h.0, All-imp P Q f xs h.1)

module _ {ℓ} {A : Type ℓ} (cmp : A → A → Ordering) where
  Perm-insert : (x : A) (xs : List A) → Perm (insert_sorted cmp x xs) (x ∷ xs)
  Perm-insert x [] = Permutation.rfl
  Perm-insert x (y ∷ ys) = elim (Bool-cases (is_gt (cmp x y))) [
    | inl gt ↦
        rw gt (Permutation.trans (Permutation.cons y (Perm-insert x ys)) (Permutation.swap x y ys))
    | inr le ↦ rw le Permutation.rfl
  ]

  length-insert : (x : A) (xs : List A) → length (insert_sorted cmp x xs) ≡ suc (length xs)
  length-insert x [] = refl
  length-insert x (y ∷ ys) = ground (arith, length-insert x ys)

  pub length-sort_by : (xs : List A) → length (sort_by cmp xs) ≡ length xs
  unfolding sort_by
  length-sort_by [] = refl
  length-sort_by (x ∷ xs) = length-insert x (sort_by cmp xs) ∙ ap suc (length-sort_by xs)

  pub Perm-sort_by : (xs : List A) → Perm (sort_by cmp xs) xs
  unfolding sort_by
  Perm-sort_by [] = Permutation.rfl
  Perm-sort_by (x ∷ xs) =
      Permutation.trans (Perm-insert x (sort_by cmp xs)) (Permutation.cons x (Perm-sort_by xs))

module _ {ℓ κ} {A : Type ℓ} (cmp : A → A → Ordering) (R : A → A → Type κ)
    (R_trans : (x y z : A) → R x y → R y z → R x z)
    (before : (x y : A) → is_gt (cmp x y) ≡ false → R x y)
    (after : (x y : A) → is_gt (cmp x y) ≡ true → R y x) where
  All-insert :
      (P : A → Type κ) (x : A) (xs : List A) → P x → All P xs → All P (insert_sorted cmp x xs)
  All-insert P x [] h k = (h, tt)
  All-insert P x (y ∷ ys) h k = elim (Bool-cases (is_gt (cmp x y))) [
    | inl gt ↦ rw gt (k.0, All-insert P x ys h k.1)
    | inr le ↦ rw le (h, k)
  ]

  Sorted-insert : (x : A) (xs : List A) → Sorted R xs → Sorted R (insert_sorted cmp x xs)
  Sorted-insert x [] h = (tt, tt)
  Sorted-insert x (y ∷ ys) h = elim (Bool-cases (is_gt (cmp x y))) [
    | inl gt ↦ rw gt (All-insert (R y) x ys (after x y gt) h.0, Sorted-insert x ys h.1)
    | inr le ↦
        let first = before x y le in
        rw le ((first, All-imp (R y) (R x) (λ z r. R_trans x y z first r) ys h.0), h)
  ]

  pub Sorted-sort_by : (xs : List A) → Sorted R (sort_by cmp xs)
  unfolding sort_by
  Sorted-sort_by [] = tt
  Sorted-sort_by (x ∷ xs) = Sorted-insert x (sort_by cmp xs) (Sorted-sort_by xs)
