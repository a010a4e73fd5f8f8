-- ===== src/Common/Searches.antt =====
-- Members of lists that are put together, mapped or filtered, and lists taken whole.
use Prim.Native.Nat.{ℕ, zero, suc, ◌≤◌}
use mathlib.Core.Path.{◌≡◌, refl, ap, sym, ◌∙◌, subst}
use mathlib.Core.Logic.{◌⊎◌, inl, inr}
use mathlib.Core.List.{List, [], ◌∷◌, ◌++◌, map, append-nil}
use mathlib.Core.Option.{Option, none, some}
use native.Mathlib.Omega.{arith}
use mmdb.Common.Tests.{Option-cases}
use mmdb.Common.Lists.{length, take, drop, filter_map, take-append-drop, drop_of_length-le}
use mmdb.Common.Members.{In}

module _ {ℓ} {A : Type ℓ} where
  pub In-append : (xs ys : List A) (x : A) → In x (xs ++ ys) → In x xs ⊎ In x ys
  In-append [] ys x i = inr i
  In-append (y ∷ xs) ys x (zero, e) = inl (0, e)
  In-append (y ∷ xs) ys x (suc t, e) = elim (In-append xs ys x (t, e)) [
    | inl i ↦ inl (suc i.0, i.1)
    | inr i ↦ inr i
  ]

  pub append-In_left : (xs ys : List A) (x : A) → In x xs → In x (xs ++ ys)
  append-In_left [] ys x (t, e) = cc
  append-In_left (y ∷ xs) ys x (zero, e) = (0, e)
  append-In_left (y ∷ xs) ys x (suc t, e) =
      let (t', e') = append-In_left xs ys x (t, e) in (suc t', e')

  pub append-In_right : (xs ys : List A) (x : A) → In x ys → In x (xs ++ ys)
  append-In_right [] ys x i = i
  append-In_right (y ∷ xs) ys x i = let (t, e) = append-In_right xs ys x i in (suc t, e)

  pub drop-append : (xs ys : List A) → drop (length xs) (xs ++ ys) ≡ ys
  drop-append [] ys = refl
  drop-append (x ∷ xs) ys = drop-append xs ys

  pub take_of_length-le : (n : ℕ) (xs : List A) → length xs ≤ n → take n xs ≡ xs
  take_of_length-le n xs h =
      sym (append-nil (take n xs))
      ∙ ap (λ rest. take n xs ++ rest) (sym (drop_of_length-le n xs h))
      ∙ take-append-drop n xs

  module _ {κ} {B : Type κ} where
    pub In-map : (f : A → B) (xs : List A) (y : B) → In y (map f xs) → (x : A) × In x xs × (f x ≡ y)
    In-map f [] y (t, e) = cc
    In-map f (x ∷ xs) y (zero, e) = (x, (0, refl), cc)
    In-map f (x ∷ xs) y (suc t, e) =
        let (z, i, same) = In-map f xs y (t, e) in (z, (suc i.0, i.1), same)

    pub map-In : (f : A → B) (xs : List A) (x : A) → In x xs → In (f x) (map f xs)
    map-In f [] x (t, e) = cc
    map-In f (y ∷ xs) x (zero, e) = let same : y ≡ x = cc in (0, rw same refl)
    map-In f (y ∷ xs) x (suc t, e) = let (t', e') = map-In f xs x (t, e) in (suc t', e')

    pub filter_map-In :
        (f : A → Option B) (xs : List A) (x : A) (y : B)
        → In x xs
        → f x ≡ some y
        → In y (filter_map f xs)
    filter_map-In f [] x y (t, e) h = cc
    filter_map-In f (z ∷ xs) x y (zero, e) h =
        let same : z ≡ x = cc in
        let kept : f z ≡ some y = ap f same ∙ h in
        let rest = filter_map f xs in
        subst (λ o. In y (elim o [ none ↦ rest | some w ↦ w ∷ rest ])) (sym kept) (0, refl)
    filter_map-In f (z ∷ xs) x y (suc t, e) h =
        let (t', e') = filter_map-In f xs x y (t, e) h in
        let rest = filter_map f xs in
        elim (Option-cases (f z)) [
          | inl gone ↦
              subst (λ o. In y (elim o [ none ↦ rest | some w ↦ w ∷ rest ])) (sym gone) (t', e')
          | inr (w, kept) ↦
              subst (λ o. In y (elim o [ none ↦ rest | some w ↦ w ∷ rest ])) (sym kept) (suc t', e')
        ]

    pub length-filter_map-le :
        (f : A → Option B) (xs : List A) → length (filter_map f xs) ≤ length xs
    length-filter_map-le f [] = omega arith
    length-filter_map-le f (x ∷ xs) = ground (arith, length-filter_map-le f xs)
