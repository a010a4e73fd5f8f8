-- ===== src/Optimizer/Orders.antt =====
-- The join orders: `permute_join_orders` and the choice of a candidate yield only orders that name
-- every leaf, and no index out of range.
use native.Mathlib.Decide.{ℕ_discrete}
use mathlib.Core.Path.{subst}
use mmdb.Common.{
  ℕ, zero, suc, ◌+◌, ◌≤◌, ◌<◌, ◌≡◌, ◌≢◌, refl, sym, ap, ◌∙◌, inl, inr, Option, none, some, List, [],
  ◌∷◌, Bool, true, false, arith, length, get_elem?, set, In, All, All-append, All-map,
  get_elem?-set_self, get_elem?-set_ne, get_elem?_lt, length-set, Bool-cases, ltb, ◌||◌,
}
use mmdb.Common.Sort.{All-sort_by}
use mmdb.Ir.{Platform}
use mmdb.Executor.{Plan}
use mmdb.Stats.{Stats}
use mmdb.Optimizer.{
  Candidate, cmp_candidate, range, swap, swap_with, permute_loop, permute_join_orders, join_orders,
  Permuting, candidates_for, find, first, max_join_order_leaves,
}

module _ (order : List ℕ) (i j a b : ℕ) (at_i : get_elem? order i ≡ some a)
    (at_j : get_elem? order j ≡ some b) where
  abbrev swapped : List ℕ
  swapped = set (set order i b) j a

  swapped-at_j : get_elem? swapped j ≡ some a
  swapped-at_j =
      get_elem?-set_self (set order i b) j a
        (omega (arith, length-set order i b, get_elem?_lt order j b at_j))

  swapped-at_i : i ≢ j → get_elem? swapped i ≡ some b
  swapped-at_i ne =
      get_elem?-set_ne (set order i b) j i a (λ e. ne (sym e))
      ∙ get_elem?-set_self order i b (get_elem?_lt order i a at_i)

  swapped-elsewhere : (t : ℕ) → t ≢ i → t ≢ j → get_elem? swapped t ≡ get_elem? order t
  swapped-elsewhere t ne_i ne_j =
      get_elem?-set_ne (set order i b) j t a (λ e. ne_j (sym e))
      ∙ get_elem?-set_ne order i t b (λ e. ne_i (sym e))

  In-swapped : (k : ℕ) → In k order → In k swapped
  In-swapped k (t, e) = elim (ℕ_discrete t j) [
    | yes at ↦ elim (ℕ_discrete i j) [
      | yes same ↦ (j, swapped-at_j ∙ sym at_i ∙ ap (get_elem? order) (same ∙ sym at) ∙ e)
      | no ne ↦ (i, swapped-at_i ne ∙ sym at_j ∙ ap (get_elem? order) (sym at) ∙ e)
    ]
    | no ne_j ↦ elim (ℕ_discrete t i) [
      | yes at ↦ (j, swapped-at_j ∙ sym at_i ∙ ap (get_elem? order) (sym at) ∙ e)
      | no ne_i ↦ (t, swapped-elsewhere t ne_i ne_j ∙ e)
    ]
  ]

  In-of_swapped : (k : ℕ) → In k swapped → In k order
  In-of_swapped k (t, e) = elim (ℕ_discrete t j) [
    | yes at ↦ (i, at_i ∙ sym swapped-at_j ∙ ap (get_elem? swapped) (sym at) ∙ e)
    | no ne_j ↦ elim (ℕ_discrete t i) [
      | yes at ↦ (
        j,
        at_j ∙ sym (swapped-at_i (λ same. ne_j (at ∙ same))) ∙ ap (get_elem? swapped) (sym at) ∙ e,
      )
      | no ne_i ↦ (t, sym (swapped-elsewhere t ne_i ne_j) ∙ e)
    ]
  ]

-- The sum of a weight over a list.
abbrev pub sum {ℓ} : {A : Type ℓ} → (A → ℕ) → List A → ℕ
sum w [] = 0
sum w (x ∷ xs) = w x + sum w xs

sum-set :
    (w : ℕ → ℕ) (xs : List ℕ) (i a v : ℕ)
    → get_elem? xs i ≡ some a
    → sum w (set xs i v) + w a ≡ sum w xs + w v
sum-set w [] i a v e = cc
sum-set w (x ∷ xs) zero a v e = let same : x ≡ a = cc in omega (arith, ap w same)
sum-set w (x ∷ xs) (suc i) a v e = omega (arith, sum-set w xs i a v e)

sum-swapped :
    (w : ℕ → ℕ) (order : List ℕ) (i j a b : ℕ)
    → get_elem? order i ≡ some a
    → get_elem? order j ≡ some b
    → sum w (set (set order i b) j a) ≡ sum w order
sum-swapped w order i j a b at_i at_j = elim (ℕ_discrete i j) [
  | yes same ↦
      let found = get_elem?-set_self order i b (get_elem?_lt order i a at_i) in
      let at_b : get_elem? (set order i b) j ≡ some b =
        ap (get_elem? (set order i b)) (sym same) ∙ found in
      let ab : some a ≡ some b = sym at_i ∙ ap (get_elem? order) same ∙ at_j in
      let a_b : a ≡ b = cc in
      omega (arith, sum-set w (set order i b) j b a at_b, sum-set w order i a b at_i, ap w a_b)
  | no ne ↦
      let at_b = get_elem?-set_ne order i j b ne ∙ at_j in
      omega (arith, sum-set w (set order i b) j b a at_b, sum-set w order i a b at_i)
]

-- A permutation of the indices below `n`: it names each and no other, has `n` places, and any weight
-- has the same sum over it as over the indices.
abbrev pub IsOrder : ℕ → List ℕ → Type 0
IsOrder n order =
    ((k : ℕ) → k < n → In k order)
    × ((k : ℕ) → In k order → k < n)
    × (length order ≡ n)
    × ((w : ℕ → ℕ) → sum w order ≡ sum w (range 0 n))

swap-IsOrder : (n i j : ℕ) (order : List ℕ) → IsOrder n order → IsOrder n (swap i j order)
unfolding swap
swap-IsOrder n i j order h = go (get_elem? order i) refl (get_elem? order j) refl
  where
    go :
        (x : Option ℕ)
        → get_elem? order i ≡ x
        → (y : Option ℕ) → get_elem? order j ≡ y
        → IsOrder n (swap_with order i j x y)
    go (some a) at_i (some b) at_j = (
      λ k lt. In-swapped order i j a b at_i at_j k (h.0 k lt),
      λ k m. h.1 k (In-of_swapped order i j a b at_i at_j k m),
      length-set (set order i b) j a ∙ length-set order i b ∙ h.2,
      λ w. sum-swapped w order i j a b at_i at_j ∙ h.3 w,
    )
    go (some a) at_i none at_j = h
    go none at_i y at_j = h

abbrev Orders : ℕ → Permuting → Type 0
Orders n r = IsOrder n r.0 × All (IsOrder n) r.1

permute_loop-Orders :
    (n : ℕ) (recurse : List ℕ → List (List ℕ) → Permuting)
    → ((order : List ℕ) (out : List (List ℕ))
        → Orders n (order, out)
        → Orders n (recurse order out))
    → (start : ℕ) (is : List ℕ) (order : List ℕ) (out : List (List ℕ)) → Orders n (order, out)
    → Orders n (permute_loop recurse start is order out)
unfolding permute_loop
permute_loop-Orders n recurse keep start [] order out h = h
permute_loop-Orders n recurse keep start (i ∷ is) order out h =
    let inner = keep (swap start i order) out (swap-IsOrder n start i order h.0, h.1) in
    permute_loop-Orders n recurse keep start is _ _ (swap-IsOrder n start i _ inner.0, inner.1)

permute_join_orders-Orders :
    (n left start : ℕ) (order : List ℕ) (out : List (List ℕ))
    → Orders n (order, out)
    → Orders n (permute_join_orders left start order out)
unfolding permute_join_orders
permute_join_orders-Orders n zero start order out h =
    (h.0, All-append (IsOrder n) out (order ∷ []) h.1 (h.0, tt))
permute_join_orders-Orders n (suc left) start order out h =
    permute_loop-Orders n _ (permute_join_orders-Orders n left (suc start)) start _ order out h

In-range : (start count k : ℕ) → start ≤ k → k < start + count → In k (range start count)
unfolding range
In-range start zero k ge lt = absurd (omega arith)
In-range start (suc count) k ge lt = elim (ℕ_discrete start k) [
  | yes e ↦ (0, ap some e)
  | no ne ↦ let (t, e) = In-range (suc start) count k (omega arith) (omega arith) in (suc t, e)
]

range-lt : (start count k : ℕ) → In k (range start count) → k < start + count
unfolding range
range-lt start zero k (t, e) = cc
range-lt start (suc count) k (zero, e) = ground arith
range-lt start (suc count) k (suc t, e) = omega (arith, range-lt (suc start) count k (t, e))

length-range : (start count : ℕ) → length (range start count) ≡ count
unfolding range
length-range start zero = refl
length-range start (suc count) = ap suc (length-range (suc start) count)

All-IsOrder : (n : ℕ) → All (IsOrder n) (join_orders n)
unfolding join_orders
All-IsOrder n =
    (permute_join_orders-Orders n n 0 (range 0 n) [] (
      (
        λ k lt. In-range 0 n k (omega arith) (omega arith),
        λ k m. omega (arith, range-lt 0 n k m),
        length-range 0 n,
        λ w. refl,
      ),
      tt,
    )).1

pub first-All {ℓ κ} :
    {A : Type ℓ} (P : A → Type κ) (xs : List A) {x : A} → All P xs → first xs ≡ some x → P x
first-All P [] h e = cc
first-All P (y ∷ xs) {x} h e = let same : y ≡ x = cc in subst P same h.0

pub find-All {ℓ κ} :
    {A : Type ℓ} (P : A → Type κ) (f : A → Bool) (xs : List A) {x : A}
    → All P xs
    → find f xs ≡ some x
    → P x × (f x ≡ true)
find-All P f [] h e = cc
find-All P f (y ∷ xs) {x} h e = elim (Bool-cases (f y)) [
  | inl t ↦
      let found : some y ≡ some x = rw t at e in
      let same : y ≡ x = cc in (subst P same h.0, subst (λ z. f z ≡ true) same t)
  | inr no_match ↦ find-All P f xs h.1 (rw no_match at e)
]

module _ ⦃p : Platform⦄ where
  pub candidates_for-IsOrder :
      (stats : Stats p.F32) (leaves : List Plan) (ok : Bool)
      → All
          (λ (c : Candidate). IsOrder (length leaves) c.leaf_order)
          (candidates_for stats (leaves, ok))
  unfolding candidates_for
  candidates_for-IsOrder stats leaves false = tt
  candidates_for-IsOrder stats leaves true =
      elim (Bool-cases (ltb (length leaves) 2 || ltb max_join_order_leaves (length leaves))) [
        | inl few ↦ rw few tt
        | inr many ↦ rw many (
            All-sort_by cmp_candidate _ _
              (All-map (IsOrder (length leaves)) _ _ (λ o h. h) _ (All-IsOrder (length leaves))))
      ]
