-- ===== src/AccessStore/Sources.antt =====
-- crates/mmdb/src/access.rs, `merge`: which sources its loop notes, and what the removals leave.
use mathlib.Core.Path.{subst}
use mmdb.Common.{
  ℕ, suc, ◌^◌, ◌<◌, true, false, not, Option, none, some, List, [], ◌∷◌, ◌≡◌, ◌≢◌, refl, sym, ap,
  ◌∙◌, arith, inl, inr, ◌⊎◌, In, Bool-cases, compare, ◌==◌, ==_iff, map, filter-In, In-filter,
  In-append, append-In_left, append-In_right, is_gt,
}
use mmdb.Common.Bytes.{Bytes, bytes_eq, cmp_bytes_self}
use mmdb.Common.Sort.{sort_by, insert_sorted}
use mmdb.Errors.{ok, bind-ok}
use mmdb.Engine.{Engine, Write, remove}
use mmdb.Engine.Laws.{IsLawful, written}
use mmdb.Engine.Maps.{Entries, lookup, erase, lookup-erase, Sorted-erase, Before}
use mmdb.Common.Sorted.{Sorted}
use mmdb.AccessStore.{
  AccessStats, AccessSerde, Merging, access_key, part_access, get, dedup, merge_sources, merge_one,
  merge_loop,
}
use mmdb.AccessStore.Recorded.{IsFaithful, access_key_inj, ok_inj, In-nil, In-cons}

later {ℓ} : {A : Type ℓ} (x y : A) (ys : List A) → In x ys → In x (y ∷ ys)
later x y ys (t, e) = (suc t, e)

pub first_In {ℓ} : {A : Type ℓ} {x : A} (y : A) (ys : List A) → x ≡ y → In x (y ∷ ys)
first_In y ys e = (0, ap some (sym e))

-- Sorting and removing repetitions keep every number.
insert-In : (x y : ℕ) (ys : List ℕ) → (x ≡ y) ⊎ In x ys → In x (insert_sorted compare y ys)
insert-In x y [] (inl e) = first_In y [] e
insert-In x y [] (inr (t, e)) = cc
insert-In x y (z ∷ zs) h = elim (Bool-cases (is_gt (compare y z))) [
  | inr first ↦ rw first (elim h [ inl e ↦ first_In y (z ∷ zs) e | inr i ↦ later x y (z ∷ zs) i ])
  | inl after ↦ rw after (elim h [
    | inl e ↦ later x z (insert_sorted compare y zs) (insert-In x y zs (inl e))
    | inr i ↦ elim (In-cons x z zs i) [
      | inl e ↦ first_In z (insert_sorted compare y zs) e
      | inr j ↦ later x z (insert_sorted compare y zs) (insert-In x y zs (inr j))
    ]
  ])
]

sort_by-In : (x : ℕ) (xs : List ℕ) → In x xs → In x (sort_by compare xs)
unfolding sort_by
sort_by-In x [] i = i
sort_by-In x (y ∷ ys) i = elim (In-cons x y ys i) [
  | inl e ↦ insert-In x y (sort_by compare ys) (inl e)
  | inr j ↦ insert-In x y (sort_by compare ys) (inr (sort_by-In x ys j))
]

dedup-In : (x : ℕ) (xs : List ℕ) → In x xs → In x (dedup xs)
unfolding dedup
dedup-In x [] i = i
dedup-In x (y ∷ []) i = i
dedup-In x (y ∷ z ∷ zs) i =
    let rest = dedup-In x (z ∷ zs) in
    elim (Bool-cases (y == z)) [
      | inl same ↦
          let equal : y ≡ z = (==_iff y z).0 same in
          rw same (elim (In-cons x y (z ∷ zs) i) [
            | inl e ↦ rest (first_In z zs (e ∙ equal))
            | inr j ↦ rest j
          ])
      | inr other ↦ rw other (elim (In-cons x y (z ∷ zs) i) [
        | inl e ↦ first_In y (dedup (z ∷ zs)) e
        | inr j ↦ later x y (dedup (z ∷ zs)) (rest j)
      ])
    ]

module _ (E : Engine) (L : IsLawful E) (C : AccessSerde) (F : IsFaithful C) (tenant : ℕ) where
  pub merge_sources-In :
      (target x : ℕ) (xs : List ℕ)
      → In x xs
      → x ≢ target
      → In x (merge_sources E C tenant target xs)
  unfolding merge_sources
  merge_sources-In target x xs i differs =
      filter-In (λ id. not (id == target)) (dedup (sort_by compare xs)) x
        (dedup-In x (sort_by compare xs) (sort_by-In x xs i)) (kept (Bool-cases (x == target)))
    where
      kept : (x == target ≡ true) ⊎ (x == target ≡ false) → not (x == target) ≡ true
      kept (inl same) = absurd (differs ((==_iff x target).0 same))
      kept (inr other) = rw other refl

  pub merge_sources-other :
      (target x : ℕ) (xs : List ℕ) → In x (merge_sources E C tenant target xs) → x ≢ target
  unfolding merge_sources
  merge_sources-other target x xs i same =
      let holds = (In-filter (λ id. not (id == target)) (dedup (sort_by compare xs)) x i).1 in
      absurd (ground (arith, (==_iff x target).1 same))

  -- A source is counted and noted, or nothing is kept of it.
  merge_loop-populated :
      (s : E.State) (m m' : Merging) (xs : List ℕ) (x : ℕ)
      → merge_loop E C tenant s m xs ≡ ok m'
      → In x m.populated
      → In x m'.populated
  unfolding merge_loop merge_one
  merge_loop-populated s m m' [] x e i = subst (λ (n : Merging). In x n.populated) (ok_inj e) i
  merge_loop-populated s m m' (y ∷ ys) x e i =
      let (stats, read, e') = bind-ok (get E C tenant s y) _ m' e in
      merge_loop-populated s (merge_one m y stats) m' ys x e' (still stats)
    where
      still : (stats : Option AccessStats) → In x (merge_one m y stats).populated
      still none = i
      still (some stats) = append-In_left m.populated (y ∷ []) x i

  pub merge_loop-In :
      (s : E.State) (m m' : Merging) (xs : List ℕ) (x : ℕ)
      → merge_loop E C tenant s m xs ≡ ok m'
      → In x xs
      → In x m'.populated ⊎ (get E C tenant s x ≡ ok none)
  unfolding merge_loop merge_one
  merge_loop-In s m m' [] x e i = absurd (In-nil x i)
  merge_loop-In s m m' (y ∷ ys) x e i =
      let (stats, read, e') = bind-ok (get E C tenant s y) _ m' e in
      elim (In-cons x y ys i) [
        | inl same ↦ here stats read e' same
        | inr j ↦ merge_loop-In s (merge_one m y stats) m' ys x e' j
      ]
    where
      here :
          (stats : Option AccessStats)
          → get E C tenant s y ≡ ok stats
          → merge_loop E C tenant s (merge_one m y stats) ys ≡ ok m'
          → x ≡ y
          → In x m'.populated ⊎ (get E C tenant s x ≡ ok none)
      here none read rest same = inr (ap (get E C tenant s) same ∙ read)
      here (some stats) read rest same = inl (
          merge_loop-populated s (merge_one m y (some stats)) m' ys x rest
            (append-In_right m.populated (y ∷ []) x (first_In y [] same)))

  pub merge_loop-of :
      (s : E.State) (m m' : Merging) (xs : List ℕ) (x : ℕ)
      → merge_loop E C tenant s m xs ≡ ok m'
      → In x m'.populated
      → In x m.populated ⊎ In x xs
  unfolding merge_loop merge_one
  merge_loop-of s m m' [] x e i = inl (subst (λ (n : Merging). In x n.populated) (sym (ok_inj e)) i)
  merge_loop-of s m m' (y ∷ ys) x e i =
      let (stats, read, e') = bind-ok (get E C tenant s y) _ m' e in
      elim (merge_loop-of s (merge_one m y stats) m' ys x e' i) [
        | inl j ↦ of stats j
        | inr j ↦ inr (later x y ys j)
      ]
    where
      of :
          (stats : Option AccessStats)
          → In x (merge_one m y stats).populated
          → In x m.populated ⊎ In x (y ∷ ys)
      of none j = inl j
      of (some stats) j = elim (In-append m.populated (y ∷ []) x j) [
        | inl k ↦ inl k
        | inr k ↦ elim (In-cons x y [] k) [
          | inl same ↦ inr (first_In y ys same)
          | inr no_more ↦ absurd (In-nil x no_more)
        ]
      ]

  -- What the removals of a batch leave at a key: nothing where it is removed, and else what was there.
  abbrev pub removals : List ℕ → List Write
  removals = map (λ source. remove part_access (access_key tenant source))

  pub removed-none :
      (xs : List ℕ) (m : Entries) (k : Bytes)
      → Sorted Before m
      → lookup k m ≡ none
      → lookup k (written part_access (removals xs) m) ≡ none
  unfolding written
  removed-none [] m k so at = at
  removed-none (x ∷ xs) m k so at =
      let key = access_key tenant x in
      removed-none xs (erase key m) k (Sorted-erase key m so)
        (ground (arith, lookup-erase k key m so))

  pub removed-In :
      (xs : List ℕ) (m : Entries) (x : ℕ)
      → Sorted Before m
      → In x xs
      → lookup (access_key tenant x) (written part_access (removals xs) m) ≡ none
  unfolding written
  removed-In [] m x so i = absurd (In-nil x i)
  removed-In (y ∷ ys) m x so i =
      let key = access_key tenant y in
      elim (In-cons x y ys i) [
        | inl same ↦ rw same (
            removed-none ys (erase key m) key (Sorted-erase key m so)
              (lookup-erase key key m so ∙ ground (arith, cmp_bytes_self key)))
        | inr j ↦ removed-In ys (erase key m) x (Sorted-erase key m so) j
      ]

  pub removed-kept :
      (xs : List ℕ) (m : Entries) (x : ℕ) (v : Bytes)
      → tenant < 2 ^ 32
      → x < 2 ^ 128
      → ((y : ℕ) → In y xs → (y < 2 ^ 128) × (y ≢ x))
      → Sorted Before m
      → lookup (access_key tenant x) m ≡ some v
      → lookup (access_key tenant x) (written part_access (removals xs) m) ≡ some v
  unfolding written
  removed-kept [] m x v ht hx others so at = at
  removed-kept (y ∷ ys) m x v ht hx others so at =
      let key = access_key tenant y in
      let (hy, differs) = others y (first_In y ys refl) in
      removed-kept ys (erase key m) x v ht hx (λ z i. others z (later z y ys i))
        (Sorted-erase key m so)
        (elim (Bool-cases (bytes_eq (access_key tenant x) key)) [
          | inl same ↦ absurd (differs (sym (access_key_inj tenant x y ht hx hy same)))
          | inr other ↦ lookup-erase (access_key tenant x) key m so ∙ rw other at
        ])
