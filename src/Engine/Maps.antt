-- ===== src/Engine/Maps.antt =====
-- Ordered maps from byte strings to byte strings: reads after writes, and the order of the keys.
use mmdb.Common.{
  ◌≡◌, refl, false, not, List, [], ◌∷◌, Option, none, some, In, All, All-In, Ordering-cases,
  if◌then◌else◌, Ordering, arith, filter, is_gt, Bool-cases, inl, inr, zero, suc,
}
use mmdb.Common.Sorted.{Sorted, All-imp}
use mmdb.Common.Bytes.{
  Bytes, cmp_bytes, bytes_eq, cmp_bytes_self, eq_of_cmp_bytes, cmp_bytes_trans, cmp_bytes_swap,
}
use mmdb.Common.BTreeMap as BTreeMap

abbrev pub Entries : Type 0
Entries = List (Bytes × Bytes)

-- The keys increase strictly.
abbrev pub Before : Bytes × Bytes → Bytes × Bytes → Type 0
Before a b = cmp_bytes a.0 b.0 ≡ Ordering.lt

unfoldable pub lookup : Bytes → Entries → Option Bytes
unfolding BTreeMap.get
lookup = BTreeMap.get cmp_bytes

unfoldable pub put : Bytes → Bytes → Entries → Entries
unfolding BTreeMap.insert
put = BTreeMap.insert cmp_bytes

unfoldable pub erase : Bytes → Entries → Entries
erase k = filter (λ e. not (bytes_eq k e.0))

pub lookup-put :
    (k j v : Bytes) (m : Entries)
    → lookup k (put j v m) ≡ (if bytes_eq k j then some v else lookup k m)
unfolding lookup put BTreeMap.get BTreeMap.insert
lookup-put k j v [] = ground arith
lookup-put k j v ((i, w) ∷ m) =
    ground
      (arith, lookup-put k j v m, eq_of_cmp_bytes k j, eq_of_cmp_bytes j i, cmp_bytes_trans k j i)

-- No key that stands after a greater one is found.
lookup-beyond :
    (k : Bytes) (x : Bytes × Bytes) (m : Entries)
    → All (Before x) m
    → is_gt (cmp_bytes k x.0) ≡ false
    → lookup k m ≡ none
unfolding lookup BTreeMap.get
lookup-beyond k x [] h g = refl
lookup-beyond k x ((j, w) ∷ m) h g =
    ground (arith, h.0, cmp_bytes_trans k x.0 j, eq_of_cmp_bytes k x.0)

All-erase : (P : Bytes × Bytes → Type 0) (k : Bytes) (m : Entries) → All P m → All P (erase k m)
unfolding erase
All-erase P k [] h = tt
All-erase P k ((j, w) ∷ m) (here, rest) = elim (Bool-cases (bytes_eq k j)) [
  | inl same ↦ rw same (All-erase P k m rest)
  | inr other ↦ rw other (here, All-erase P k m rest)
]

pub Sorted-erase : (k : Bytes) (m : Entries) → Sorted Before m → Sorted Before (erase k m)
unfolding erase
Sorted-erase k [] h = tt
Sorted-erase k ((j, w) ∷ m) (first, rest) = elim (Bool-cases (bytes_eq k j)) [
  | inl same ↦ rw same (Sorted-erase k m rest)
  | inr other ↦ rw other (All-erase (Before (j, w)) k m first, Sorted-erase k m rest)
]

pub lookup-erase :
    (k j : Bytes) (m : Entries)
    → Sorted Before m
    → lookup k (erase j m) ≡ (if bytes_eq k j then none else lookup k m)
unfolding lookup erase BTreeMap.get
lookup-erase k j [] h = ground arith
lookup-erase k j ((i, w) ∷ m) (first, rest) = ground (
  arith,
  lookup-erase k j m rest,
  eq_of_cmp_bytes k j,
  eq_of_cmp_bytes j i,
  lookup-beyond k (i, w) m first,
  cmp_bytes_self i,
)

All-put :
    (P : Bytes × Bytes → Type 0) (k v : Bytes) (m : Entries)
    → P (k, v)
    → ((j w : Bytes) → P (j, w) → P (j, v))
    → All P m
    → All P (put k v m)
unfolding put BTreeMap.insert
All-put P k v [] p f h = (p, tt)
All-put P k v ((j, w) ∷ m) p f (here, rest) = elim (Ordering-cases (cmp_bytes k j)) [
  | inl less ↦ rw (less, put, BTreeMap.insert) (p, (here, rest))
  | inr (inl same) ↦ rw (same, put, BTreeMap.insert) (f j w here, rest)
  | inr (inr more) ↦ rw (more, put, BTreeMap.insert) (here, All-put P k v m p f rest)
]

pub Sorted-put : (k v : Bytes) (m : Entries) → Sorted Before m → Sorted Before (put k v m)
unfolding put BTreeMap.insert
Sorted-put k v [] h = (tt, tt)
Sorted-put k v ((j, w) ∷ m) (first, rest) = elim (Ordering-cases (cmp_bytes k j)) [
  | inl less ↦
      rw (less, put, BTreeMap.insert)
        (
          (
            less,
            All-imp (Before (j, w)) (Before (k, v)) (λ z b. cmp_bytes_trans k j z.0 less b) m first,
          ),
          (first, rest),
        )
  | inr (inl same) ↦ rw (same, put, BTreeMap.insert) (first, rest)
  | inr (inr more) ↦
      rw (more, put, BTreeMap.insert)
        (
          All-put (Before (j, w)) k v m (cmp_bytes_swap k j more) (λ _ _ b. b) first,
          Sorted-put k v m rest,
        )
]

-- In an ordered map the entries are what a read finds.
pub lookup-In : (m : Entries) (k v : Bytes) → Sorted Before m → In (k, v) m → lookup k m ≡ some v
unfolding lookup BTreeMap.get
lookup-In [] k v h (t, e) = cc
lookup-In ((j, w) ∷ m) k v (first, rest) (zero, e) =
    let key : j ≡ k = cc in let value : w ≡ v = cc in ground (arith, cmp_bytes_self k)
lookup-In ((j, w) ∷ m) k v (first, rest) (suc t, e) =
    let later : Before (j, w) (k, v) = All-In (Before (j, w)) m first (k, v) (t, e) in
    ground (
      arith,
      later,
      lookup-In m k v rest (t, e),
      eq_of_cmp_bytes k j,
      cmp_bytes_self j,
      cmp_bytes_trans j k j,
    )

pub In-lookup : (m : Entries) (k v : Bytes) → lookup k m ≡ some v → In (k, v) m
unfolding lookup BTreeMap.get
In-lookup [] k v h = cc
In-lookup ((j, w) ∷ m) k v h = elim (Ordering-cases (cmp_bytes k j)) [
  | inl less ↦ absurd (ground arith)
  | inr (inl same) ↦ (0, ground (arith, eq_of_cmp_bytes k j))
  | inr (inr more) ↦ let (t, e) = In-lookup m k v (ground arith) in (suc t, e)
]
