-- ===== src/AccessStore/Tally.antt =====
-- crates/mmdb/src/access.rs, `merge`: what its loop adds up, and over which sources.
use mathlib.Core.Path.{subst}
use mathlib.Core.List.{append_assoc, append-nil}
use mmdb.Common.{
  ℕ, ◌+◌, ◌≤◌, ◌<◌, min, Bool, true, false, not, Option, none, some, List, [], ◌∷◌, ◌++◌, ◌≡◌, refl,
  sym, arith, inl, inr, In, All, All-append, All-of_In, All-In, Bool-cases, compare, filter,
  append-In_left, append-In_right, ◌==◌, In-filter,
}
use mmdb.Common.Int.{ℤ, le_ℤ}
use mmdb.Common.Sort.{sort_by}
use mmdb.Common.Sorted.{Sorted, Sorted-sort_by, All-imp}
use mmdb.Words.{usize_max, saturating_add}
use mmdb.Errors.{ok, bind-ok}
use mmdb.Engine.{Engine}
use mmdb.Engine.Laws.{IsLawful}
use mmdb.Eval.Newest.{le_ℤ-trans}
use mmdb.AccessStore.{
  AccessStats, AccessSerde, Merging, get, dedup, latest, merge_one, merge_loop, merge_sources,
}
use mmdb.AccessStore.Recorded.{IsFaithful, count_of, ok_inj}
use mmdb.AccessStore.Merged.{dedup-All}

-- The sum of the counters found.
abbrev pub total : List (Option AccessStats) → ℕ
total [] = 0
total (o ∷ os) = count_of o + total os

total-append : (os qs : List (Option AccessStats)) → total (os ++ qs) ≡ total os + total qs
total-append [] qs = omega arith
total-append (o ∷ os) qs = omega (arith, total-append os qs)

-- A counter's time is no later than `t`.
abbrev pub NoLater : ℤ → Option AccessStats → Type 0
NoLater t none = Unit
NoLater t (some x) = le_ℤ x.last_accessed_at_ms t ≡ true

-- `t` is the latest of the times of the counters found.
abbrev pub IsLatest : ℤ → List (Option AccessStats) → Type 0
IsLatest t os =
    All (NoLater t) os × ((x : AccessStats) × In (some x) os × (x.last_accessed_at_ms ≡ t))

pub le_ℤ_self : (a : ℤ) → le_ℤ a a ≡ true
le_ℤ_self (ℤ.pos n) = ground arith
le_ℤ_self (ℤ.negsuc n) = ground arith

le_ℤ_total : (a b : ℤ) → le_ℤ a b ≡ false → le_ℤ b a ≡ true
le_ℤ_total (ℤ.pos a) (ℤ.pos b) h = ground (arith, h)
le_ℤ_total (ℤ.pos a) (ℤ.negsuc b) h = refl
le_ℤ_total (ℤ.negsuc a) (ℤ.pos b) h = cc
le_ℤ_total (ℤ.negsuc a) (ℤ.negsuc b) h = ground (arith, h)

NoLater-later : (t u : ℤ) (o : Option AccessStats) → le_ℤ t u ≡ true → NoLater t o → NoLater u o
NoLater-later t u none h k = tt
NoLater-later t u (some x) h k = le_ℤ-trans u t x.last_accessed_at_ms h k

last_In : (os : List (Option AccessStats)) (o : Option AccessStats) → In o (os ++ o ∷ [])
last_In os o = append-In_right os (o ∷ []) o (0, refl)

-- What the loop holds after it has read these counters.
abbrev pub Latest : Option ℤ → Bool → List (Option AccessStats) → Type 0
Latest none found os = (found ≡ false) × All (λ o. o ≡ none) os
Latest (some t) found os = IsLatest t os

latest-IsLatest :
    (last : Option ℤ) (found : Bool) (os : List (Option AccessStats)) (x : AccessStats)
    → Latest last found os
    → IsLatest (latest last x.last_accessed_at_ms) (os ++ some x ∷ [])
unfolding latest
latest-IsLatest none found os x (_, empty) =
    let t = x.last_accessed_at_ms in
    (
      All-append (NoLater t) os (some x ∷ [])
          (All-imp (λ o. o ≡ none) (NoLater t) (λ o e. subst (NoLater t) (sym e) tt) os empty)
          (le_ℤ_self t, tt),
      (x, last_In os (some x), refl),
    )
latest-IsLatest (some u) found os x (before, (y, i, at)) =
    let t = x.last_accessed_at_ms in
    elim (Bool-cases (le_ℤ u t)) [
      | inl later ↦ rw later (
        All-append (NoLater t) os (some x ∷ [])
            (All-imp (NoLater u) (NoLater t) (λ o. NoLater-later u t o later) os before)
            (le_ℤ_self t, tt),
        (x, last_In os (some x), refl),
      )
      | inr earlier ↦ rw earlier (
        All-append (NoLater u) os (some x ∷ []) before (le_ℤ_total u t earlier, tt),
        (y, append-In_left os (some x ∷ []) (some y) i, at),
      )
    ]

module _ (E : Engine) (L : IsLawful E) (C : AccessSerde) (F : IsFaithful C) (tenant : ℕ) where
  -- What `get` answers for the ids, one after the other.
  abbrev pub Reads : E.State → List ℕ → List (Option AccessStats) → Type 0
  Reads s [] [] = Unit
  Reads s [] (o ∷ os) = ⊥
  Reads s (i ∷ is) [] = ⊥
  Reads s (i ∷ is) (o ∷ os) = (get E C tenant s i ≡ ok o) × Reads s is os

  pub record IsTally (m : Merging) (os : List (Option AccessStats)) : Type 0 where
    pub counted : m.access_count ≡ min (total os) usize_max
    pub timed : Latest m.last_accessed m.found os

  merge_one-IsTally :
      (m : Merging) (n : ℕ) (o : Option AccessStats) (os : List (Option AccessStats))
      → IsTally m os
      → IsTally (merge_one m n o) (os ++ o ∷ [])
  unfolding merge_one saturating_add
  merge_one-IsTally m n none os h = record {
    counted = omega (arith, h.counted, total-append os (none ∷ []));
    timed = still m.last_accessed h.timed;
  }
    where
      still : (last : Option ℤ) → Latest last m.found os → Latest last m.found (os ++ none ∷ [])
      still none (f, empty) = (f, All-append (λ o. o ≡ none) os (none ∷ []) empty (refl, tt))
      still (some t) (before, (y, i, at)) = (
        All-append (NoLater t) os (none ∷ []) before (tt, tt),
        (y, append-In_left os (none ∷ []) (some y) i, at),
      )
  merge_one-IsTally m n (some x) os h = record {
    counted = omega (arith, h.counted, total-append os (some x ∷ []));
    timed = latest-IsLatest m.last_accessed m.found os x h.timed;
  }

  pub merge_loop-IsTally :
      (s : E.State) (m m' : Merging) (is : List ℕ) (os : List (Option AccessStats))
      → IsTally m os
      → merge_loop E C tenant s m is ≡ ok m'
      → (qs : List (Option AccessStats)) × Reads s is qs × IsTally m' (os ++ qs)
  unfolding merge_loop
  merge_loop-IsTally s m m' [] os h e =
      ([], tt, subst (IsTally m') (sym (append-nil os)) (subst (λ n. IsTally n os) (ok_inj e) h))
  merge_loop-IsTally s m m' (i ∷ is) os h e =
      let (o, read, e') = bind-ok (get E C tenant s i) _ m' e in
      let (qs, reads, tally) =
        merge_loop-IsTally s (merge_one m i o) m' is (os ++ o ∷ []) (merge_one-IsTally m i o os h)
          e' in
      (o ∷ qs, (read, reads), subst (IsTally m') (append_assoc os (o ∷ []) qs) tally)

-- The ids that the loop runs over are in increasing order.
All-filter {ℓ κ} :
    {A : Type ℓ} (P : A → Type κ) (f : A → Bool) (xs : List A) → All P xs → All P (filter f xs)
All-filter P f xs h = All-of_In P (filter f xs) (λ x i. All-In P xs h x (In-filter f xs x i).0)

Sorted-filter :
    (f : ℕ → Bool) (xs : List ℕ) → Sorted (λ a b. a < b) xs → Sorted (λ a b. a < b) (filter f xs)
Sorted-filter f [] h = tt
Sorted-filter f (x ∷ xs) (first, rest) = elim (Bool-cases (f x)) [
  | inl kept ↦ rw (kept, filter) (All-filter (λ b. x < b) f xs first, Sorted-filter f xs rest)
  | inr dropped ↦ rw (dropped, filter) (Sorted-filter f xs rest)
]

dedup-Sorted : (xs : List ℕ) → Sorted (λ a b. a ≤ b) xs → Sorted (λ a b. a < b) (dedup xs)
unfolding dedup
dedup-Sorted [] h = tt
dedup-Sorted (x ∷ []) h = (tt, tt)
dedup-Sorted (x ∷ y ∷ ys) ((le, _), (first, more)) =
    let rest = dedup-Sorted (y ∷ ys) (first, more) in
    elim (Bool-cases (x == y)) [
      | inl same ↦ rw same rest
      | inr other ↦
          let lt : x < y = ground arith in
          rw other (
            dedup-All (λ b. x < b) (y ∷ ys)
                (lt, All-imp (λ b. y ≤ b) (λ b. x < b) (λ b e. omega (arith, lt, e)) ys first),
            rest,
          )
    ]

module _ (E : Engine) (C : AccessSerde) (tenant : ℕ) where
  pub merge_sources-Sorted :
      (target : ℕ) (sources : List ℕ)
      → Sorted (λ a b. a < b) (merge_sources E C tenant target sources)
  unfolding merge_sources
  merge_sources-Sorted target sources =
      Sorted-filter (λ id. not (id == target)) (dedup (sort_by compare sources))
        (dedup-Sorted (sort_by compare sources) (
          Sorted-sort_by compare (λ a b. a ≤ b) (λ a b c h k. omega (arith, h, k))
            (λ a b h. ground arith) (λ a b h. ground arith) sources))
