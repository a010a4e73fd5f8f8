-- ===== src/AccessStore/Merged.antt =====
-- crates/mmdb/src/access.rs, `merge`: the counters of the sources go into that of the target.
use mathlib.Core.Path.{subst}
use mmdb.Common.{
  All, All-In, ℕ, ◌^◌, ◌<◌, true, false, not, Option, none, some, List, [], ◌∷◌, ◌≡◌, ◌≢◌, refl,
  sym, ap, ◌∙◌, arith, inl, inr, ◌⊎◌, In, Bool-cases, compare, ◌==◌, In-filter,
}
use mmdb.Common.Bytes.{Bytes, bytes_eq, cmp_bytes_self}
use mmdb.Common.Int.{ℤ}
use mmdb.Common.Sort.{sort_by, All-sort_by}
use mmdb.Errors.{Result, ok, err, ◌>>=◌, bind-ok, Result-cases, Error}
use mmdb.Engine.{Engine, done, json, json-ok, storage, storage-ok, Write}
use mmdb.Engine.Laws.{IsLawful, written}
use mmdb.Engine.Maps.{lookup, put, lookup-put, Sorted-put}
use mmdb.Engine.Commits.{commit_with, commit_with-ok}
use mmdb.AccessStore.{
  AccessStats, AccessSerde, Merging, access_key, part_access, parse_stats, get, dedup,
  merge_sources, merge_start, merge_counted, merged_stats, merge_batch, merge,
}
use mmdb.AccessStore.Recorded.{IsFaithful, access_key_inj, ok_inj, In-nil}
use mmdb.AccessStore.Sources.{
  merge_sources-In, merge_sources-other, merge_loop-In, merge_loop-of, removals, removed-none,
  removed-In, removed-kept,
}

pub dedup-All : (P : ℕ → Type 0) (xs : List ℕ) → All P xs → All P (dedup xs)
unfolding dedup
dedup-All P [] h = tt
dedup-All P (x ∷ []) h = h
dedup-All P (x ∷ y ∷ ys) (here, rest) = elim (Bool-cases (x == y)) [
  | inl same ↦ rw same (dedup-All P (y ∷ ys) rest)
  | inr other ↦ rw other (here, dedup-All P (y ∷ ys) rest)
]

err-ok {ℓ} : {A : Type ℓ} (e : Error) (x : A) → ◌≡◌ {A = Result A} (err e) (ok x) → ⊥
err-ok e x r = cc

none-some {ℓ} : {A : Type ℓ} (x : A) → ◌≡◌ {A = Option A} none (some x) → ⊥
none-some x r = cc

some_inj {ℓ} : {A : Type ℓ} {x y : A} → ◌≡◌ {A = Option A} (some x) (some y) → x ≡ y
some_inj e = cc

module _ (E : Engine) (L : IsLawful E) (C : AccessSerde) (F : IsFaithful C) (tenant : ℕ) where
  pub merge_sources-All :
      (P : ℕ → Type 0) (target x : ℕ) (xs : List ℕ)
      → All P xs
      → In x (merge_sources E C tenant target xs)
      → P x
  unfolding merge_sources
  merge_sources-All P target x xs h i =
      All-In P (dedup (sort_by compare xs))
        (dedup-All P (sort_by compare xs) (All-sort_by compare P xs h)) x
        (In-filter (λ id. not (id == target)) (dedup (sort_by compare xs)) x i).0

  get-lookup-some :
      (s : E.State) (n : ℕ) (bytes : Bytes) (x : AccessStats)
      → L.IsReadable s
      → lookup (access_key tenant n) (L.entries s part_access) ≡ some bytes
      → C.decode bytes ≡ done x
      → get E C tenant s n ≡ ok (some x)
  unfolding get parse_stats
  get-lookup-some s n bytes x readable at d =
      rw (L.get-entries s part_access (access_key tenant n) readable, at, storage, ◌>>=◌, d, json)
        refl

  get-lookup-none :
      (s : E.State) (n : ℕ)
      → L.IsReadable s
      → lookup (access_key tenant n) (L.entries s part_access) ≡ none
      → get E C tenant s n ≡ ok none
  unfolding get parse_stats
  get-lookup-none s n readable at =
      rw (L.get-entries s part_access (access_key tenant n) readable, at, storage, ◌>>=◌) refl

  parse_stats-none : (o : Option Bytes) → parse_stats E C tenant o ≡ ok none → o ≡ none
  unfolding parse_stats
  parse_stats-none none e = refl
  parse_stats-none (some bytes) e = let (x, _, e') = bind-ok (json (C.decode bytes)) _ none e in cc

  lookup-get-none :
      (s : E.State) (n : ℕ)
      → get E C tenant s n ≡ ok none
      → lookup (access_key tenant n) (L.entries s part_access) ≡ none
  unfolding get
  lookup-get-none s n e =
      let key = access_key tenant n in
      let (o, read, parsed) = bind-ok (storage (E.get s part_access key)) _ none e in
      sym (L.get-answers s part_access key o (storage-ok (E.get s part_access key) o read))
      ∙ parse_stats-none o parsed

  -- What a merge that found counters did.
  pub merge-commits :
      (s s' : E.State) (target : ℕ) (sources : List ℕ) (now : ℤ) (x : AccessStats)
      → merge E C tenant s target sources now ≡ (s', ok (some x))
      → (m : Merging) × (bytes : Bytes) × (m.found ≡ true)
        × (merge_counted E C tenant s target sources ≡ ok m)
        × (x ≡ merged_stats E C tenant target m now)
        × (C.encode x ≡ done bytes)
        × (L.entries s' part_access
            ≡ written part_access
                (removals E L C F tenant m.populated)
                (put (access_key tenant target) bytes (L.entries s part_access)))
  unfolding merge merge_batch written
  merge-commits s s' target sources now x e =
      elim (Result-cases (merge_counted E C tenant s target sources)) [
        | inr (error, refused) ↦
            let e' = rw (refused, merge) at e in absurd (err-ok error (some x) (ap (λ y. y.1) e'))
        | inl (m, counted) ↦ elim (Bool-cases m.found) [
          | inr nothing ↦
              let e' = rw (counted, merge, nothing) at e in
              absurd (none-some x (ok_inj (ap (λ y. y.1) e')))
          | inl found ↦
              let e' : commit_with E s (merge_batch E C tenant target m now) ≡ (s', ok (some x)) =
                rw (counted, merge, found) at e in
              let (batch, made, committed) =
                commit_with-ok E L s s' (merge_batch E C tenant target m now) (some x) e' in
              let (bytes, encoded, made') =
                bind-ok (json (C.encode (merged_stats E C tenant target m now))) _ (batch, some x)
                  made in
              let whole = ok_inj made' in
              (
                m,
                bytes,
                found,
                counted,
                sym (some_inj (ap (λ y. y.1) whole)),
                subst (λ y. C.encode y ≡ done bytes) (some_inj (ap (λ y. y.1) whole))
                    (json-ok (C.encode (merged_stats E C tenant target m now)) bytes encoded),
                L.commit-done s s' batch committed part_access
                    ∙ ap (λ (b : List Write). written part_access b (L.entries s part_access))
                        (sym (ap (λ y. y.0) whole)),
              )
        ]
      ]

  populated-other :
      (s : E.State) (target x : ℕ) (sources : List ℕ) (m : Merging)
      → All (λ n. n < 2 ^ 128) sources
      → merge_counted E C tenant s target sources ≡ ok m
      → In x m.populated
      → (x < 2 ^ 128) × (x ≢ target)
  unfolding merge_counted merge_start
  populated-other s target x sources m small counted i =
      let (stats, read, looped) = bind-ok (get E C tenant s target) _ m counted in
      elim (merge_loop-of E L C F tenant s (merge_start stats) m
        (merge_sources E C tenant target sources) x looped i) [
          | inl j ↦ absurd (none_yet stats j)
          | inr j ↦ (
            merge_sources-All (λ n. n < 2 ^ 128) target x sources small j,
            merge_sources-other E L C F tenant target x sources j,
          )
        ]
    where
      none_yet : (stats : Option AccessStats) → In x (merge_start stats).populated → ⊥
      none_yet none j = In-nil x j
      none_yet (some stats) j = In-nil x j

  populated-source :
      (s : E.State) (target x : ℕ) (sources : List ℕ) (m : Merging)
      → merge_counted E C tenant s target sources ≡ ok m
      → In x sources
      → x ≢ target
      → In x m.populated ⊎ (get E C tenant s x ≡ ok none)
  unfolding merge_counted
  populated-source s target x sources m counted i differs =
      let (stats, read, looped) = bind-ok (get E C tenant s target) _ m counted in
      merge_loop-In E L C F tenant s (merge_start stats) m (merge_sources E C tenant target sources)
        x looped (merge_sources-In E L C F tenant target x sources i differs)

  pub merge-stores :
      (s s' : E.State) (target i : ℕ) (sources : List ℕ) (now : ℤ) (x : AccessStats)
      → tenant < 2 ^ 32
      → target < 2 ^ 128
      → All (λ n. n < 2 ^ 128) sources
      → L.IsReadable s'
      → merge E C tenant s target sources now ≡ (s', ok (some x))
      → In i sources
      → i ≢ target
      → (get E C tenant s' target ≡ ok (some x))
        × (x.node_id ≡ target)
        × (get E C tenant s' i ≡ ok none)
  unfolding merged_stats
  merge-stores s s' target i sources now x ht hg small readable e is_in differs =
      let (m, bytes, _, counted, answer, encoded, stored) =
        merge-commits s s' target sources now x e in
      let before = L.entries s part_access in
      let key = access_key tenant target in
      let so = Sorted-put key bytes before (L.ordered s part_access) in
      let own : lookup key (put key bytes before) ≡ some bytes =
        lookup-put key key bytes before ∙ ground (arith, cmp_bytes_self key) in
      (
        get-lookup-some s' target bytes x readable
            (ap (lookup key) stored
              ∙ removed-kept E L C F tenant m.populated (put key bytes before) target bytes ht hg
                  (λ y j. populated-other s target y sources m small counted j) so own)
            (F x bytes encoded),
        ap (λ (y : AccessStats). y.node_id) answer,
        get-lookup-none s' i readable (
            ap (lookup (access_key tenant i)) stored
            ∙ elim (populated-source s target i sources m counted is_in differs) [
              | inl j ↦ removed-In E L C F tenant m.populated (put key bytes before) i so j
              | inr absent ↦
                  removed-none E L C F tenant m.populated (put key bytes before)
                    (access_key tenant i) so
                    (lookup-put (access_key tenant i) key bytes before
                      ∙ rw (apart (Bool-cases (bytes_eq (access_key tenant i) key)))
                          (lookup-get-none s i absent))
            ]),
      )
    where
      apart :
          (bytes_eq (access_key tenant i) (access_key tenant target) ≡ true)
            ⊎ (bytes_eq (access_key tenant i) (access_key tenant target) ≡ false)
          → bytes_eq (access_key tenant i) (access_key tenant target) ≡ false
      apart (inl same) = absurd (
          differs (
            access_key_inj tenant i target ht (All-In (λ n. n < 2 ^ 128) sources small i is_in) hg
              same))
      apart (inr other) = other
