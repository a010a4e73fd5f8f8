-- ===== src/AccessStore/Recorded.antt =====
-- crates/mmdb/src/access.rs, `record`: the counters that are answered are those that are read back.
use mmdb.Common.{
  ℕ, zero, suc, ◌^◌, ◌<◌, min, true, false, Option, none, some, List, [], ◌∷◌, ◌≡◌, refl, sym, ap,
  ◌∙◌, arith, inl, inr, ◌⊎◌, In, All, Bool-cases, is_eq, compare, then_with,
}
use mathlib.Core.Path.{subst}
use mmdb.Common.Bytes.{
  Bytes, bytes_eq, to_be_bytes, cmp_bytes, cmp_bytes_self, cmp_bytes-field, cmp_bytes-to_be_bytes,
}
use mmdb.Common.Int.{ℤ, le_ℤ}
use mmdb.Words.{usize_max, saturating_add}
use mmdb.Errors.{Result, ok, ◌>>=◌, bind-ok}
use mmdb.Engine.{Engine, Reply, done, json, json-ok, storage, Write, insert}
use mmdb.Engine.Laws.{IsLawful, written}
use mmdb.Engine.Maps.{Entries, lookup, put, lookup-put}
use mmdb.Engine.Commits.{commit_with-ok}
use mmdb.AccessStore.{
  AccessStats, AccessSerde, access_key, accessed, part_access, parse_stats, get, record_loop,
  record_access,
}

abbrev pub IsFaithful : AccessSerde → Type 0
IsFaithful C = (x : AccessStats) (bytes : Bytes) → C.encode x ≡ done bytes → C.decode bytes ≡ done x

pub access_key_inj :
    (t i j : ℕ)
    → t < 2 ^ 32
    → i < 2 ^ 128
    → j < 2 ^ 128
    → bytes_eq (access_key t i) (access_key t j) ≡ true
    → i ≡ j
unfolding access_key
access_key_inj t i j ht hi hj e =
    let compared : cmp_bytes (access_key t i) (access_key t j)
        ≡ then_with (compare t t) (compare i j) =
      cmp_bytes-field 4 t t (to_be_bytes 16 i) (to_be_bytes 16 j) (omega arith) (omega arith)
      ∙ ap (then_with (compare t t)) (cmp_bytes-to_be_bytes 16 i j (omega arith) (omega arith)) in
    let same : is_eq (then_with (compare t t) (compare i j)) ≡ true = sym (ap is_eq compared) ∙ e in
    ground arith

pub ok_inj {ℓ} : {A : Type ℓ} {a b : A} → ◌≡◌ {A = Result A} (ok a) (ok b) → a ≡ b
ok_inj e = cc

done_inj {ℓ} : {A : Type ℓ} {a b : A} → ◌≡◌ {A = Reply A} (done a) (done b) → a ≡ b
done_inj e = cc

pub In-nil {ℓ} : {A : Type ℓ} (x : A) → In x [] → ⊥
In-nil x (t, e) = cc

pub In-cons {ℓ} : {A : Type ℓ} (x y : A) (ys : List A) → In x (y ∷ ys) → (x ≡ y) ⊎ In x ys
In-cons x y ys (zero, e) = inl cc
In-cons x y ys (suc t, e) = inr (t, e)

-- The accesses counted so far; 0 where there is no counter.
abbrev pub count_of : Option AccessStats → ℕ
count_of none = 0
count_of (some x) = x.access_count

-- The time of an access at `now`: the latest of it and the time of the counter.
abbrev pub time_of : Option AccessStats → ℤ → ℤ
time_of none now = now
time_of (some x) now = elim (le_ℤ x.last_accessed_at_ms now) [
  | true ↦ now
  | false ↦ x.last_accessed_at_ms
]

accessed-count :
    (now : ℤ) (n : ℕ) (o : Option AccessStats)
    → (accessed now n o).access_count ≡ min (suc (count_of o)) usize_max
unfolding accessed saturating_add
accessed-count now n none = omega arith
accessed-count now n (some x) = omega arith

accessed-time :
    (now : ℤ) (n : ℕ) (o : Option AccessStats)
    → (accessed now n o).last_accessed_at_ms ≡ time_of o now
unfolding accessed
accessed-time now n none = refl
accessed-time now n (some x) = elim (Bool-cases (le_ℤ x.last_accessed_at_ms now)) [
  | inl later ↦ rw (later, time_of) refl
  | inr earlier ↦ rw (earlier, time_of) refl
]

accessed-node_id : (now : ℤ) (n : ℕ) (o : Option AccessStats) → (accessed now n o).node_id ≡ n
unfolding accessed
accessed-node_id now n none = refl
accessed-node_id now n (some x) = refl

module _ (E : Engine) (L : IsLawful E) (C : AccessSerde) (F : IsFaithful C) (tenant : ℕ) where
  -- What one access of `n` writes.
  record IsWrite (s : E.State) (now : ℤ) (n : ℕ) (x : AccessStats) (bytes : Bytes) : Type 0 where
    old : Option AccessStats
    read : get E C tenant s n ≡ ok old
    counted : x ≡ accessed now n old
    encoded : C.encode x ≡ done bytes

  -- Two accesses of one node in one call write the same.
  IsWrite-same :
      (s : E.State) (now : ℤ) (n : ℕ) (x y : AccessStats) (b c : Bytes)
      → IsWrite s now n x b
      → IsWrite s now n y c
      → b ≡ c
  IsWrite-same s now n x y b c w v =
      let olds : w.old ≡ v.old = ok_inj (sym w.read ∙ v.read) in
      let same : x ≡ y = w.counted ∙ ap (accessed now n) olds ∙ sym v.counted in
      done_inj (sym w.encoded ∙ ap C.encode same ∙ v.encoded)

  record_loop-cons :
      (s : E.State) (now : ℤ) (n : ℕ) (ns : List ℕ) (batch : List Write)
      (updated : List AccessStats)
      → record_loop E C tenant s now (n ∷ ns) ≡ ok (batch, updated)
      → (x : AccessStats) × (bytes : Bytes) × (rest : List Write) × (later : List AccessStats)
        × IsWrite s now n x bytes
        × (record_loop E C tenant s now ns ≡ ok (rest, later))
        × (insert part_access (access_key tenant n) bytes ∷ rest ≡ batch)
        × (x ∷ later ≡ updated)
  unfolding record_loop
  record_loop-cons s now n ns batch updated e =
      let (old, read, e') = bind-ok (get E C tenant s n) _ (batch, updated) e in
      let x = accessed now n old in
      let (bytes, enc, e'') = bind-ok (json (C.encode x)) _ (batch, updated) e' in
      let ((rest, later), looped, e3) =
        bind-ok (record_loop E C tenant s now ns) _ (batch, updated) e'' in
      let whole = ok_inj e3 in
      (
        x,
        bytes,
        rest,
        later,
        record { old = old; read = read; counted = refl; encoded = json-ok (C.encode x) bytes enc },
        looped,
        ap (λ y. y.0) whole,
        ap (λ y. y.1) whole,
      )

  -- The rest of the batch does not change what is written at a key.
  record_loop-keeps :
      (s : E.State) (now : ℤ) (ns : List ℕ) (batch : List Write) (updated : List AccessStats)
      (m : Entries) (n : ℕ) (x : AccessStats) (bytes : Bytes)
      → tenant < 2 ^ 32
      → n < 2 ^ 128
      → All (λ i. i < 2 ^ 128) ns
      → IsWrite s now n x bytes
      → record_loop E C tenant s now ns ≡ ok (batch, updated)
      → lookup (access_key tenant n) m ≡ some bytes
      → lookup (access_key tenant n) (written part_access batch m) ≡ some bytes
  unfolding record_loop written
  record_loop-keeps s now [] batch updated m n x bytes ht hn hs w e at =
      let empty : [] ≡ batch = ap (λ y. y.0) (ok_inj e) in rw (sym empty, written) at
  record_loop-keeps s now (j ∷ ns) batch updated m n x bytes ht hn (hj, hs) w e at =
      let (y, b, rest, later, v, looped, whole, _) = record_loop-cons s now j ns batch updated e in
      let key = access_key tenant n in
      let put_at = lookup-put key (access_key tenant j) b m in
      let here : lookup key (put (access_key tenant j) b m) ≡ some bytes =
        elim (Bool-cases (bytes_eq key (access_key tenant j))) [
          | inl same ↦
              let ids : n ≡ j = access_key_inj tenant n j ht hn hj same in
              let v' : IsWrite s now n y b = subst (λ i. IsWrite s now i y b) (sym ids) v in
              put_at ∙ rw same (ap some (IsWrite-same s now n y x b bytes v' w))
          | inr other ↦ put_at ∙ rw other at
        ] in
      subst (λ l. lookup key (written part_access l m) ≡ some bytes) whole
        (record_loop-keeps s now ns rest later (put (access_key tenant j) b m) n x bytes ht hn hs w
          looped here)

  record_loop-In :
      (s : E.State) (now : ℤ) (ns : List ℕ) (batch : List Write) (updated : List AccessStats)
      (m : Entries) (x : AccessStats)
      → tenant < 2 ^ 32
      → All (λ i. i < 2 ^ 128) ns
      → record_loop E C tenant s now ns ≡ ok (batch, updated)
      → In x updated
      → (n : ℕ) × (bytes : Bytes) × IsWrite s now n x bytes
        × (lookup (access_key tenant n) (written part_access batch m) ≡ some bytes)
  unfolding record_loop written
  record_loop-In s now [] batch updated m x ht hs e (t, at) =
      let empty : [] ≡ updated = ap (λ y. y.1) (ok_inj e) in
      absurd (In-nil x (subst (In x) (sym empty) (t, at)))
  record_loop-In s now (j ∷ ns) batch updated m x ht (hj, hs) e i =
      let (y, b, rest, later, v, looped, whole, list) =
        record_loop-cons s now j ns batch updated e in
      let key = access_key tenant j in
      let m' = put key b m in
      let here : lookup key m' ≡ some b =
        lookup-put key key b m ∙ ground (arith, cmp_bytes_self key) in
      elim (In-cons x y later (subst (In x) (sym list) i)) [
        | inl same ↦ (
          j,
          b,
          subst (λ z. IsWrite s now j z b) (sym same) v,
          subst (λ l. lookup key (written part_access l m) ≡ some b) whole
              (record_loop-keeps s now ns rest later m' j y b ht hj hs v looped here),
        )
        | inr deeper ↦
            let (n, bytes, w, found) =
              record_loop-In s now ns rest later m' x ht hs looped deeper in
            (
              n,
              bytes,
              w,
              subst (λ l. lookup (access_key tenant n) (written part_access l m) ≡ some bytes) whole
                  found,
            )
      ]

  record_access-read :
      (s s' : E.State) (ns : List ℕ) (now : ℤ) (updated : List AccessStats) (x : AccessStats)
      → tenant < 2 ^ 32
      → All (λ i. i < 2 ^ 128) ns
      → L.IsReadable s'
      → record_access E C tenant s ns now ≡ (s', ok updated)
      → In x updated
      → (old : Option AccessStats) × (get E C tenant s x.node_id ≡ ok old)
        × (x ≡ accessed now x.node_id old)
        × (get E C tenant s' x.node_id ≡ ok (some x))
  unfolding record_access get parse_stats
  record_access-read s s' [] now updated x ht hs readable e i =
      let empty : [] ≡ updated = ok_inj (ap (λ y. y.1) e) in
      absurd (In-nil x (subst (In x) (sym empty) i))
  record_access-read s s' (j ∷ ns) now updated x ht hs readable e i =
      let (batch, looped, committed) =
        commit_with-ok E L s s' (record_loop E C tenant s now (j ∷ ns)) updated e in
      let (n, bytes, w, found) =
        record_loop-In s now (j ∷ ns) batch updated (L.entries s part_access) x ht hs looped i in
      let node : x.node_id ≡ n =
        ap (λ (z : AccessStats). z.node_id) w.counted ∙ accessed-node_id now n w.old in
      let key = access_key tenant n in
      let shown : lookup key (L.entries s' part_access) ≡ some bytes =
        rw (L.commit-done s s' batch committed part_access) found in
      let reread : get E C tenant s' n ≡ ok (some x) =
        rw
          (
            L.get-entries s' part_access key readable,
            shown,
            storage,
            ◌>>=◌,
            F x bytes w.encoded,
            json,
          )
          refl in
      (
        w.old,
        ap (get E C tenant s) node ∙ w.read,
        w.counted ∙ ap (λ i. accessed now i w.old) (sym node),
        ap (get E C tenant s') node ∙ reread,
      )

  -- For a tenant below 2^32 and ids below 2^128, where the medium answers afterwards: each counter
  -- that record answers counts one access more than get answered before, up to the largest u64, or
  -- one where it answered none, with the later of the time before and that of the call; and get
  -- answers it afterwards, also where an id is given twice.
  pub get-record_access :
      (s s' : E.State) (ns : List ℕ) (now : ℤ) (updated : List AccessStats) (x : AccessStats)
      → tenant < 2 ^ 32
      → All (λ i. i < 2 ^ 128) ns
      → L.IsReadable s'
      → record_access E C tenant s ns now ≡ (s', ok updated)
      → In x updated
      → (old : Option AccessStats) × (get E C tenant s x.node_id ≡ ok old)
        × (x.access_count ≡ min (suc (count_of old)) usize_max)
        × (x.last_accessed_at_ms ≡ time_of old now)
        × (get E C tenant s' x.node_id ≡ ok (some x))
  get-record_access s s' ns now updated x ht hs readable e i =
      let (old, before, made, after) =
        record_access-read s s' ns now updated x ht hs readable e i in
      (
        old,
        before,
        ap (λ (y : AccessStats). y.access_count) made ∙ accessed-count now x.node_id old,
        ap (λ (y : AccessStats). y.last_accessed_at_ms) made ∙ accessed-time now x.node_id old,
        after,
      )
