-- ===== src/StateStore/History.antt =====
-- crates/mmdb/src/state.rs: the writes of a store as steps, and its revisions along a run of them.
use mmdb.Common.{
  ℕ, ◌≤◌, ◌<◌, suc, min, Option, none, some, List, ◌≡◌, refl, sym, ap, ◌∙◌, inl, inr, In, All,
  All-In, arith, String, ◌≢◌, ==_iff, ◌==◌, Bool-cases,
}
use native.Mathlib.Nat.{le_of_eq}
use mmdb.Common.Bytes.{Bytes}
use mmdb.Common.Int.{ℤ}
use mmdb.Errors.{Error, Result, ok, err, Result-cases}
use mmdb.Words.{usize_max, saturating_add}
use mmdb.Engine.{Engine, Reply, done, failed}
use mmdb.Engine.Maps.{lookup}
use mmdb.Engine.Laws.{IsLawful}
use mmdb.StateStore.Keys.{state_key}
use mmdb.StateStore.Entry.{
  StoredValue, StateMutation, put_value, delete, NamespacedStateMutation, Serde, mutation_key,
  expected_revision, check_revision, next_revision, actual_revision,
}
use mmdb.StateStore.Writes.{part_state, put, apply, in_namespace, apply_namespaced, stored_after}
use mmdb.StateStore.Scan.{prepare_replacement, replace_prefix}
use mmdb.StateStore.View.{IsFaithful, IsKept, decoded, view, view_of, held}
use mmdb.StateStore.Commit.{
  Applied, Checks, apply_namespaced-Checks, apply_namespaced-effect, apply_namespaced-refuses,
}
use mmdb.StateStore.Single.{forget, put-apply}
use mmdb.StateStore.Gets.{All-in_namespace}
use mmdb.StateStore.Listed.{All-prepared}

-- The writing calls, whatever they answer, of values that the serialization gives back.
pub data Step (E : Engine) (C : Serde) (F : IsFaithful C) (tenant : ℕ)
    : E.State → E.State → Type 0 where
  by_put :
      {s s' : E.State} {r : Result ℕ} (namespace key : Bytes) (value : C.Value) (now : ℤ)
      → F.Kept value
      → put E C tenant s namespace key value now ≡ (s', r)
      → Step E C F tenant s s'
  by_batch :
      {s s' : E.State} {r : Result {0} Unit} (ms : List (NamespacedStateMutation C.Value)) (now : ℤ)
      → All (λ m. IsKept F m.mutation) ms
      → apply_namespaced E C tenant s ms now ≡ (s', r)
      → Step E C F tenant s s'
  by_replacement :
      {s s' : E.State} {r : Result {0} Unit} (namespace prefix : Bytes)
      (entries : List (Bytes × C.Value)) (now : ℤ)
      → All (λ e. F.Kept e.1) entries
      → replace_prefix E C tenant s namespace prefix entries now ≡ (s', r)
      → Step E C F tenant s s'

pub data Run (E : Engine) (C : Serde) (F : IsFaithful C) (tenant : ℕ)
    : E.State → E.State → Type 0 where
  rest : {s : E.State} → Run E C F tenant s s
  then_step :
      {s s' s'' : E.State}
      → Step E C F tenant s s'
      → Run E C F tenant s' s''
      → Run E C F tenant s s''

module _ (E : Engine) (L : IsLawful E) (C : Serde) (F : IsFaithful C) (tenant : ℕ) where
  -- The revision that the store shows under a storage key; 0 where it shows nothing.
  abbrev pub revision_at : E.State → Bytes → ℕ
  revision_at s k = actual_revision (view E L C tenant s k)

  decoded-le : (o : Option Bytes) → actual_revision (decoded C o) ≤ usize_max
  unfolding actual_revision
  decoded-le none = omega arith
  decoded-le (some bytes) = go (C.decode bytes) refl
    where
      go :
          (r : Reply (StoredValue C.Value))
          → C.decode bytes ≡ r
          → actual_revision (decoded C (some bytes)) ≤ usize_max
      go (done v) e = rw (e, decoded) (F.revision-le v bytes e)
      go (failed text) e = rw (e, decoded) (omega arith)

  revision_at-le : (s : E.State) (k : Bytes) → revision_at s k ≤ usize_max
  revision_at-le s k = decoded-le (lookup k (held E L C tenant s))

  revision-stored_after :
      (now : ℤ) (old : Option (StoredValue C.Value)) (m : StateMutation C.Value)
      → actual_revision (some (stored_after E C tenant now old m))
        ≡ min (suc (actual_revision old)) usize_max
  unfolding stored_after actual_revision next_revision saturating_add
  revision-stored_after now none (put_value _ _ _) = omega arith
  revision-stored_after now none (delete _ _) = omega arith
  revision-stored_after now (some old) (put_value _ _ _) = omega arith
  revision-stored_after now (some old) (delete _ _) = omega arith

  -- A write of a key raises its revision by one, up to the largest `u64`.
  pub revision_at-written :
      (s s' : E.State) (ms : List (NamespacedStateMutation C.Value)) (now : ℤ)
      (m : NamespacedStateMutation C.Value) (k : Bytes)
      → All (λ m. IsKept F m.mutation) ms
      → apply_namespaced E C tenant s ms now ≡ (s', ok tt)
      → In m ms
      → state_key tenant m.namespace (mutation_key m.mutation) ≡ ok k
      → revision_at s' k ≡ min (suc (revision_at s k)) usize_max
  revision_at-written s s' ms now m k kept e i keyed =
      let (applied, _, _) = apply_namespaced-effect E L C F tenant s s' ms now kept e in
      let (k', at, _, shown) =
        All-In (Applied E L C F tenant s (view E L C tenant s') now) ms applied m i in
      let same : k' ≡ k = cc in
      rw (sym same)
        (ap actual_revision shown ∙ revision-stored_after now (view E L C tenant s k') m.mutation)

  revision_at-apply_namespaced :
      (s s' : E.State) (r : Result {0} Unit) (ms : List (NamespacedStateMutation C.Value)) (now : ℤ)
      (k : Bytes)
      → All (λ m. IsKept F m.mutation) ms
      → apply_namespaced E C tenant s ms now ≡ (s', r)
      → revision_at s k ≤ revision_at s' k
  revision_at-apply_namespaced s s' (err e) ms now k kept at = le_of_eq (
      ap (λ m. actual_revision (view_of C m k))
        (sym (apply_namespaced-refuses E L C F tenant s s' ms now e at part_state)))
  revision_at-apply_namespaced s s' (ok _) ms now k kept at =
      let (_, others, _) = apply_namespaced-effect E L C F tenant s s' ms now kept at in
      elim (others k) [
        | inl same ↦ le_of_eq (ap actual_revision (sym same))
        | inr (m, i, keyed) ↦
            omega (arith, revision_at-written s s' ms now m k kept at i keyed, revision_at-le s k)
      ]

  revision_at-Step :
      (s s' : E.State) (k : Bytes) → Step E C F tenant s s' → revision_at s k ≤ revision_at s' k
  unfolding apply replace_prefix in_namespace
  revision_at-Step s s' k (by_put namespace key value now kept e) =
      revision_at-apply_namespaced s s' _ _ now k (kept, tt)
        (sym (put-apply E C tenant s namespace key value now) ∙ ap (forget E C tenant) e)
  revision_at-Step s s' k (by_batch ms now kept e) =
      revision_at-apply_namespaced s s' _ ms now k kept e
  revision_at-Step s s' k (by_replacement namespace prefix entries now kept e) =
      elim (Result-cases (prepare_replacement E C tenant s namespace prefix entries)) [
        | inl (ms, prepared) ↦
            revision_at-apply_namespaced s s' _ _ now k
              (All-in_namespace E L C F tenant namespace ms
                (All-prepared E L C F tenant s namespace prefix entries ms kept prepared))
              (rw (prepared, replace_prefix, apply) at e)
        | inr (x, refused) ↦
            let same : s ≡ s' = ap (λ q. q.0) (rw (refused, replace_prefix) at e) in
            le_of_eq (ap (λ t. revision_at t k) same)
      ]

  -- Along any run of puts, batches and replacements of values that the serialization gives back,
  -- whatever they answer, the revision that the store shows at a storage key does not fall.
  pub revision_at-Run :
      (s s' : E.State) (k : Bytes) → Run E C F tenant s s' → revision_at s k ≤ revision_at s' k
  revision_at-Run s s' k rest = omega arith
  revision_at-Run s s' k (then_step {s' = t} here later) =
      omega (arith, revision_at-Step s t k here, revision_at-Run t s' k later)

  pub check-agrees :
      (v : Option (StoredValue C.Value)) (r : ℕ)
      → check_revision (some r) v ≡ ok tt
      → actual_revision v ≡ r
  unfolding check_revision
  check-agrees v r e = elim (Bool-cases (actual_revision v == r)) [
    | inl same ↦ (==_iff (actual_revision v) r).0 same
    | inr other ↦ absurd (ground arith)
  ]

  -- A batch with a mutation that expects another revision than the store shows is refused.
  pub apply_namespaced-conflict :
      (s : E.State) (ms : List (NamespacedStateMutation C.Value)) (now : ℤ)
      (m : NamespacedStateMutation C.Value) (k : Bytes) (r : ℕ)
      → In m ms
      → state_key tenant m.namespace (mutation_key m.mutation) ≡ ok k
      → expected_revision m.mutation ≡ some r
      → revision_at s k ≢ r
      → (s' : E.State) × (e : Error) × (apply_namespaced E C tenant s ms now ≡ (s', err e))
        × ((p : String) → L.entries s' p ≡ L.entries s p)
  apply_namespaced-conflict s ms now m k r i keyed expects differs =
      go (apply_namespaced E C tenant s ms now) refl
    where
      go :
          (x : E.State × Result {0} Unit)
          → apply_namespaced E C tenant s ms now ≡ x
          → (s' : E.State) × (e : Error) × (apply_namespaced E C tenant s ms now ≡ (s', err e))
            × ((p : String) → L.entries s' p ≡ L.entries s p)
      go (s', err e) at = (s', e, at, apply_namespaced-refuses E L C F tenant s s' ms now e at)
      go (s', ok _) at =
          let (k', keyed', checked) =
            All-In (Checks E L C F tenant s) ms
              (apply_namespaced-Checks E L C F tenant s s' ms now at) m i in
          let same : k' ≡ k = cc in
          absurd (differs (check-agrees (view E L C tenant s k) r (rw (expects, same) at checked)))

  -- After a committed batch that writes a key whose revision was below the largest u64, and any run
  -- of puts, batches and replacements, all of values that the serialization gives back, a batch
  -- with a mutation of that key that expects a revision not above the one before is refused and
  -- leaves every entry of every partition.
  pub stale-Run :
      (s s' s'' : E.State) (ms ms' : List (NamespacedStateMutation C.Value)) (now now' : ℤ)
      (m m' : NamespacedStateMutation C.Value) (k : Bytes) (r : ℕ)
      → All (λ m. IsKept F m.mutation) ms
      → apply_namespaced E C tenant s ms now ≡ (s', ok tt)
      → In m ms
      → state_key tenant m.namespace (mutation_key m.mutation) ≡ ok k
      → revision_at s k < usize_max
      → Run E C F tenant s' s''
      → In m' ms'
      → state_key tenant m'.namespace (mutation_key m'.mutation) ≡ ok k
      → expected_revision m'.mutation ≡ some r
      → r ≤ revision_at s k
      → (t : E.State) × (e : Error) × (apply_namespaced E C tenant s'' ms' now' ≡ (t, err e))
        × ((p : String) → L.entries t p ≡ L.entries s'' p)
  stale-Run s s' s'' ms ms' now now' m m' k r kept e i keyed room run i' keyed' expects old =
      let written_now = revision_at-written s s' ms now m k kept e i keyed in
      let still = revision_at-Run s' s'' k run in
      apply_namespaced-conflict s'' ms' now' m' k r i' keyed' expects (λ same. omega arith)
