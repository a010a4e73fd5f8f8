-- ===== src/StateStore/Commit.antt =====
-- crates/mmdb/src/state.rs: what a batch does when it is committed, and that a refused one does nothing.
use mmdb.Common.{
  ℕ, true, false, Option, some, List, [], ◌∷◌, ◌≡◌, refl, sym, ap, fun_ext, ◌∙◌, arith, Bool-cases,
  inl, inr, ◌⊎◌, In, All, suc, String,
}
use mathlib.Core.Path.{subst}
use mmdb.Common.Bytes.{Bytes, bytes_eq, bytes_eq_iff, cmp_bytes_self}
use mmdb.Common.Int.{ℤ}
use mmdb.Errors.{Error, ok, err, bind-ok}
use mmdb.Engine.{Engine}
use mmdb.Engine.Commits.{commit_with-ok, commit_with-err}
use mmdb.Engine.Laws.{IsLawful, written}
use mmdb.StateStore.Keys.{state_key}
use mmdb.StateStore.Entry.{
  StoredValue, NamespacedStateMutation, Serde, Prepared, mutation_key, expected_revision,
  contains_key, check_revision,
}
use mmdb.StateStore.Writes.{
  part_state, prepare, stored_after, fill_batch, prepare_batch, apply_namespaced,
}
use mmdb.StateStore.View.{IsFaithful, IsKept, IsStored, view, view_of, held}
use mmdb.StateStore.Batch.{shown_after, view_after, view-fill_batch}
use mmdb.StateStore.Checked.{Passed, Kept-Passed, prepare-Passed}

module _ (E : Engine) (L : IsLawful E) (C : Serde) (F : IsFaithful C) (tenant : ℕ) where
  -- `m` took effect: its precondition held before, and its value is shown after.
  abbrev pub Applied :
      E.State
      → (Bytes → Option (StoredValue C.Value))
      → ℤ
      → NamespacedStateMutation C.Value
      → Type 0
  Applied s shown now m =
      (key : Bytes) × (state_key tenant m.namespace (mutation_key m.mutation) ≡ ok key)
      × (check_revision (expected_revision m.mutation) (view E L C tenant s key) ≡ ok tt)
      × (shown key ≡ some (stored_after E C tenant now (view E L C tenant s key) m.mutation))

  -- The precondition of `m` holds.
  abbrev pub Checks : E.State → NamespacedStateMutation C.Value → Type 0
  Checks s m =
      (key : Bytes) × (state_key tenant m.namespace (mutation_key m.mutation) ≡ ok key)
      × (check_revision (expected_revision m.mutation) (view E L C tenant s key) ≡ ok tt)

  -- Some mutation of the batch has this key.
  abbrev pub Touches : List (NamespacedStateMutation C.Value) → Bytes → Type 0
  Touches ms k =
      (m : NamespacedStateMutation C.Value) × In m ms
      × (state_key tenant m.namespace (mutation_key m.mutation) ≡ ok k)

  other_key :
      (k j : Bytes) (seen : List Bytes)
      → contains_key k seen ≡ true
      → contains_key j seen ≡ false
      → bytes_eq k j ≡ false
  other_key k j seen c d = elim (Bool-cases (bytes_eq k j)) [
    | inl same ↦
        let equal = (bytes_eq_iff k j).0 same in
        absurd (ground (arith, ap (λ x. contains_key x seen) equal))
    | inr other ↦ other
  ]

  -- A key of the batch so far is not written again.
  view_after-seen :
      (s : E.State) (now : ℤ) (seen : List Bytes) (ms : List (NamespacedStateMutation C.Value))
      (ps : List (Prepared C.Value)) (f : Bytes → Option (StoredValue C.Value)) (k : Bytes)
      → Passed E L C F tenant s seen ms ps
      → contains_key k seen ≡ true
      → view_after E C F tenant now ps f k ≡ f k
  view_after-seen s now seen [] [] f k h c = refl
  view_after-seen s now seen [] (p ∷ ps) f k h c = absurd h
  view_after-seen s now seen (m ∷ ms) [] f k h c = absurd h
  view_after-seen s now seen (m ∷ ms) (p ∷ ps) f k (here, rest) c =
      let f' = shown_after E C F tenant now p f in
      let other : bytes_eq k p.storage_key ≡ false = other_key k p.storage_key seen c here.fresh in
      let later : contains_key k (p.storage_key ∷ seen) ≡ true = ground arith in
      view_after-seen s now (p.storage_key ∷ seen) ms ps f' k rest later ∙ rw other refl

  All-Applied :
      (s : E.State) (now : ℤ) (seen : List Bytes) (ms : List (NamespacedStateMutation C.Value))
      (ps : List (Prepared C.Value)) (f : Bytes → Option (StoredValue C.Value))
      → Passed E L C F tenant s seen ms ps
      → All (Applied s (view_after E C F tenant now ps f) now) ms
  All-Applied s now seen [] [] f h = tt
  All-Applied s now seen [] (p ∷ ps) f h = absurd h
  All-Applied s now seen (m ∷ ms) [] f h = absurd h
  All-Applied s now seen (m ∷ ms) (p ∷ ps) f (here, rest) =
      (applied, All-Applied s now (p.storage_key ∷ seen) ms ps f' rest)
    where
      f' : Bytes → Option (StoredValue C.Value)
      f' = shown_after E C F tenant now p f

      applied : Applied s (view_after E C F tenant now ps f') now m
      applied = (
        p.storage_key,
        here.keyed,
        rw (sym here.current-view) here.expected,
        view_after-seen s now (p.storage_key ∷ seen) ms ps f' p.storage_key rest
              (ground (arith, cmp_bytes_self p.storage_key))
            ∙ rw (cmp_bytes_self p.storage_key) (rw (here.current-view, here.mutation-eq) refl),
      )

  view_after-Touches :
      (s : E.State) (now : ℤ) (seen : List Bytes) (ms : List (NamespacedStateMutation C.Value))
      (ps : List (Prepared C.Value)) (f : Bytes → Option (StoredValue C.Value)) (k : Bytes)
      → Passed E L C F tenant s seen ms ps
      → (view_after E C F tenant now ps f k ≡ f k) ⊎ Touches ms k
  view_after-Touches s now seen [] [] f k h = inl refl
  view_after-Touches s now seen [] (p ∷ ps) f k h = absurd h
  view_after-Touches s now seen (m ∷ ms) [] f k h = absurd h
  view_after-Touches s now seen (m ∷ ms) (p ∷ ps) f k (here, rest) =
      let f' = shown_after E C F tenant now p f in
      elim (view_after-Touches s now (p.storage_key ∷ seen) ms ps f' k rest) [
        | inl same ↦ elim (Bool-cases (bytes_eq k p.storage_key)) [
          | inl key ↦
              let equal = (bytes_eq_iff k p.storage_key).0 key in
              inr (m, (0, refl), rw equal here.keyed)
          | inr other ↦ inl (same ∙ rw other refl)
        ]
        | inr (m', i, keyed) ↦ inr (m', (suc i.0, i.1), keyed)
      ]

  -- What the write of a batch does to the view.
  pub apply_namespaced-effect :
      (s s' : E.State) (ms : List (NamespacedStateMutation C.Value)) (now : ℤ)
      → All (λ m. IsKept F m.mutation) ms
      → apply_namespaced E C tenant s ms now ≡ (s', ok tt)
      → All (Applied s (view E L C tenant s') now) ms
        × ((k : Bytes) → (view E L C tenant s' k ≡ view E L C tenant s k) ⊎ Touches ms k)
        × (IsStored C (held E L C tenant s) → IsStored C (held E L C tenant s'))
  unfolding apply_namespaced prepare_batch
  apply_namespaced-effect s s' ms now kept e =
      let (batch, made, commit) =
        commit_with-ok E L s s' (prepare_batch E C tenant s ms now) tt e in
      let (ps, prepared, made') = bind-ok (prepare E C tenant s [] ms) _ (batch, tt) made in
      let (writes, filled, made'') = bind-ok (fill_batch E C tenant now ps) _ (batch, tt) made' in
      let same : writes ≡ batch = cc in
      let passed = prepare-Passed E L C F tenant s [] ms ps prepared in
      let (shows, stored) =
        view-fill_batch E C F tenant now ps writes (held E L C tenant s)
          (Kept-Passed E L C F tenant s [] ms ps kept passed) filled in
      let entries : held E L C tenant s' ≡ written part_state writes (held E L C tenant s) =
        L.commit-done s s' batch commit part_state ∙ rw same refl in
      let f = view E L C tenant s in
      let after : view E L C tenant s' ≡ view_after E C F tenant now ps f =
        fun_ext (λ k. ap (λ m. view_of C m k) entries ∙ shows k) in
      (
        subst (λ shown. All (Applied s shown now) ms) (sym after)
            (All-Applied s now [] ms ps f passed),
        λ k.
            subst (λ shown. (shown k ≡ f k) ⊎ Touches ms k) (sym after)
              (view_after-Touches s now [] ms ps f k passed),
        rw entries stored,
      )

  -- A refused batch changes no entry of any partition.
  pub apply_namespaced-refuses :
      (s s' : E.State) (ms : List (NamespacedStateMutation C.Value)) (now : ℤ) (e : Error)
      → apply_namespaced E C tenant s ms now ≡ (s', err e)
      → (p : String) → L.entries s' p ≡ L.entries s p
  unfolding apply_namespaced
  apply_namespaced-refuses s s' ms now e h =
      commit_with-err E L s s' (prepare_batch E C tenant s ms now) e h

  All-checked :
      (s : E.State) (seen : List Bytes) (ms : List (NamespacedStateMutation C.Value))
      (ps : List (Prepared C.Value))
      → Passed E L C F tenant s seen ms ps
      → All (Checks s) ms
  All-checked s seen [] [] h = tt
  All-checked s seen [] (p ∷ ps) h = absurd h
  All-checked s seen (m ∷ ms) [] h = absurd h
  All-checked s seen (m ∷ ms) (p ∷ ps) (here, rest) = (
    (p.storage_key, here.keyed, rw (sym here.current-view) here.expected),
    All-checked s (p.storage_key ∷ seen) ms ps rest,
  )

  -- The preconditions of a committed batch held.
  pub apply_namespaced-Checks :
      (s s' : E.State) (ms : List (NamespacedStateMutation C.Value)) (now : ℤ)
      → apply_namespaced E C tenant s ms now ≡ (s', ok tt)
      → All (Checks s) ms
  unfolding apply_namespaced prepare_batch
  apply_namespaced-Checks s s' ms now e =
      let (batch, made, commit) =
        commit_with-ok E L s s' (prepare_batch E C tenant s ms now) tt e in
      let (ps, prepared, _) = bind-ok (prepare E C tenant s [] ms) _ (batch, tt) made in
      All-checked s [] ms ps (prepare-Passed E L C F tenant s [] ms ps prepared)
