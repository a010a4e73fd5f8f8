-- ===== src/StateStore/Committed.antt =====
-- crates/mmdb/src/state.rs: what a committed batch has checked and what it leaves, written out.
use mmdb.Common.{
  ℕ, suc, min, true, false, Option, none, some, List, ◌≡◌, refl, sym, ap, ◌∙◌, ◌⊎◌, In, All, All-In,
  arith,
}
use mmdb.Common.{All-of_In}
use mmdb.Common.Bytes.{Bytes}
use mmdb.Common.Int.{ℤ}
use mmdb.Errors.{ok}
use mmdb.Words.{usize_max, saturating_add}
use mmdb.Engine.{Engine}
use mmdb.Engine.Laws.{IsLawful}
use mmdb.StateStore.Keys.{state_key}
use mmdb.StateStore.Entry.{
  StoredValue, StateEntry, StateMutation, put_value, delete, NamespacedStateMutation, Serde,
  mutation_key, expected_revision, check_revision, next_revision, actual_revision, live_entry,
}
use mmdb.StateStore.Writes.{get, apply_namespaced, stored_after}
use mmdb.StateStore.View.{IsFaithful, IsKept, IsStored, view, held}
use mmdb.StateStore.Commit.{Applied, Touches, apply_namespaced-effect}
use mmdb.StateStore.Single.{get-apply_namespaced}
use mmdb.StateStore.History.{check-agrees}

-- The revision that a value shows; 0 for no value.
abbrev pub shown_revision : {V : Type 0} → Option (StoredValue V) → ℕ
shown_revision none = 0
shown_revision (some v) = v.revision

-- The revision after one that is shown: one more, up to the largest `u64`.
abbrev pub raised : {V : Type 0} → Option (StoredValue V) → ℕ
raised old = min (suc (shown_revision old)) usize_max

-- The revision that a mutation asks for.
abbrev pub wanted : {V : Type 0} → StateMutation V → Option ℕ
wanted (put_value _ _ expected) = expected
wanted (delete _ expected) = expected

-- A revision is the one that is asked for, if one is.
abbrev pub Meets : Option ℕ → ℕ → Type 0
Meets none r = Unit
Meets (some expected) r = r ≡ expected

module _ (C : Serde) where
  -- A put leaves its value, a deletion a tombstone, at the revision and time given.
  abbrev pub left_behind : ℤ → ℕ → StateMutation C.Value → StoredValue C.Value
  left_behind now r (put_value _ value _) = record {
    value = value;
    revision = r;
    updated_at_ms = now;
    deleted = false;
  }
  left_behind now r (delete _ _) = record {
    value = C.null;
    revision = r;
    updated_at_ms = now;
    deleted = true;
  }

  -- What a caller reads back: the value of a put, and nothing of a deletion.
  abbrev pub read_back : ℤ → ℕ → StateMutation C.Value → Option (StateEntry C.Value)
  read_back now r (put_value key value _) =
      some record { key = key; value = value; revision = r; updated_at_ms = now }
  read_back now r (delete _ _) = none

wanted-expected_revision : {V : Type 0} (m : StateMutation V) → expected_revision m ≡ wanted m
unfolding expected_revision
wanted-expected_revision (put_value _ _ _) = refl
wanted-expected_revision (delete _ _) = refl

next_revision-raised : {V : Type 0} (old : Option (StoredValue V)) → next_revision old ≡ raised old
unfolding next_revision saturating_add
next_revision-raised none = omega arith
next_revision-raised (some v) = omega arith

actual_revision-shown :
    {V : Type 0} (old : Option (StoredValue V)) → actual_revision old ≡ shown_revision old
unfolding actual_revision
actual_revision-shown none = refl
actual_revision-shown (some v) = refl

module _ (E : Engine) (C : Serde) (tenant : ℕ) where
  stored_after-left :
      (now : ℤ) (old : Option (StoredValue C.Value)) (m : StateMutation C.Value)
      → stored_after E C tenant now old m ≡ left_behind C now (raised old) m
  unfolding stored_after
  stored_after-left now old (put_value _ _ _) = rw (next_revision-raised old) refl
  stored_after-left now old (delete _ _) = rw (next_revision-raised old) refl

  live_entry-left :
      (now : ℤ) (r : ℕ) (m : StateMutation C.Value)
      → live_entry (mutation_key m) (some (left_behind C now r m)) ≡ read_back C now r m
  unfolding live_entry mutation_key
  live_entry-left now r (put_value _ _ _) = refl
  live_entry-left now r (delete _ _) = refl

module _ (E : Engine) (L : IsLawful E) (C : Serde) (F : IsFaithful C) (tenant : ℕ) where
  -- `m` took effect: the revision that it asks for was shown before, and its value is shown after.
  abbrev pub Committed :
      E.State
      → (Bytes → Option (StoredValue C.Value))
      → ℤ
      → NamespacedStateMutation C.Value
      → Type 0
  Committed s shown now m =
      (key : Bytes) × (state_key tenant m.namespace (mutation_key m.mutation) ≡ ok key)
      × Meets (wanted m.mutation) (shown_revision (view E L C tenant s key))
      × (shown key ≡ some (left_behind C now (raised (view E L C tenant s key)) m.mutation))

  check_revision-Meets :
      (old : Option (StoredValue C.Value)) (e : Option ℕ)
      → check_revision e old ≡ ok tt
      → Meets e (shown_revision old)
  check_revision-Meets old none checked = tt
  check_revision-Meets old (some r) checked =
      sym (actual_revision-shown old) ∙ check-agrees E L C F tenant old r checked

  Committed-Applied :
      (s : E.State) (shown : Bytes → Option (StoredValue C.Value)) (now : ℤ)
      (m : NamespacedStateMutation C.Value)
      → Applied E L C F tenant s shown now m
      → Committed s shown now m
  Committed-Applied s shown now m (key, keyed, checked, after) =
      let old = view E L C tenant s key in
      (
        key,
        keyed,
        check_revision-Meets old (wanted m.mutation)
            (ap (λ e. check_revision e old) (sym (wanted-expected_revision m.mutation)) ∙ checked),
        after ∙ ap some (stored_after-left E C tenant now old m.mutation),
      )

  -- When a batch of values that the serialization gives back answers Ok, every mutation's key
  -- encodes; the revision that a mutation asks for, if any, is the one shown at that key before, or
  -- 0 where none was; the store shows there afterwards the value of a put, or a tombstone for a
  -- deletion, at the time of the call and one revision higher, up to the largest u64; and a key
  -- that no mutation of the batch encodes to shows what it showed.
  pub apply_namespaced-commits :
      (s s' : E.State) (ms : List (NamespacedStateMutation C.Value)) (now : ℤ)
      → All (λ m. IsKept F m.mutation) ms
      → apply_namespaced E C tenant s ms now ≡ (s', ok tt)
      → All (Committed s (view E L C tenant s') now) ms
        × ((k : Bytes)
            → (view E L C tenant s' k ≡ view E L C tenant s k) ⊎ Touches E L C F tenant ms k)
  apply_namespaced-commits s s' ms now kept e =
      let (applied, others, _) = apply_namespaced-effect E L C F tenant s s' ms now kept e in
      let shown = view E L C tenant s' in
      let A = Applied E L C F tenant s shown now in
      (
        All-of_In (Committed s shown now) ms
            (λ m i. Committed-Applied s shown now m (All-In A ms applied m i)),
        others,
      )

  -- Where the stored values decode and the medium answers afterwards: after a committed batch of
  -- values that the serialization gives back, get at the namespace and key of each of its puts
  -- answers the value, at the time of the call and one revision higher than before, up to the
  -- largest u64, and at those of each deletion nothing.
  pub apply_namespaced-get :
      (s s' : E.State) (ms : List (NamespacedStateMutation C.Value)) (now : ℤ)
      (m : NamespacedStateMutation C.Value)
      → All (λ m. IsKept F m.mutation) ms
      → IsStored C (held E L C tenant s)
      → L.IsReadable s'
      → apply_namespaced E C tenant s ms now ≡ (s', ok tt)
      → In m ms
      → (k : Bytes) × (state_key tenant m.namespace (mutation_key m.mutation) ≡ ok k)
        × (get E C tenant s' m.namespace (mutation_key m.mutation)
            ≡ ok (read_back C now (raised (view E L C tenant s k)) m.mutation))
  apply_namespaced-get s s' ms now m kept stored readable e i =
      let (k, at, read) =
        get-apply_namespaced E L C F tenant s s' ms now m kept stored readable e i in
      let old = view E L C tenant s k in
      (
        k,
        at,
        read
            ∙ ap (λ v. ok (live_entry (mutation_key m.mutation) (some v)))
                (stored_after-left E C tenant now old m.mutation)
            ∙ ap ok (live_entry-left E C tenant now (raised old) m.mutation),
      )
