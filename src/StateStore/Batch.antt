-- ===== src/StateStore/Batch.antt =====
-- A batch that is filled from prepared mutations, read back through the view.
use mmdb.Common.{
  ℕ, Option, some, List, [], ◌∷◌, if◌then◌else◌, ◌≡◌, refl, sym, ◌∙◌, arith, Bool-cases, inl, inr,
  All,
}
use mmdb.Common.Bytes.{Bytes, bytes_eq}
use mmdb.Common.Int.{ℤ}
use mmdb.Errors.{ok, bind-ok}
use mmdb.Engine.{Engine, done, json, Write, insert, json-ok}
use mmdb.Engine.Maps.{Entries, lookup, put, lookup-put}
use mmdb.Engine.Laws.{written}
use mmdb.StateStore.Entry.{StoredValue, StateMutation, put_value, delete, Serde, Prepared}
use mmdb.StateStore.Writes.{part_state, stored_after, fill_batch}
use mmdb.StateStore.View.{IsFaithful, IsKept, IsStored, view_of, decoded}

module _ (E : Engine) (C : Serde) (F : IsFaithful C) (tenant : ℕ) where
  abbrev pub shown_after :
      ℤ
      → Prepared C.Value
      → (Bytes → Option (StoredValue C.Value))
      → Bytes
      → Option (StoredValue C.Value)
  shown_after now p f k =
      if bytes_eq k p.storage_key
      then some (stored_after E C tenant now p.current p.mutation)
      else f k

  -- The view after the prepared mutations, one after the other.
  abbrev pub view_after :
      ℤ
      → List (Prepared C.Value)
      → (Bytes → Option (StoredValue C.Value))
      → Bytes
      → Option (StoredValue C.Value)
  view_after now [] f = f
  view_after now (p ∷ ps) f = view_after now ps (shown_after now p f)

  view_of-put :
      (m : Entries) (j bytes : Bytes) (v : StoredValue C.Value)
      → F.Kept v.value
      → C.encode v ≡ done bytes
      → (k : Bytes) → view_of C (put j bytes m) k ≡ (if bytes_eq k j then some v else view_of C m k)
  view_of-put m j bytes v kept e k = elim (Bool-cases (bytes_eq k j)) [
    | inl same ↦
        rw (lookup-put k j bytes m, same, decoded) (rw (F.decode-encode v bytes kept e) refl)
    | inr other ↦ rw (lookup-put k j bytes m, other) refl
  ]

  IsStored-put :
      (m : Entries) (j bytes : Bytes) (v : StoredValue C.Value)
      → F.Kept v.value
      → C.encode v ≡ done bytes
      → IsStored C m
      → IsStored C (put j bytes m)
  IsStored-put m j bytes v kept e h k found at =
      let at' : (if bytes_eq k j then some bytes else lookup k m) ≡ some found =
        sym (lookup-put k j bytes m) ∙ at in
      elim (Bool-cases (bytes_eq k j)) [
        | inl same ↦
            let written_now : bytes ≡ found = ground arith in
            (v, rw (sym written_now) (F.decode-encode v bytes kept e))
        | inr other ↦ h k found (ground arith)
      ]

  view_after_congr :
      (now : ℤ) (ps : List (Prepared C.Value)) (f g : Bytes → Option (StoredValue C.Value))
      → ((k : Bytes) → f k ≡ g k)
      → (k : Bytes) → view_after now ps f k ≡ view_after now ps g k
  view_after_congr now [] f g h k = h k
  view_after_congr now (p ∷ ps) f g h k = view_after_congr now ps _ _ (λ j. rw (h j) refl) k

  stored_after-Kept :
      (now : ℤ) (old : Option (StoredValue C.Value)) (m : StateMutation C.Value)
      → IsKept F m
      → F.Kept (stored_after E C tenant now old m).value
  unfolding stored_after
  stored_after-Kept now old (put_value _ value _) kept = kept
  stored_after-Kept now old (delete _ _) kept = F.null-Kept

  pub view-fill_batch :
      (now : ℤ) (ps : List (Prepared C.Value)) (batch : List Write) (m : Entries)
      → All (λ p. IsKept F p.mutation) ps
      → fill_batch E C tenant now ps ≡ ok batch
      → ((k : Bytes) → view_of C (written part_state batch m) k ≡ view_after now ps (view_of C m) k)
        × (IsStored C m → IsStored C (written part_state batch m))
  unfolding fill_batch written
  view-fill_batch now [] batch m kept e =
      let empty : [] ≡ batch = cc in rw (sym empty, written) (λ k. refl, λ h. h)
  view-fill_batch now (p ∷ ps) batch m (kept, kepts) e =
      let v = stored_after E C tenant now p.current p.mutation in
      let (bytes, encoded, e') = bind-ok (json (C.encode v)) _ batch e in
      let (rest, filled, e'') = bind-ok (fill_batch E C tenant now ps) _ batch e' in
      let whole : insert part_state p.storage_key bytes ∷ rest ≡ batch = cc in
      let here = json-ok (C.encode v) bytes encoded in
      let k_v = stored_after-Kept now p.current p.mutation kept in
      let m' = put p.storage_key bytes m in
      let (shown, stored) = view-fill_batch now ps rest m' kepts filled in
      rw (sym whole) (
        λ k. shown k ∙ view_after_congr now ps _ _ (view_of-put m p.storage_key bytes v k_v here) k,
        λ h. stored (IsStored-put m p.storage_key bytes v k_v here h),
      )
