-- ===== src/StateStore/Single.antt =====
-- crates/mmdb/src/state.rs: `put` is a batch of one mutation, and what `get` reads after it.
use mmdb.Common.{
  ℕ, false, none, some, List, [], ◌∷◌, ◌≡◌, refl, sym, ap, ◌∙◌, inl, inr, In, All, All-In,
}
use mmdb.Common.Bytes.{Bytes}
use mmdb.Common.Int.{ℤ}
use mmdb.Errors.{Result, ok, err, bind-ok, Result-cases, ◌>>=◌}
use mmdb.Engine.{Engine, Reply, done, failed, Write, json}
use mmdb.Engine.Commits.{committed, commit_with, commit_with-ok}
use mmdb.Engine.Laws.{IsLawful}
use mmdb.StateStore.Keys.{state_key}
use mmdb.StateStore.Entry.{
  StoredValue, put_value, NamespacedStateMutation, Serde, mutation_key, expected_revision,
  check_revision, next_revision, live_entry,
}
use mmdb.StateStore.Writes.{
  get_stored, get, put, apply, in_namespace, prepare_put, prepare, prepare_one, stored_after,
  fill_batch, prepare_batch, apply_namespaced,
}
use mmdb.StateStore.View.{
  IsFaithful, IsKept, IsSound, IsStored, held, view, get_stored-view, get_stored-answers,
}
use mmdb.StateStore.Commit.{Applied, apply_namespaced-effect}

-- An answer forgotten.
abbrev pub discard {ℓ} : {A : Type ℓ} → Result A → Result {0} Unit
discard (ok _) = ok tt
discard (err e) = err e

module _ (E : Engine) (C : Serde) (tenant : ℕ) where
  abbrev pub forget : {A : Type 0} → E.State × Result A → E.State × Result {0} Unit
  forget (s, r) = (s, discard r)

  abbrev batch_of : {A : Type 0} → Result (List Write × A) → Result {0} (List Write × Unit)
  batch_of (ok (batch, _)) = ok (batch, tt)
  batch_of (err e) = err e

  forget-committed :
      {A : Type 0} (x : E.State × Reply {0} Unit) (a : A)
      → forget (committed E x a) ≡ committed E x tt
  forget-committed (s, done _) a = refl
  forget-committed (s, failed text) a = refl

  forget-commit_with :
      {A : Type 0} (s : E.State) (r : Result (List Write × A))
      → forget (commit_with E s r) ≡ commit_with E s (batch_of r)
  unfolding commit_with
  forget-commit_with s (ok (batch, a)) = forget-committed (E.commit s batch) a
  forget-commit_with s (err e) = refl

  batch_of-prepare_put :
      (s : E.State) (namespace key : Bytes) (value : C.Value) (now : ℤ)
      → batch_of (prepare_put E C tenant s namespace key value now)
        ≡ prepare_batch E C tenant s
            (in_namespace E C tenant namespace (put_value key value none ∷ []))
            now
  unfolding prepare_put prepare_batch in_namespace prepare prepare_one mutation_key
      expected_revision check_revision fill_batch stored_after
  batch_of-prepare_put s namespace key value now =
      elim (Result-cases (state_key tenant namespace key)) [
        | inl (k, at) ↦
            rw (at, ◌>>=◌)
              (elim (Result-cases (get_stored E C tenant s k)) [
                | inl (old, read) ↦
                    let v : StoredValue C.Value = record {
                      value = value;
                      revision = next_revision old;
                      updated_at_ms = now;
                      deleted = false;
                    } in
                    rw (read, ◌>>=◌)
                      (elim (Result-cases (json (C.encode v))) [
                        | inl (bytes, encoded) ↦ rw encoded refl
                        | inr (e, refused) ↦ rw refused refl
                      ])
                | inr (e, lost) ↦ rw lost refl
              ])
        | inr (e, refused) ↦ rw refused refl
      ]

  pub put-apply :
      (s : E.State) (namespace key : Bytes) (value : C.Value) (now : ℤ)
      → forget (put E C tenant s namespace key value now)
        ≡ apply E C tenant s namespace (put_value key value none ∷ []) now
  unfolding put apply apply_namespaced
  put-apply s namespace key value now =
      forget-commit_with s (prepare_put E C tenant s namespace key value now)
      ∙ ap (commit_with E s) (batch_of-prepare_put s namespace key value now)

module _ (E : Engine) (L : IsLawful E) (C : Serde) (F : IsFaithful C) (tenant : ℕ) where
  pub get-view :
      (s : E.State) (namespace key k : Bytes)
      → state_key tenant namespace key ≡ ok k
      → IsSound E L C tenant s
      → get E C tenant s namespace key ≡ ok (live_entry key (view E L C tenant s k))
  unfolding get
  get-view s namespace key k at sound =
      rw (at, ◌>>=◌) (rw (get_stored-view E L C tenant s k sound) refl)

  -- After a committed batch, `get` at the key of each mutation answers what was stored there.
  pub get-apply_namespaced :
      (s s' : E.State) (ms : List (NamespacedStateMutation C.Value)) (now : ℤ)
      (m : NamespacedStateMutation C.Value)
      → All (λ m. IsKept F m.mutation) ms
      → IsStored C (held E L C tenant s)
      → L.IsReadable s'
      → apply_namespaced E C tenant s ms now ≡ (s', ok tt)
      → In m ms
      → (k : Bytes) × (state_key tenant m.namespace (mutation_key m.mutation) ≡ ok k)
        × (get E C tenant s' m.namespace (mutation_key m.mutation)
            ≡ ok (
                live_entry
                  (mutation_key m.mutation)
                  (some (stored_after E C tenant now (view E L C tenant s k) m.mutation))))
  get-apply_namespaced s s' ms now m kept stored readable e i =
      let (applied, others, still) = apply_namespaced-effect E L C F tenant s s' ms now kept e in
      let (k, at, _, shown) =
        All-In (Applied E L C F tenant s (view E L C tenant s') now) ms applied m i in
      (
        k,
        at,
        get-view s' m.namespace (mutation_key m.mutation) k at (readable, still stored)
            ∙ rw shown refl,
      )

  put-revision :
      (s s' : E.State) (namespace key k : Bytes) (value : C.Value) (now : ℤ) (r : ℕ)
      → state_key tenant namespace key ≡ ok k
      → put E C tenant s namespace key value now ≡ (s', ok r)
      → r ≡ next_revision (view E L C tenant s k)
  unfolding put prepare_put
  put-revision s s' namespace key k value now r at e =
      let (batch, made, _) =
        commit_with-ok E L s s' (prepare_put E C tenant s namespace key value now) r e in
      let (old, read, made') =
        bind-ok (get_stored E C tenant s k) _ (batch, r) (rw (at, ◌>>=◌) at made) in
      let (bytes, _, made'') = bind-ok (json (C.encode _)) _ (batch, r) made' in
      let seen = get_stored-answers E L C tenant s k old read in
      let answer : next_revision old ≡ r = cc in sym answer ∙ ap next_revision seen

  -- Where the stored values decode, the medium answers afterwards and the serialization gives the
  -- value back: after put answers a revision, get at the same namespace and key answers the value
  -- with that revision and the time of the call.
  pub get-put :
      (s s' : E.State) (namespace key : Bytes) (value : C.Value) (now : ℤ) (r : ℕ)
      → F.Kept value
      → IsStored C (held E L C tenant s)
      → L.IsReadable s'
      → put E C tenant s namespace key value now ≡ (s', ok r)
      → get E C tenant s' namespace key
        ≡ ok (some record { key = key; value = value; revision = r; updated_at_ms = now })
  unfolding apply in_namespace mutation_key stored_after live_entry
  get-put s s' namespace key value now r kept stored readable e =
      let applied =
        sym (put-apply E C tenant s namespace key value now) ∙ ap (forget E C tenant) e in
      let (k, at, read) =
        get-apply_namespaced s s' _ now _ (kept, tt) stored readable applied (0, refl) in
      let revision = put-revision s s' namespace key k value now r at e in
      read ∙ rw (sym revision) refl
