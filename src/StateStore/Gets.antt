-- ===== src/StateStore/Gets.antt =====
-- crates/mmdb/src/state.rs: what `get` answers after a batch in one namespace.
use mmdb.Common.{ℕ, none, some, List, [], ◌∷◌, All, ◌≡◌, In, map-In}
use mmdb.Common.Bytes.{Bytes}
use mmdb.Common.Int.{ℤ}
use mmdb.Errors.{ok}
use mmdb.Engine.{Engine}
use mmdb.Engine.Laws.{IsLawful}
use mmdb.StateStore.Keys.{state_key}
use mmdb.StateStore.Entry.{StateMutation, put_value, delete, Serde, live_entry, mutation_key}
use mmdb.StateStore.Writes.{get, apply, in_namespace, stored_after}
use mmdb.StateStore.View.{IsFaithful, IsKept, IsStored, view, held}
use mmdb.StateStore.Single.{get-apply_namespaced}

module _ (E : Engine) (L : IsLawful E) (C : Serde) (F : IsFaithful C) (tenant : ℕ) where
  pub All-in_namespace :
      (namespace : Bytes) (ms : List (StateMutation C.Value))
      → All (IsKept F) ms
      → All (λ m. IsKept F m.mutation) (in_namespace E C tenant namespace ms)
  unfolding in_namespace
  All-in_namespace namespace [] h = tt
  All-in_namespace namespace (m ∷ ms) (h, hs) = (h, All-in_namespace namespace ms hs)

  -- The answer of `get` after a mutation of the batch.
  pub apply-get :
      (s s' : E.State) (namespace : Bytes) (ms : List (StateMutation C.Value)) (now : ℤ)
      (m : StateMutation C.Value)
      → All (IsKept F) ms
      → IsStored C (held E L C tenant s)
      → L.IsReadable s'
      → apply E C tenant s namespace ms now ≡ (s', ok tt)
      → In m ms
      → (k : Bytes) × (state_key tenant namespace (mutation_key m) ≡ ok k)
        × (get E C tenant s' namespace (mutation_key m)
            ≡ ok (
                live_entry
                  (mutation_key m)
                  (some (stored_after E C tenant now (view E L C tenant s k) m))))
  unfolding apply in_namespace
  apply-get s s' namespace ms now m kept stored readable e i =
      get-apply_namespaced E L C F tenant s s' _ now record { namespace = namespace; mutation = m }
        (All-in_namespace namespace ms kept) stored readable e (map-In _ ms m i)

  pub put-get :
      (s s' : E.State) (namespace : Bytes) (ms : List (StateMutation C.Value)) (now : ℤ)
      (key : Bytes) (value : C.Value)
      → All (IsKept F) ms
      → IsStored C (held E L C tenant s)
      → L.IsReadable s'
      → apply E C tenant s namespace ms now ≡ (s', ok tt)
      → In (put_value key value none) ms
      → (r : ℕ) × (get E C tenant s' namespace key
          ≡ ok (some record { key = key; value = value; revision = r; updated_at_ms = now }))
  unfolding mutation_key stored_after live_entry
  put-get s s' namespace ms now key value kept stored readable e i =
      let (k, _, read) =
        apply-get s s' namespace ms now (put_value key value none) kept stored readable e i in
      (_, read)

  pub delete-get :
      (s s' : E.State) (namespace : Bytes) (ms : List (StateMutation C.Value)) (now : ℤ)
      (key : Bytes)
      → All (IsKept F) ms
      → IsStored C (held E L C tenant s)
      → L.IsReadable s'
      → apply E C tenant s namespace ms now ≡ (s', ok tt)
      → In (delete key none) ms
      → get E C tenant s' namespace key ≡ ok none
  unfolding mutation_key stored_after live_entry
  delete-get s s' namespace ms now key kept stored readable e i =
      let (k, _, read) =
        apply-get s s' namespace ms now (delete key none) kept stored readable e i in
      read
