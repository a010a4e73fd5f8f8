-- ===== src/StateStore/Writes.antt =====
-- crates/mmdb/src/state.rs: point reads, `put`, and the batches of `apply` and `apply_namespaced`.
use mmdb.Common.{ℕ, true, false, String, Option, none, some, List, [], ◌∷◌, map, if◌then◌else◌}
use mmdb.Common.Bytes.{Bytes}
use mmdb.Common.Int.{ℤ}
use mmdb.Errors.{Error, Result, ok, err, ◌>>=◌}
use mmdb.Engine.{Engine, storage, json, Write, insert}
use mmdb.Engine.Commits.{commit_with}
use mmdb.StateStore.Keys.{state_key}
use mmdb.StateStore.Entry.{
  StateEntry, StateMutation, put_value, delete, NamespacedStateMutation, StoredValue, Serde,
  Prepared, mutation_key, expected_revision, contains_key, next_revision, check_revision,
  live_entry,
}

abbrev pub part_state : String
part_state = "app_state_v1"

module _ (E : Engine) (C : Serde) (tenant : ℕ) where
  unfoldable pub parse : Option Bytes → Result (Option (StoredValue C.Value))
  parse none = ok none
  parse (some bytes) = json (C.decode bytes) >>= λ stored. ok (some stored)

  unfoldable pub get_stored : E.State → Bytes → Result (Option (StoredValue C.Value))
  get_stored s key = storage (E.get s part_state key) >>= parse

  unfoldable pub get : E.State → Bytes → Bytes → Result (Option (StateEntry C.Value))
  get s namespace key = state_key tenant namespace key >>= λ storage_key.
      get_stored s storage_key >>= λ entry. ok (live_entry key entry)

  unfoldable pub prepare_put : E.State → Bytes → Bytes → C.Value → ℤ → Result (List Write × ℕ)
  prepare_put s namespace key value now = state_key tenant namespace key >>= λ storage_key.
      get_stored s storage_key >>= λ old.
      let stored : StoredValue C.Value = record {
        value = value;
        revision = next_revision old;
        updated_at_ms = now;
        deleted = false;
      } in
      json (C.encode stored) >>= λ bytes.
      ok (insert part_state storage_key bytes ∷ [], next_revision old)

  unfoldable pub put : E.State → Bytes → Bytes → C.Value → ℤ → E.State × Result ℕ
  put s namespace key value now = commit_with E s (prepare_put s namespace key value now)

  unfoldable pub prepare_one :
      E.State → List Bytes → NamespacedStateMutation C.Value → Result (Prepared C.Value)
  prepare_one s seen m = state_key tenant m.namespace (mutation_key m.mutation) >>= λ storage_key.
      if contains_key storage_key seen
      then err (Error.invalid_argument "duplicate state key in batch")
      else get_stored s storage_key >>= λ current.
          check_revision (expected_revision m.mutation) current >>= λ _.
          ok record { storage_key = storage_key; current = current; mutation = m.mutation }

  -- The first loop: `seen` is the keys of the batch so far.
  unfoldable pub prepare :
      E.State
      → List Bytes
      → List (NamespacedStateMutation C.Value)
      → Result (List (Prepared C.Value))
  prepare s seen [] = ok []
  prepare s seen (m ∷ ms) =
      prepare_one s seen m >>= λ p. prepare s (p.storage_key ∷ seen) ms >>= λ ps. ok (p ∷ ps)

  unfoldable pub stored_after :
      ℤ → Option (StoredValue C.Value) → StateMutation C.Value → StoredValue C.Value
  stored_after now current (put_value _ value _) = record {
    value = value;
    revision = next_revision current;
    updated_at_ms = now;
    deleted = false;
  }
  stored_after now current (delete _ _) = record {
    value = C.null;
    revision = next_revision current;
    updated_at_ms = now;
    deleted = true;
  }

  -- The second loop, which fills the batch.
  unfoldable pub fill_batch : ℤ → List (Prepared C.Value) → Result (List Write)
  fill_batch now [] = ok []
  fill_batch now (p ∷ ps) = json (C.encode (stored_after now p.current p.mutation)) >>= λ bytes.
      fill_batch now ps >>= λ batch. ok (insert part_state p.storage_key bytes ∷ batch)

  unfoldable pub prepare_batch :
      E.State → List (NamespacedStateMutation C.Value) → ℤ → Result {0} (List Write × Unit)
  prepare_batch s ms now =
      prepare s [] ms >>= λ prepared. fill_batch now prepared >>= λ batch. ok (batch, tt)

  unfoldable pub apply_namespaced :
      E.State → List (NamespacedStateMutation C.Value) → ℤ → E.State × Result {0} Unit
  apply_namespaced s ms now = commit_with E s (prepare_batch s ms now)

  unfoldable pub in_namespace :
      Bytes → List (StateMutation C.Value) → List (NamespacedStateMutation C.Value)
  in_namespace namespace = map (λ m. record { namespace = namespace; mutation = m })

  unfoldable pub apply :
      E.State → Bytes → List (StateMutation C.Value) → ℤ → E.State × Result {0} Unit
  apply s namespace ms now = apply_namespaced s (in_namespace namespace ms) now
