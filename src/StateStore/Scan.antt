-- ===== src/StateStore/Scan.antt =====
-- crates/mmdb/src/state.rs: `scan_prefix`, `scan_prefix_after` and `replace_prefix`.
use mmdb.Common.{
  ℕ, Bool, true, false, not, Option, none, some, List, [], ◌∷◌, ◌++◌, map, filter, is_gt, drop,
  length, leb, ◌==◌, if◌then◌else◌,
}
use mmdb.Common.Bytes.{Bytes, cmp_bytes, starts_with}
use mmdb.Common.Int.{ℤ}
use mmdb.Errors.{Error, Result, ok, err, ◌>>=◌}
use mmdb.Words.{usize_max}
use mmdb.Engine.{Engine, Reply, storage, json}
use mmdb.StateStore.Keys.{state_key, namespace_prefix}
use mmdb.StateStore.Entry.{
  StateEntry, StateMutation, put_value, delete, StoredValue, Serde, contains_key,
}
use mmdb.StateStore.Writes.{part_state, apply}

-- `scan_prefix_after` skips the keys up to its cursor.
abbrev pub is_past : Option Bytes → Bytes → Bool
is_past none key = true
is_past (some cursor) key = is_gt (cmp_bytes key cursor)

-- `transpose` of the optional cursor's key.
unfoldable pub cursor_key : ℕ → Bytes → Option Bytes → Result (Option Bytes)
cursor_key tenant namespace none = ok none
cursor_key tenant namespace (some cursor) =
    state_key tenant namespace cursor >>= λ key. ok (some key)

unfoldable pub is_outside : Option Bytes → Bytes → Bool
is_outside none prefix = false
is_outside (some cursor) prefix = not (starts_with cursor prefix)

-- The keys of the replacements, each under the prefix and none twice.
unfoldable pub replacement_keys :
    {V : Type 0} → Bytes → List Bytes → List (Bytes × V) → Result (List Bytes)
replacement_keys prefix seen [] = ok seen
replacement_keys prefix seen ((key, _) ∷ entries) =
    if not (starts_with key prefix)
    then err (Error.invalid_argument "replacement state key is outside the requested prefix")
    else if contains_key key seen
    then err (Error.invalid_argument "duplicate replacement state key")
    else replacement_keys prefix (key ∷ seen) entries

module _ (E : Engine) (C : Serde) (tenant : ℕ) where
  -- The entry of one item, without the `skip` bytes of its namespace; a tombstone is nothing.
  unfoldable pub visible : ℕ → Bytes → StoredValue C.Value → Option (StateEntry C.Value)
  visible skip key stored =
      if stored.deleted
      then none
      else some record {
        key = drop skip key;
        value = stored.value;
        revision = stored.revision;
        updated_at_ms = stored.updated_at_ms;
      }

  -- The loop of `scan_prefix`, with the entries so far.
  unfoldable pub prefix_loop :
      ℕ
      → ℕ
      → List (StateEntry C.Value)
      → List (Reply {0} (Bytes × Bytes))
      → Result (List (StateEntry C.Value))
  prefix_loop skip limit entries [] = ok entries
  prefix_loop skip limit entries (item ∷ items) = storage item >>= λ (key, bytes).
      json (C.decode bytes) >>= λ stored. elim (visible skip key stored) [
        | none ↦ prefix_loop skip limit entries items
        | some entry ↦
            let pushed = entries ++ entry ∷ [] in
            elim (leb limit (length pushed)) [
              | true ↦ ok pushed
              | false ↦ prefix_loop skip limit pushed items
            ]
      ]

  unfoldable pub scan_prefix : E.State → Bytes → Bytes → ℕ → Result (List (StateEntry C.Value))
  scan_prefix s namespace prefix limit =
      if limit == 0
      then ok []
      else namespace_prefix tenant namespace >>= λ of_namespace.
          state_key tenant namespace prefix >>= λ storage_prefix.
          prefix_loop (length of_namespace) limit [] (E.prefix s part_state storage_prefix)

  -- The loop of `scan_prefix_after`.
  unfoldable pub after_loop :
      Bytes
      → Option Bytes
      → ℕ
      → ℕ
      → List (StateEntry C.Value)
      → List (Reply {0} (Bytes × Bytes))
      → Result (List (StateEntry C.Value))
  after_loop under cursor skip limit entries [] = ok entries
  after_loop under cursor skip limit entries (item ∷ items) = storage item >>= λ (key, bytes).
      elim (starts_with key under) [
        | false ↦ ok entries
        | true ↦ elim (is_past cursor key) [
          | false ↦ after_loop under cursor skip limit entries items
          | true ↦ json (C.decode bytes) >>= λ stored. elim (visible skip key stored) [
            | none ↦ after_loop under cursor skip limit entries items
            | some entry ↦
                let pushed = entries ++ entry ∷ [] in
                elim (leb limit (length pushed)) [
                  | true ↦ ok pushed
                  | false ↦ after_loop under cursor skip limit pushed items
                ]
          ]
        ]
      ]

  abbrev pub start_of : Option Bytes → Bytes → Bytes
  start_of none storage_prefix = storage_prefix
  start_of (some cursor) storage_prefix = cursor

  unfoldable pub scan_prefix_after :
      E.State → Bytes → Bytes → Option Bytes → ℕ → Result (List (StateEntry C.Value))
  scan_prefix_after s namespace prefix after_exclusive limit =
      if limit == 0
      then ok []
      else if is_outside after_exclusive prefix
      then err (Error.invalid_argument "state scan cursor is outside the requested prefix")
      else namespace_prefix tenant namespace >>= λ of_namespace.
          state_key tenant namespace prefix >>= λ storage_prefix.
          cursor_key tenant namespace after_exclusive >>= λ after_storage.
          after_loop storage_prefix after_storage (length of_namespace) limit []
            (E.range_from s part_state (start_of after_storage storage_prefix))

  -- The batch of `replace_prefix`: a deletion of each entry that is not replaced, then the puts.
  unfoldable pub replacement :
      List Bytes → List (StateEntry C.Value) → List (Bytes × C.Value) → List (StateMutation C.Value)
  replacement keys existing entries =
      map (λ e. delete e.key none) (filter (λ e. not (contains_key e.key keys)) existing)
      ++ map (λ (key, value). put_value key value none) entries

  unfoldable pub prepare_replacement :
      E.State → Bytes → Bytes → List (Bytes × C.Value) → Result (List (StateMutation C.Value))
  prepare_replacement s namespace prefix entries = replacement_keys prefix [] entries >>= λ keys.
      scan_prefix s namespace prefix usize_max >>= λ existing.
      ok (replacement keys existing entries)

  unfoldable pub replace_prefix :
      E.State → Bytes → Bytes → List (Bytes × C.Value) → ℤ → E.State × Result {0} Unit
  replace_prefix s namespace prefix entries now =
      elim (prepare_replacement s namespace prefix entries) [
        | err e ↦ (s, err e)
        | ok mutations ↦ apply E C tenant s namespace mutations now
      ]
