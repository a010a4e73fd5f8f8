-- ===== src/StateStore/Entry.antt =====
-- crates/mmdb/src/state.rs: the data of the store, and what its operations read of one value.
use Prim.Native.String.{◌++◌ as text_append}
use mmdb.Common.{ℕ, Bool, Option, none, some, List, any, ◌==◌, if◌then◌else◌}
use mmdb.Common.Bytes.{Bytes, bytes_eq}
use mmdb.Common.Int.{ℤ}
use mmdb.Errors.{Error, Result, ok, err}
use mmdb.Words.{saturating_add, show_u64}
use mmdb.Engine.{Reply}

pub record StateEntry (V : Type 0) : Type 0 where
  pub key : Bytes
  pub value : V
  pub revision : ℕ
  pub updated_at_ms : ℤ

pub data StateMutation (V : Type 0) : Type 0 where
  put_value : Bytes → V → Option ℕ → StateMutation V
  delete : Bytes → Option ℕ → StateMutation V

pub record NamespacedStateMutation (V : Type 0) : Type 0 where
  pub namespace : Bytes
  pub mutation : StateMutation V

pub record StoredValue (V : Type 0) : Type 0 where
  pub value : V
  pub revision : ℕ
  pub updated_at_ms : ℤ
  pub deleted : Bool

-- serde_json: its values, and `to_vec` and `from_slice` at `StoredValue`.
pub record Serde : Type 1 where
  pub Value : Type 0
  pub null : Value
  pub encode : StoredValue Value → Reply Bytes
  pub decode : Bytes → Reply {0} (StoredValue Value)

abbrev conflict : ℕ → ℕ → Error
conflict expected actual = Error.invalid_argument (
    text_append "state revision conflict: expected "
      (text_append (show_u64 expected) (text_append ", found " (show_u64 actual))))

-- The key of a mutation and the revision it expects.
unfoldable pub mutation_key : {V : Type 0} → StateMutation V → Bytes
mutation_key (put_value key _ _) = key
mutation_key (delete key _) = key

unfoldable pub expected_revision : {V : Type 0} → StateMutation V → Option ℕ
expected_revision (put_value _ _ expected) = expected
expected_revision (delete _ expected) = expected

abbrev pub contains_key : Bytes → List Bytes → Bool
contains_key k = any (bytes_eq k)

-- The revision that a write gives.
unfoldable pub next_revision : {V : Type 0} → Option (StoredValue V) → ℕ
next_revision none = 1
next_revision (some stored) = saturating_add stored.revision 1

-- The revision that a precondition is compared with.
unfoldable pub actual_revision : {V : Type 0} → Option (StoredValue V) → ℕ
actual_revision none = 0
actual_revision (some stored) = stored.revision

unfoldable pub check_revision : {V : Type 0} → Option ℕ → Option (StoredValue V) → Result {0} Unit
check_revision none current = ok tt
check_revision (some expected) current =
    if actual_revision current == expected
    then ok tt
    else err (conflict expected (actual_revision current))

-- What a caller sees of a stored value: a tombstone is nothing.
unfoldable pub live_entry : {V : Type 0} → Bytes → Option (StoredValue V) → Option (StateEntry V)
live_entry key none = none
live_entry key (some stored) =
    if stored.deleted
    then none
    else some record {
      key = key;
      value = stored.value;
      revision = stored.revision;
      updated_at_ms = stored.updated_at_ms;
    }

-- A mutation that the checks let pass, with what the store holds at its key.
pub record Prepared (V : Type 0) : Type 0 where
  pub storage_key : Bytes
  pub current : Option (StoredValue V)
  pub mutation : StateMutation V
