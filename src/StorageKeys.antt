-- ===== src/StorageKeys.antt =====
-- crates/mmdb-storage/src/keys.rs: the keys of the node partitions. A `Ulid` is its number, a `u128`.
pub mod Order
mod Tests
use mmdb.Common.{
  ℕ, ◌+◌, ◌-◌, ◌*◌, ◌^◌, List, [], ◌∷◌, ◌++◌, Option, none, some, length, take, drop, ◌==◌, not,
  if◌then◌else◌,
}
use mmdb.Common.Bytes.{Bytes, to_be_bytes, from_be_bytes}
use mmdb.Common.Int.{ℤ, pos, negsuc}

-- `as u64` of an `i64`.
unfoldable pub as_u64 : ℤ → ℕ
as_u64 (pos n) = n
as_u64 (negsuc n) = 2 ^ 64 - 1 - n

unfoldable pub node_key : ℕ → ℕ → Bytes
node_key tenant id = to_be_bytes 4 tenant ++ to_be_bytes 16 id

unfoldable pub time_key : ℕ → ℤ → ℕ → Bytes
time_key tenant ts_ms id =
    to_be_bytes 4 tenant ++ (to_be_bytes 8 (as_u64 ts_ms) ++ to_be_bytes 16 id)

unfoldable pub kind_key : ℕ → ℕ → ℤ → ℕ → Bytes
kind_key tenant kind ts_ms id =
    to_be_bytes 4 tenant ++ (kind ∷ (to_be_bytes 8 (as_u64 ts_ms) ++ to_be_bytes 16 id))

unfoldable pub time_range : ℕ → ℤ → ℤ → Bytes × Bytes
time_range tenant from_ms to_ms = (
  to_be_bytes 4 tenant ++ to_be_bytes 8 (as_u64 from_ms),
  to_be_bytes 4 tenant ++ to_be_bytes 8 (as_u64 to_ms),
)

unfoldable pub id_from_time_key : Bytes → Option ℕ
id_from_time_key k =
    if not (length k == 4 + 8 + 16) then none else some (from_be_bytes (take 16 (drop 12 k)))
