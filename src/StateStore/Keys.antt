-- ===== src/StateStore/Keys.antt =====
-- crates/mmdb/src/state.rs, `namespace_prefix` and `state_key`: where a value stands in the partition.
use mmdb.Common.{ℕ, ◌+◌, ltb, length, ◌++◌, if◌then◌else◌}
use mmdb.Common.Bytes.{Bytes, to_be_bytes}
use mmdb.Errors.{Error, Result, ok, err, ◌>>=◌}
use mmdb.Words.{usize_max}

unfoldable pub namespace_prefix : ℕ → Bytes → Result Bytes
namespace_prefix tenant namespace =
    if ltb 65535 (length namespace)
    then err (Error.invalid_argument "state namespace is too long")
    else ok (to_be_bytes 4 tenant ++ to_be_bytes 2 (length namespace) ++ namespace)

unfoldable pub state_key : ℕ → Bytes → Bytes → Result Bytes
state_key tenant namespace key = namespace_prefix tenant namespace >>= λ output.
    let encoded_len = length output + length key in
    if ltb usize_max encoded_len
    then err (Error.invalid_argument "state key is too long")
    else if ltb 65535 encoded_len
    then err (Error.invalid_argument "encoded state key exceeds 65535 bytes")
    else ok (output ++ key)
