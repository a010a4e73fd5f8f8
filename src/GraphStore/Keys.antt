-- ===== src/GraphStore/Keys.antt =====
-- crates/mmdb-graph/src/lib.rs: the keys of the partitions and the ranges of the scans.
use Prim.Native.Nat.{bit_xor}
use mmdb.Common.{ℕ, zero, suc, ◌*◌, ◌%◌, ◌^◌, [], ◌∷◌, ◌++◌}
use mmdb.Common.Bytes.{Bytes, to_be_bytes}

-- FNV-1a over 32 bits.
unfoldable pub hash_from : ℕ → Bytes → ℕ
hash_from h [] = h
hash_from h (b ∷ bytes) = hash_from (bit_xor h b * 0x0100_0193 % 2 ^ 32) bytes

unfoldable pub label_hash : Bytes → ℕ
label_hash label = hash_from 0x811C_9DC5 label

unfoldable pub out_key : ℕ → ℕ → ℕ → ℕ → Bytes
out_key tenant src lh dst =
    to_be_bytes 4 tenant ++ (to_be_bytes 16 src ++ (to_be_bytes 4 lh ++ to_be_bytes 16 dst))

unfoldable pub in_key : ℕ → ℕ → ℕ → ℕ → Bytes
in_key tenant dst lh src =
    to_be_bytes 4 tenant ++ (to_be_bytes 16 dst ++ (to_be_bytes 4 lh ++ to_be_bytes 16 src))

-- `[0xff; n]`
abbrev pub sentinel : ℕ → Bytes
sentinel zero = []
sentinel (suc n) = 0xff ∷ sentinel n

unfoldable pub node_range : ℕ → ℕ → Bytes × Bytes
node_range tenant node = (
  to_be_bytes 4 tenant ++ to_be_bytes 16 node,
  to_be_bytes 4 tenant ++ (to_be_bytes 16 node ++ sentinel 20),
)

unfoldable pub label_range : ℕ → ℕ → ℕ → Bytes × Bytes
label_range tenant node lh = (
  to_be_bytes 4 tenant ++ (to_be_bytes 16 node ++ to_be_bytes 4 lh),
  to_be_bytes 4 tenant ++ (to_be_bytes 16 node ++ (to_be_bytes 4 lh ++ sentinel 16)),
)

unfoldable pub label_dict_key : ℕ → ℕ → Bytes → Bytes
label_dict_key tenant lh label = to_be_bytes 4 tenant ++ (to_be_bytes 4 lh ++ label)
