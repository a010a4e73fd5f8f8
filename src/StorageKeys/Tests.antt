-- ===== src/StorageKeys/Tests.antt =====
-- The theorems on the keys at small numbers.
use mmdb.Common.{◌≡◌, ◌&&◌, arith, some, not, compare, then_with, leb, ltb, ◌==◌}
use mmdb.Common.Bytes.{cmp_bytes}
use mmdb.Common.Int.{pos, negsuc}
use mmdb.Engine.Laws.{is_below}
use mmdb.StorageKeys.{as_u64, time_key, time_range, id_from_time_key}
use mmdb.StorageKeys.Order.{id_from_time_key-time_key, cmp_bytes-time_key, time_key-time_range}

id_from_time_key-time_key_example : id_from_time_key (time_key 7 (pos 12345) 99) ≡ some 99
id_from_time_key-time_key_example = id_from_time_key-time_key 7 (pos 12345) 99 (omega arith)

-- A time before 1970 sorts behind a later one.
cmp_bytes-time_key_example :
    cmp_bytes (time_key 1 (negsuc 0) 5) (time_key 1 (pos 0) 5)
    ≡ then_with
        (compare 1 1)
        (then_with (compare (as_u64 (negsuc 0)) (as_u64 (pos 0))) (compare 5 5))
unfolding as_u64
cmp_bytes-time_key_example =
    cmp_bytes-time_key 1 1 (negsuc 0) (pos 0) 5 5 (omega arith) (omega arith) (omega arith)
      (omega arith) (omega arith) (omega arith)

time_key-time_range_example :
    not (is_below (time_key 1 (pos 150) 5) (time_range 1 (pos 100) (pos 200)).0)
      && is_below (time_key 1 (pos 150) 5) (time_range 1 (pos 100) (pos 200)).1
    ≡ (1 == 1)
      && (leb (as_u64 (pos 100)) (as_u64 (pos 150)) && ltb (as_u64 (pos 150)) (as_u64 (pos 200)))
unfolding as_u64
time_key-time_range_example =
    time_key-time_range 1 1 (pos 150) (pos 100) (pos 200) 5 (omega arith) (omega arith)
      (omega arith) (omega arith) (omega arith)
