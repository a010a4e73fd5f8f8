-- ===== src/StorageKeys/Order.antt =====
-- crates/mmdb-storage/src/keys.rs: what the keys give back, and how they sort.
use mmdb.Common.{
  ℕ, ◌^◌, ◌<◌, [], ◌++◌, some, ◌≡◌, ap, ap₂, ◌∙◌, true, false, arith, compare, Ordering, then_with,
  Bool, not, ◌&&◌, leb, ltb, ◌==◌,
}
use mmdb.Common.Bytes.{
  cmp_bytes-field, to_be_bytes, cmp_bytes, from_be_bytes-to_be_bytes, cmp_bytes-to_be_bytes,
}
use mmdb.Common.Int.{ℤ}
use mmdb.Engine.Laws.{is_below}
use mmdb.StorageKeys.{as_u64, time_key, time_range, id_from_time_key}

pub id_from_time_key-time_key :
    (tenant : ℕ) (ts_ms : ℤ) (id : ℕ)
    → id < 2 ^ 128
    → id_from_time_key (time_key tenant ts_ms id) ≡ some id
unfolding id_from_time_key time_key
id_from_time_key-time_key tenant ts_ms id h =
    ap some (from_be_bytes-to_be_bytes 16 id (omega arith))

pub cmp_bytes-time_key :
    (t t' : ℕ) (a b : ℤ) (i j : ℕ)
    → t < 2 ^ 32
    → t' < 2 ^ 32
    → as_u64 a < 2 ^ 64
    → as_u64 b < 2 ^ 64
    → i < 2 ^ 128
    → j < 2 ^ 128
    → cmp_bytes (time_key t a i) (time_key t' b j)
      ≡ then_with (compare t t') (then_with (compare (as_u64 a) (as_u64 b)) (compare i j))
unfolding time_key
cmp_bytes-time_key t t' a b i j ht ht' ha hb hi hj =
    cmp_bytes-field 4 t t' (to_be_bytes 8 (as_u64 a) ++ to_be_bytes 16 i)
      (to_be_bytes 8 (as_u64 b) ++ to_be_bytes 16 j) (omega arith) (omega arith)
    ∙ ap (then_with (compare t t')) (
        cmp_bytes-field 8 (as_u64 a) (as_u64 b) (to_be_bytes 16 i) (to_be_bytes 16 j) (omega arith)
          (omega arith))
    ∙ ap (λ o. then_with (compare t t') (then_with (compare (as_u64 a) (as_u64 b)) o))
        (cmp_bytes-to_be_bytes 16 i j (omega arith) (omega arith))

-- A key against a bound, which has no id: the id never decides.
cmp_bytes-bound :
    (t t' : ℕ) (a b : ℤ) (i : ℕ)
    → t < 2 ^ 32
    → t' < 2 ^ 32
    → as_u64 a < 2 ^ 64
    → as_u64 b < 2 ^ 64
    → cmp_bytes (time_key t a i) (to_be_bytes 4 t' ++ to_be_bytes 8 (as_u64 b))
      ≡ then_with (compare t t') (then_with (compare (as_u64 a) (as_u64 b)) Ordering.gt)
unfolding time_key
cmp_bytes-bound t t' a b i ht ht' ha hb =
    cmp_bytes-field 4 t t' (to_be_bytes 8 (as_u64 a) ++ to_be_bytes 16 i) (to_be_bytes 8 (as_u64 b))
      (omega arith) (omega arith)
    ∙ ap (then_with (compare t t'))
        (cmp_bytes-field 8 (as_u64 a) (as_u64 b) (to_be_bytes 16 i) [] (omega arith) (omega arith))

abbrev is_lt : Ordering → Bool
is_lt Ordering.lt = true
is_lt _ = false

between :
    (t' t n lo hi : ℕ)
    → not (is_lt (then_with (compare t' t) (then_with (compare n lo) Ordering.gt)))
        && is_lt (then_with (compare t' t) (then_with (compare n hi) Ordering.gt))
      ≡ (t' == t) && (leb lo n && ltb n hi)
between t' t n lo hi = ground arith

pub time_key-time_range :
    (t t' : ℕ) (ts_ms from_ms to_ms : ℤ) (id : ℕ)
    → t < 2 ^ 32
    → t' < 2 ^ 32
    → as_u64 ts_ms < 2 ^ 64
    → as_u64 from_ms < 2 ^ 64
    → as_u64 to_ms < 2 ^ 64
    → not (is_below (time_key t' ts_ms id) (time_range t from_ms to_ms).0)
        && is_below (time_key t' ts_ms id) (time_range t from_ms to_ms).1
      ≡ (t' == t) && (leb (as_u64 from_ms) (as_u64 ts_ms) && ltb (as_u64 ts_ms) (as_u64 to_ms))
unfolding time_range
time_key-time_range t t' ts_ms from_ms to_ms id ht ht' hs hf hu =
    ap₂ (λ o o'. not (is_lt o) && is_lt o') (cmp_bytes-bound t' t ts_ms from_ms id ht' ht hs hf)
      (cmp_bytes-bound t' t ts_ms to_ms id ht' ht hs hu)
    ∙ between t' t (as_u64 ts_ms) (as_u64 from_ms) (as_u64 to_ms)
