-- ===== src/GraphStore/Ranges.antt =====
-- crates/mmdb-graph/src/lib.rs: the range of a scan holds the keys of the edges that it is for. Its end
-- is exclusive, so an edge to the greatest id is not in it.
use mmdb.Common.{
  ℕ, ◌-◌, ◌^◌, ◌<◌, Bool, true, false, not, ◌&&◌, Option, none, some, [], ◌++◌, ◌≡◌, ap, ap₂, ◌∙◌,
  arith, compare, Ordering, then_with, ◌⊎◌, inl, inr,
}
use mmdb.Common.Bytes.{Bytes, to_be_bytes, cmp_bytes, cmp_bytes-field, cmp_bytes-to_be_bytes}
use mmdb.Engine.Laws.{is_below}
use mmdb.GraphStore.Keys.{label_hash, out_key, node_range, label_range}
use mmdb.GraphStore.Edges.{edge_range}
use mmdb.GraphStore.Paired.{InBounds, label_hash-lt}

abbrev pub is_within : Bytes × Bytes → Bytes → Bool
is_within range k = not (is_below k range.0) && is_below k range.1

abbrev lt_of : Ordering → Bool
lt_of Ordering.lt = true
lt_of _ = false

same_first : (n : ℕ) (o : Ordering) → then_with (compare n n) o ≡ o
same_first n o = ground arith

-- Keys that begin with the same tenant and node.
after_node :
    (t s : ℕ) (x y : Bytes)
    → t < 2 ^ 32
    → s < 2 ^ 128
    → cmp_bytes
        (to_be_bytes 4 t ++ (to_be_bytes 16 s ++ x))
        (to_be_bytes 4 t ++ (to_be_bytes 16 s ++ y))
      ≡ cmp_bytes x y
after_node t s x y ht hs =
    cmp_bytes-field 4 t t (to_be_bytes 16 s ++ x) (to_be_bytes 16 s ++ y) (omega arith)
      (omega arith)
    ∙ same_first t (cmp_bytes (to_be_bytes 16 s ++ x) (to_be_bytes 16 s ++ y))
    ∙ cmp_bytes-field 16 s s x y (omega arith) (omega arith)
    ∙ same_first s (cmp_bytes x y)

-- Keys that begin with the same tenant, node and label hash.
after_hash :
    (t s l : ℕ) (x y : Bytes)
    → t < 2 ^ 32
    → s < 2 ^ 128
    → l < 2 ^ 32
    → cmp_bytes
        (to_be_bytes 4 t ++ (to_be_bytes 16 s ++ (to_be_bytes 4 l ++ x)))
        (to_be_bytes 4 t ++ (to_be_bytes 16 s ++ (to_be_bytes 4 l ++ y)))
      ≡ cmp_bytes x y
after_hash t s l x y ht hs hl =
    after_node t s (to_be_bytes 4 l ++ x) (to_be_bytes 4 l ++ y) ht hs
    ∙ cmp_bytes-field 4 l l x y (omega arith) (omega arith)
    ∙ same_first l (cmp_bytes x y)

label_range-within :
    (t s l d : ℕ)
    → InBounds t s l d
    → d < 2 ^ 128 - 1
    → is_within (label_range t s l) (out_key t s l d) ≡ true
unfolding label_range out_key
label_range-within t s l d (ht, hs, hl, hd) small =
    ap₂ (λ o o'. not (lt_of o) && lt_of o') (after_hash t s l (to_be_bytes 16 d) [] ht hs hl)
      (after_hash t s l (to_be_bytes 16 d) (to_be_bytes 16 (2 ^ 128 - 1)) ht hs hl
        ∙ cmp_bytes-to_be_bytes 16 d (2 ^ 128 - 1) (omega arith) (omega arith))
    ∙ ground arith

node_range-within :
    (t s l d : ℕ)
    → InBounds t s l d
    → d < 2 ^ 128 - 1
    → is_within (node_range t s) (out_key t s l d) ≡ true
unfolding node_range out_key
node_range-within t s l d (ht, hs, hl, hd) small =
    ap₂ (λ o o'. not (lt_of o) && lt_of o')
      (after_node t s (to_be_bytes 4 l ++ to_be_bytes 16 d) [] ht hs)
      (after_node t s (to_be_bytes 4 l ++ to_be_bytes 16 d)
          (to_be_bytes 4 (2 ^ 32 - 1) ++ to_be_bytes 16 (2 ^ 128 - 1)) ht hs
        ∙ cmp_bytes-field 4 l (2 ^ 32 - 1) (to_be_bytes 16 d) (to_be_bytes 16 (2 ^ 128 - 1))
            (omega arith) (omega arith)
        ∙ ap (then_with (compare l (2 ^ 32 - 1)))
            (cmp_bytes-to_be_bytes 16 d (2 ^ 128 - 1) (omega arith) (omega arith)))
    ∙ ground arith

-- The scan for an edge's node, with no label or with the edge's, covers the key of the edge.
pub edge_range-within :
    (t s d : ℕ) (label : Bytes) (wanted : Option Bytes)
    → t < 2 ^ 32
    → s < 2 ^ 128
    → d < 2 ^ 128 - 1
    → (wanted ≡ none) ⊎ (wanted ≡ some label)
    → is_within (edge_range t s wanted) (out_key t s (label_hash label) d) ≡ true
unfolding edge_range
edge_range-within t s d label none ht hs hd w =
    node_range-within t s (label_hash label) d (ht, hs, label_hash-lt label, omega arith) hd
edge_range-within t s d label (some other) ht hs hd (inl e) = cc
edge_range-within t s d label (some other) ht hs hd (inr e) =
    let same : other ≡ label = cc in
    rw same
      (label_range-within t s (label_hash label) d (ht, hs, label_hash-lt label, omega arith) hd)
