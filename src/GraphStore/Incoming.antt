-- ===== src/GraphStore/Incoming.antt =====
-- crates/mmdb-graph/src/lib.rs: the incoming edges, which the keys of one partition name and whose
-- payloads stand in the other.
use mmdb.Common.{
  ℕ, ◌+◌, ◌-◌, ◌^◌, ◌<◌, zero, suc, true, Option, none, some, List, [], ◌∷◌, ◌≡◌, refl, ap, ◌∙◌,
  arith, inl, inr, ◌⊎◌, In, filter-In, map, filter, Bool-cases, length, take, drop, ◌==◌,
}
use mmdb.Common.Bytes.{Bytes, cmp_bytes_self, from_be_bytes, from_be_bytes-to_be_bytes}
use mmdb.Errors.{ok, ◌>>=◌}
use mmdb.Engine.{Engine, done, json, storage}
use mmdb.Engine.Maps.{Entries, lookup, lookup-put, In-lookup}
use mmdb.Engine.Laws.{IsLawful}
use mmdb.GraphStore.Keys.{label_hash, out_key, in_key}
use mmdb.GraphStore.Edges.{
  Edge, EdgeSerde, part_out, part_in, edge_range, has_label, push_found, decode_found, add_edge,
  edge_of_in_key, in_loop, neighbours_in,
}
use mmdb.GraphStore.Paired.{label_hash-lt, in_key-out_key}
use mmdb.GraphStore.Ranges.{is_within, edge_range-within}
use mmdb.GraphStore.Neighbours.{
  IsGivenBack, IsStored, push_found-In, has_label_self, added-lookup, added-IsStored,
}

module _ (E : Engine) (L : IsLawful E) (C : EdgeSerde) (tenant : ℕ) where
  decode_found-total :
      (m : Entries) (k : Bytes)
      → IsStored E L C tenant m
      → (o : Option (Edge C.Details)) × (decode_found E C tenant (lookup k m) ≡ ok o)
  unfolding decode_found
  decode_found-total m k h = go (lookup k m) (h k)
    where
      go :
          (o : Option Bytes)
          → ((v : Bytes) → o ≡ some v → (e : Edge C.Details) × (C.decode v ≡ done e))
          → (x : Option (Edge C.Details)) × (decode_found E C tenant o ≡ ok x)
      go none d = (none, refl)
      go (some v) d = let (e, at) = d v refl in (some e, rw (at, json, ◌>>=◌) refl)

  -- On a readable store whose payloads decode, every key of the range stands for an edge or for none.
  edge_of_in_key-total :
      (s : E.State) (node : ℕ) (k : Bytes)
      → L.IsReadable s
      → IsStored E L C tenant (L.entries s part_out)
      → (o : Option (Edge C.Details)) × (edge_of_in_key E C tenant s node k ≡ ok o)
  unfolding edge_of_in_key
  edge_of_in_key-total s node k readable stored = elim (Bool-cases (length k == 4 + 16 + 4 + 16)) [
    | inr short ↦ (none, rw (short, edge_of_in_key) refl)
    | inl whole ↦
        let key =
          out_key tenant (from_be_bytes (take 16 (drop 24 k))) (from_be_bytes (take 4 (drop 20 k)))
            node in
        let (o, found) = decode_found-total (L.entries s part_out) key stored in
        let opened : edge_of_in_key E C tenant s node k
            ≡ storage (E.get s part_out key) >>= decode_found E C tenant =
          rw (whole, edge_of_in_key) refl in
        let read : storage (E.get s part_out key) ≡ ok (lookup key (L.entries s part_out)) =
          ap storage (L.get-entries s part_out key readable) in
        (o, opened ∙ ap (λ r. r >>= decode_found E C tenant) read ∙ found)
  ]

  in_loop-total :
      (s : E.State) (node : ℕ) (label : Option Bytes) (m : Entries)
      → L.IsReadable s
      → IsStored E L C tenant (L.entries s part_out)
      → (es : List (Edge C.Details)) × (in_loop E C tenant s node label (map done m) ≡ ok es)
  unfolding in_loop
  in_loop-total s node label [] readable stored = ([], refl)
  in_loop-total s node label ((k, v) ∷ m) readable stored =
      let (o, found) = edge_of_in_key-total s node k readable stored in
      let (es, later) = in_loop-total s node label m readable stored in
      (push_found E C tenant label o es, rw (storage, ◌>>=◌, found, later) refl)

  in_loop-In :
      (s : E.State) (node : ℕ) (label : Option Bytes) (m : Entries) (k v : Bytes)
      (x : Edge C.Details)
      → L.IsReadable s
      → IsStored E L C tenant (L.entries s part_out)
      → In (k, v) m
      → edge_of_in_key E C tenant s node k ≡ ok (some x)
      → has_label label x ≡ true
      → (es : List (Edge C.Details)) × (in_loop E C tenant s node label (map done m) ≡ ok es)
        × In x es
  unfolding in_loop
  in_loop-In s node label [] k v x readable stored (t, at) d w = cc
  in_loop-In s node label ((j, u) ∷ m) k v x readable stored (zero, at) d w =
      let (es, later) = in_loop-total s node label m readable stored in
      let same : j ≡ k = cc in
      let edge : edge_of_in_key E C tenant s node j ≡ ok (some x) =
        ap (edge_of_in_key E C tenant s node) same ∙ d in
      (
        push_found E C tenant label (some x) es,
        rw (storage, ◌>>=◌, edge, later) refl,
        rw (w, push_found) (0, refl),
      )
  in_loop-In s node label ((j, u) ∷ m) k v x readable stored (suc t, at) d w =
      let (o, found) = edge_of_in_key-total s node j readable stored in
      let (es, later, i) = in_loop-In s node label m k v x readable stored (t, at) d w in
      (
        push_found E C tenant label o es,
        rw (storage, ◌>>=◌, found, later) refl,
        push_found-In E L C tenant label o x es i,
      )

  -- The key that an edge leaves in the partition of the targets leads back to its payload.
  edge_of_in_key-in_key :
      (s : E.State) (src lh dst : ℕ) (value : Bytes) (x : Edge C.Details)
      → L.IsReadable s
      → src < 2 ^ 128
      → lh < 2 ^ 32
      → lookup (out_key tenant src lh dst) (L.entries s part_out) ≡ some value
      → C.decode value ≡ done x
      → edge_of_in_key E C tenant s dst (in_key tenant dst lh src) ≡ ok (some x)
  unfolding edge_of_in_key in_key decode_found
  edge_of_in_key-in_key s src lh dst value x readable hs hl found d =
      rw
        (
          from_be_bytes-to_be_bytes 4 lh (omega arith),
          from_be_bytes-to_be_bytes 16 src (omega arith),
        )
        (rw
          (
            L.get-entries s part_out (out_key tenant src lh dst) readable,
            found,
            storage,
            ◌>>=◌,
            d,
            json,
          )
          refl)

  -- For a tenant below 2^32, a target below 2^128 and a source below the greatest id, where
  -- payloads decode, the medium answers afterwards and the serialization gives the edge back: after
  -- add_edge answers Ok, neighbours_in of the target, with no label or with the edge's, answers a
  -- list that holds the edge.
  pub neighbours_in-add_edge :
      (s s' : E.State) (e : Edge C.Details) (wanted : Option Bytes)
      → tenant < 2 ^ 32
      → e.src < 2 ^ 128 - 1
      → e.dst < 2 ^ 128
      → IsGivenBack C e
      → IsStored E L C tenant (L.entries s part_out)
      → L.IsReadable s'
      → (wanted ≡ none) ⊎ (wanted ≡ some e.label)
      → add_edge E C tenant s e ≡ (s', ok tt)
      → (es : List (Edge C.Details)) × (neighbours_in E C tenant s' e.dst wanted ≡ ok es) × In e es
  unfolding neighbours_in
  neighbours_in-add_edge s s' e wanted ht hs hd faithful stored readable w at =
      let lh = label_hash e.label in
      let key = in_key tenant e.dst lh e.src in
      let out_of = out_key tenant e.src lh e.dst in
      let (value, encoded, out, inn) = added-lookup E L C tenant s s' e at in
      let range = edge_range tenant e.dst wanted in
      let inside = λ (x : Bytes × Bytes). is_within range x.0 in
      let decodes = faithful value encoded in
      let m = L.entries s' part_in in
      let stored' : IsStored E L C tenant (L.entries s' part_out) =
        rw out (added-IsStored E L C tenant (L.entries s part_out) out_of value e decodes stored) in
      let payload : lookup out_of (L.entries s' part_out) ≡ some value = rw out (
        lookup-put out_of out_of value (L.entries s part_out)
        ∙ ground (arith, cmp_bytes_self out_of)) in
      let found : lookup key m ≡ some [] =
        rw inn (lookup-put key key [] (L.entries s part_in) ∙ ground (arith, cmp_bytes_self key)) in
      let within : is_within range key ≡ true =
        ap (is_within range) (in_key-out_key tenant e.src lh e.dst)
        ∙ edge_range-within tenant e.dst e.src e.label wanted ht hd hs w in
      let listed = filter-In inside m (key, []) (In-lookup m key [] found) within in
      let back =
        edge_of_in_key-in_key s' e.src lh e.dst value e readable (omega arith)
          (label_hash-lt e.label) payload decodes in
      let (es, answer, i) =
        in_loop-In s' e.dst wanted (filter inside m) key [] e readable stored' listed back
          (has_label_self E L C tenant e wanted w) in
      (
        es,
        ap (in_loop E C tenant s' e.dst wanted)
              (L.range-entries s' part_in range.0 range.1 readable)
            ∙ answer,
        i,
      )
