-- ===== src/GraphStore/Neighbours.antt =====
-- crates/mmdb-graph/src/lib.rs: an edge that was added is listed from both of its ends.
use mmdb.Common.{
  ℕ, ◌-◌, ◌^◌, ◌<◌, zero, suc, Bool, true, Option, none, some, List, [], ◌∷◌, ◌≡◌, refl, sym, ap,
  ◌∙◌, arith, inl, inr, ◌⊎◌, In, All, All-of_In, In-filter, filter-In, map, filter, Bool-cases,
  if◌then◌else◌,
}
use mmdb.Common.Bytes.{Bytes, bytes_eq, cmp_bytes_self}
use mmdb.Errors.{Error, Result, ok, err, ◌>>=◌}
use mmdb.Engine.{Engine, done, json, storage}
use mmdb.Engine.Maps.{Entries, lookup, put, lookup-put, lookup-In, In-lookup}
use mmdb.Engine.Laws.{IsLawful, written}
use mmdb.GraphStore.Keys.{label_hash, out_key, in_key}
use mmdb.GraphStore.Edges.{
  Edge, EdgeSerde, part_out, part_in, edge_range, has_label, push_found, add_batch, add_edge,
  out_loop, neighbours_out,
}
use mmdb.GraphStore.Paired.{add_edge_atomic}
use mmdb.GraphStore.Ranges.{is_within, edge_range-within}

-- The serialization gives this edge back as it was written. serde_json does not for every edge: a weight
-- that is no finite number is written as null.
abbrev pub IsGivenBack : (C : EdgeSerde) → Edge C.Details → Type 0
IsGivenBack C e = (bytes : Bytes) → C.encode e ≡ done bytes → C.decode bytes ≡ done e

module _ (E : Engine) (L : IsLawful E) (C : EdgeSerde) (tenant : ℕ) where
  -- Every payload decodes.
  abbrev pub IsStored : Entries → Type 0
  IsStored m = (k v : Bytes) → lookup k m ≡ some v → (e : Edge C.Details) × (C.decode v ≡ done e)

  pub push_found-In :
      (label : Option Bytes) (o : Option (Edge C.Details)) (e : Edge C.Details)
      (rest : List (Edge C.Details))
      → In e rest
      → In e (push_found E C tenant label o rest)
  push_found-In label none e rest i = i
  push_found-In label (some x) e rest i = elim (Bool-cases (has_label label x)) [
    | inl kept ↦ rw (kept, push_found) (suc i.0, i.1)
    | inr dropped ↦ rw (dropped, push_found) i
  ]

  -- A loop of scans whose items are read and decode lists every wanted edge.
  out_loop-total :
      (label : Option Bytes) (m : Entries)
      → All (λ e. (x : Edge C.Details) × (C.decode e.1 ≡ done x)) m
      → (es : List (Edge C.Details)) × (out_loop E C tenant label (map done m) ≡ ok es)
  unfolding out_loop
  out_loop-total label [] h = ([], refl)
  out_loop-total label ((k, v) ∷ m) ((x, d), rest) =
      let (es, e) = out_loop-total label m rest in
      (push_found E C tenant label (some x) es, rw (storage, ◌>>=◌, d, json, e) refl)

  out_loop-In :
      (label : Option Bytes) (m : Entries) (k v : Bytes) (x : Edge C.Details)
      → All (λ e. (x : Edge C.Details) × (C.decode e.1 ≡ done x)) m
      → In (k, v) m
      → C.decode v ≡ done x
      → has_label label x ≡ true
      → (es : List (Edge C.Details)) × (out_loop E C tenant label (map done m) ≡ ok es) × In x es
  unfolding out_loop
  out_loop-In label [] k v x h (t, at) d w = cc
  out_loop-In label ((j, u) ∷ m) k v x ((y, dy), rest) (zero, at) d w =
      let (es, e) = out_loop-total label m rest in
      let same : u ≡ v = cc in
      let edge : C.decode u ≡ done x = ap C.decode same ∙ d in
      (
        push_found E C tenant label (some x) es,
        rw (storage, ◌>>=◌, edge, json, e) refl,
        rw (w, push_found) (0, refl),
      )
  out_loop-In label ((j, u) ∷ m) k v x ((y, dy), rest) (suc t, at) d w =
      let (es, e, i) = out_loop-In label m k v x rest (t, at) d w in
      (
        push_found E C tenant label (some y) es,
        rw (storage, ◌>>=◌, dy, json, e) refl,
        push_found-In label (some y) x es i,
      )

  pub has_label_self :
      (e : Edge C.Details) (wanted : Option Bytes)
      → (wanted ≡ none) ⊎ (wanted ≡ some e.label)
      → has_label wanted e ≡ true
  unfolding has_label
  has_label_self e none w = refl
  has_label_self e (some l) (inl e0) = cc
  has_label_self e (some l) (inr e1) =
      let same : l ≡ e.label = cc in rw same (ground (arith, cmp_bytes_self e.label))

  ok-err : {A : Type 0} {a : A} {x : Error} → ◌≡◌ {A = Result A} (ok a) (err x) → ⊥
  ok-err e = cc

  -- What an added edge leaves in the two partitions.
  pub added-lookup :
      (s s' : E.State) (e : Edge C.Details)
      → add_edge E C tenant s e ≡ (s', ok tt)
      → (value : Bytes) × (C.encode e ≡ done value)
        × (L.entries s' part_out
            ≡ put (out_key tenant e.src (label_hash e.label) e.dst) value (L.entries s part_out))
        × (L.entries s' part_in
            ≡ put (in_key tenant e.dst (label_hash e.label) e.src) [] (L.entries s part_in))
  unfolding add_batch written
  added-lookup s s' e at = elim (add_edge_atomic E L C tenant s s' e (ok tt) at) [
    | inl (value, encoded, wrote) ↦ (value, encoded, wrote part_out, wrote part_in)
    | inr (_, (x, answer)) ↦ absurd (ok-err answer)
  ]

  pub added-IsStored :
      (m : Entries) (key value : Bytes) (e : Edge C.Details)
      → C.decode value ≡ done e
      → IsStored m
      → IsStored (put key value m)
  added-IsStored m key value e d h k v found =
      let at : (if bytes_eq k key then some value else lookup k m) ≡ some v =
        sym (lookup-put k key value m) ∙ found in
      elim (Bool-cases (bytes_eq k key)) [
        | inl same ↦ let new : value ≡ v = ground arith in (e, rw (sym new) d)
        | inr other ↦ h k v (ground arith)
      ]

  Decodes-filter :
      (p : Bytes × Bytes → Bool) (s : E.State)
      → IsStored (L.entries s part_out)
      → All (λ e. (x : Edge C.Details) × (C.decode e.1 ≡ done x)) (filter p (L.entries s part_out))
  Decodes-filter p s stored =
      let m = L.entries s part_out in
      All-of_In _ (filter p m) (λ (k, v) (i : In (k, v) (filter p m)).
        stored k v (lookup-In m k v (L.ordered s part_out) (In-filter p m (k, v) i).0))

  -- For a tenant below 2^32, a source below 2^128 and a target below the greatest id, where
  -- payloads decode, the medium answers afterwards and the serialization gives the edge back: after
  -- add_edge answers Ok, neighbours_out of the source, with no label or with the edge's, answers a
  -- list that holds the edge.
  pub neighbours_out-add_edge :
      (s s' : E.State) (e : Edge C.Details) (wanted : Option Bytes)
      → tenant < 2 ^ 32
      → e.src < 2 ^ 128
      → e.dst < 2 ^ 128 - 1
      → IsGivenBack C e
      → IsStored (L.entries s part_out)
      → L.IsReadable s'
      → (wanted ≡ none) ⊎ (wanted ≡ some e.label)
      → add_edge E C tenant s e ≡ (s', ok tt)
      → (es : List (Edge C.Details)) × (neighbours_out E C tenant s' e.src wanted ≡ ok es) × In e es
  unfolding neighbours_out
  neighbours_out-add_edge s s' e wanted ht hs hd faithful stored readable w at =
      let key = out_key tenant e.src (label_hash e.label) e.dst in
      let (value, encoded, out, _) = added-lookup s s' e at in
      let range = edge_range tenant e.src wanted in
      let inside = λ (x : Bytes × Bytes). is_within range x.0 in
      let decodes = faithful value encoded in
      let m = L.entries s' part_out in
      let stored' : IsStored m =
        rw out (added-IsStored (L.entries s part_out) key value e decodes stored) in
      let found : lookup key m ≡ some value =
        rw (out)
          (lookup-put key key value (L.entries s part_out) ∙ ground (arith, cmp_bytes_self key)) in
      let within = edge_range-within tenant e.src e.dst e.label wanted ht hs hd w in
      let listed = filter-In inside m (key, value) (In-lookup m key value found) within in
      let (es, answer, i) =
        out_loop-In wanted (filter inside m) key value e (Decodes-filter inside s' stored') listed
          decodes (has_label_self e wanted w) in
      (
        es,
        ap (out_loop E C tenant wanted) (L.range-entries s' part_out range.0 range.1 readable)
            ∙ answer,
        i,
      )
