-- ===== src/GraphStore/Edges.antt =====
-- crates/mmdb-graph/src/lib.rs: the writes of edges and the lists of neighbours.
use mmdb.Common.{
  ℕ, ◌+◌, Bool, true, false, String, Option, none, some, List, [], ◌∷◌, length, take, drop, ◌==◌,
}
use mmdb.Common.Bytes.{Bytes, from_be_bytes, bytes_eq}
use mmdb.Errors.{Error, Result, ok, err, ◌>>=◌}
use mmdb.Engine.{Engine, Reply, done, failed, storage, json, Write, insert, remove}
use mmdb.GraphStore.Keys.{label_hash, out_key, in_key, node_range, label_range, label_dict_key}

abbrev pub part_out : String
part_out = "edges_out"

abbrev pub part_in : String
part_in = "edges_in"

abbrev pub part_labels : String
part_labels = "edge_label_dict"

pub record Edge (Details : Type 0) : Type 0 where
  pub src : ℕ
  pub dst : ℕ
  pub label : Bytes
  pub details : Details

-- serde_json at `Edge`.
pub record EdgeSerde : Type 1 where
  pub Details : Type 0
  pub encode : Edge Details → Reply Bytes
  pub decode : Bytes → Reply {0} (Edge Details)

-- The range of a scan: one node's edges, or those with one label hash.
unfoldable pub edge_range : ℕ → ℕ → Option Bytes → Bytes × Bytes
edge_range tenant node none = node_range tenant node
edge_range tenant node (some label) = label_range tenant node (label_hash label)

unfoldable pub has_label : {D : Type 0} → Option Bytes → Edge D → Bool
has_label none e = true
has_label (some label) e = bytes_eq e.label label

module _ (E : Engine) (C : EdgeSerde) (tenant : ℕ) where
  -- The end of both writes: the batch is committed, then persisted.
  abbrev pub persisted : E.State → E.State × Result {0} Unit
  persisted s = (s, storage (E.persist s))

  abbrev pub after_commit : E.State × Reply {0} Unit → E.State × Result {0} Unit
  after_commit (s, done _) = persisted s
  after_commit (s, failed text) = (s, err (Error.storage text))

  unfoldable pub add_batch : Edge C.Details → Bytes → List Write
  add_batch e value =
      let lh = label_hash e.label in
      insert part_out (out_key tenant e.src lh e.dst) value
      ∷ insert part_in (in_key tenant e.dst lh e.src) []
      ∷ insert part_labels (label_dict_key tenant lh e.label) []
      ∷ []

  unfoldable pub add_edge : E.State → Edge C.Details → E.State × Result {0} Unit
  add_edge s e = elim (json (C.encode e)) [
    | err x ↦ (s, err x)
    | ok value ↦ after_commit (E.commit s (add_batch e value))
  ]

  unfoldable pub remove_batch : ℕ → ℕ → Bytes → List Write
  remove_batch src dst label =
      let lh = label_hash label in
      remove part_out (out_key tenant src lh dst) ∷ remove part_in (in_key tenant dst lh src) ∷ []

  unfoldable pub remove_edge : E.State → ℕ → ℕ → Bytes → E.State × Result {0} Unit
  remove_edge s src dst label = after_commit (E.commit s (remove_batch src dst label))

  abbrev pub push_found :
      Option Bytes → Option (Edge C.Details) → List (Edge C.Details) → List (Edge C.Details)
  push_found label none rest = rest
  push_found label (some e) rest = elim (has_label label e) [ true ↦ e ∷ rest | false ↦ rest ]

  -- The loop of `neighbours_out`.
  unfoldable pub out_loop :
      Option Bytes → List (Reply {0} (Bytes × Bytes)) → Result (List (Edge C.Details))
  out_loop label [] = ok []
  out_loop label (item ∷ items) = storage item >>= λ (_, value). json (C.decode value) >>= λ e.
      out_loop label items >>= λ rest. ok (push_found label (some e) rest)

  unfoldable pub neighbours_out : E.State → ℕ → Option Bytes → Result (List (Edge C.Details))
  neighbours_out s node label =
      let (lo, hi) = edge_range tenant node label in out_loop label (E.range s part_out lo hi)

  unfoldable pub decode_found : Option Bytes → Result (Option (Edge C.Details))
  decode_found none = ok none
  decode_found (some value) = json (C.decode value) >>= λ e. ok (some e)

  -- The edge that a key of the other partition stands for, if its payload is found.
  unfoldable pub edge_of_in_key : E.State → ℕ → Bytes → Result (Option (Edge C.Details))
  edge_of_in_key s node k = elim (length k == 4 + 16 + 4 + 16) [
    | false ↦ ok none
    | true ↦
        let lh = from_be_bytes (take 4 (drop 20 k)) in
        let src = from_be_bytes (take 16 (drop 24 k)) in
        storage (E.get s part_out (out_key tenant src lh node)) >>= decode_found
  ]

  -- The loop of `neighbours_in`.
  unfoldable pub in_loop :
      E.State → ℕ → Option Bytes → List (Reply {0} (Bytes × Bytes)) → Result (List (Edge C.Details))
  in_loop s node label [] = ok []
  in_loop s node label (item ∷ items) = storage item >>= λ (k, _).
      edge_of_in_key s node k >>= λ found.
      in_loop s node label items >>= λ rest. ok (push_found label found rest)

  unfoldable pub neighbours_in : E.State → ℕ → Option Bytes → Result (List (Edge C.Details))
  neighbours_in s node label =
      let (lo, hi) = edge_range tenant node label in in_loop s node label (E.range s part_in lo hi)
