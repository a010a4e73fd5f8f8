-- ===== src/Executor.antt =====
-- crates/mmdb-query/src/executor.rs: the in-memory `Executor`, which evaluates a plan directly.
pub mod Walk
pub mod Expand
pub mod NodeIds
pub mod Lookup
pub mod Trace
pub mod Account
pub mod Complete
use Prim.Native.String.{◌++◌ as append_text}
use mmdb.Common.{
  ℕ, zero, suc, ◌+◌, String, Option, none, some, List, [], ◌∷◌, ◌++◌, map, Bool, true, false, not,
  if◌then◌else◌, leb, str_eq, str_cmp, any, filter, filter_map, take, length,
}
use mmdb.Common.BTreeMap
use mmdb.Common.Sort.{sort_by}
use mmdb.Errors.{Error, Result, ok, err, ◌>>=◌, ok_or}
use mmdb.Ir.{TableId, Predicate, JoinKey, ScoreExpr, Expr, LogicalPlan, Platform}
use mmdb.Eval.{
  Record, predicate_matches, eval_score, join_value, score_desc, sort_rows, project_records,
  aggregate_records,
}

pub record EdgeRecord : Type 0 where
  pub src : String
  pub dst : String
  pub relation : String

abbrev pub UdfFn : Type 0 → Type 0
UdfFn F = Record F → List (Expr F) → F

pub record ExecutionContext (F : Type 0) : Type 0 where
  pub nodes : List (Record F)
  pub edges : List EdgeRecord
  pub udfs : List (String × UdfFn F)

-- `register_udf`.
abbrev pub register_udf : {F : Type 0} → ExecutionContext F → String → UdfFn F → ExecutionContext F
register_udf ctx name udf = record ctx { udfs = BTreeMap.insert str_cmp name udf ctx.udfs }

-- A `HashSet<String>`, as the list of its members.
abbrev pub contains : List String → String → Bool
contains set key = any (str_eq key) set

-- The variables of `graph_expand_rows` that the loop over one seed changes.
pub record Expansion (F : Type 0) : Type 0 where
  pub out : List (Record F)
  pub emitted : List String
  pub local_seen : List String
  pub frontier : List (String × ℕ)

abbrev pub debug_table : TableId → String
debug_table TableId.nodes = "Nodes"
debug_table TableId.edges = "Edges"
debug_table TableId.blobs = "Blobs"

abbrev pub unsupported_table : TableId → Error
unsupported_table table =
    Error.invalid_argument
      (append_text "in-memory executor does not support scanning " (debug_table table))

abbrev pub unregistered_udf : String → Error
unregistered_udf name =
    Error.invalid_argument (append_text "UDF `" (append_text name "` is not registered"))

module _ ⦃p : Platform⦄ where
  abbrev pub Row : Type 0
  Row = Record p.F32

  abbrev pub Context : Type 0
  Context = ExecutionContext p.F32

  abbrev pub Plan : Type 0
  Plan = LogicalPlan p.F32

  -- `filter.map(|pred| predicate_matches(record, pred)).unwrap_or(true)`.
  abbrev pub passes : Option (Predicate p.F32) → Row → Bool
  passes none r = true
  passes (some pred) r = predicate_matches r pred

  unfoldable pub vector_search_rows : Context → ℕ → Option (Predicate p.F32) → List Row
  vector_search_rows ctx k f = take k (sort_by score_desc (filter (passes f) ctx.nodes))

  -- `node_by_id`: of two nodes with one id the later one stays.
  abbrev pub add_nodes : List Row → List (String × Row) → List (String × Row)
  add_nodes [] m = m
  add_nodes (r ∷ rs) m = add_nodes rs (BTreeMap.insert str_cmp r.node_id r m)

  unfoldable pub node_by_id : Context → List (String × Row)
  node_by_id ctx = add_nodes ctx.nodes []

  -- `if emitted.insert(record.node_id.clone()) { out.push(record) }`.
  unfoldable pub emit : Row → Expansion p.F32 → Expansion p.F32
  emit r s =
      if contains s.emitted r.node_id
      then s
      else record s { out = s.out ++ r ∷ []; emitted = r.node_id ∷ s.emitted }

  abbrev pub emit_found : Option Row → Expansion p.F32 → Expansion p.F32
  emit_found none s = s
  emit_found (some r) s = emit r s

  -- `relation.is_some_and(|want| edge.relation != want)`.
  abbrev pub other_relation : Option String → EdgeRecord → Bool
  other_relation none edge = false
  other_relation (some want) edge = not (str_eq edge.relation want)

  -- What one edge out of `current` does, once its end is known to be new.
  unfoldable pub reach : List (String × Row) → ℕ → EdgeRecord → Expansion p.F32 → Expansion p.F32
  unfolding emit
  reach by_id hop edge s =
      let seen = record s { local_seen = edge.dst ∷ s.local_seen } in
      let found = emit_found (BTreeMap.get str_cmp edge.dst by_id) seen in
      record found { frontier = found.frontier ++ (edge.dst, hop + 1) ∷ [] }

  -- The body of the loop over the edges.
  unfoldable pub visit_edge :
      List (String × Row)
      → Option String
      → String
      → ℕ
      → EdgeRecord
      → Expansion p.F32
      → Expansion p.F32
  visit_edge by_id relation current hop edge s =
      if not (str_eq edge.src current)
      then s
      else if other_relation relation edge
      then s
      else if contains s.local_seen edge.dst
      then s
      else reach by_id hop edge s

  unfoldable pub visit_edges :
      List (String × Row)
      → Option String
      → String
      → ℕ
      → List EdgeRecord
      → Expansion p.F32
      → Expansion p.F32
  visit_edges by_id relation current hop [] s = s
  visit_edges by_id relation current hop (edge ∷ edges) s =
      visit_edges by_id relation current hop edges (visit_edge by_id relation current hop edge s)

  -- The body of the loop over the frontier.
  unfoldable pub visit :
      Context → Option String → ℕ → String → ℕ → Expansion p.F32 → Expansion p.F32
  visit ctx relation depth current hop s =
      if leb depth hop then s else visit_edges (node_by_id ctx) relation current hop ctx.edges s

  -- `while let Some((current, hop)) = frontier.pop_front()`, over the frontier.
  abbrev pub pop_front :
      List (String × ℕ)
      → Expansion p.F32
      → (String → ℕ → Expansion p.F32 → Expansion p.F32)
      → Expansion p.F32
  pop_front [] s body = s
  pop_front ((current, hop) ∷ rest) s body = body current hop (record s { frontier = rest })

  -- The loop, on fuel.
  unfoldable pub walk : Context → Option String → ℕ → ℕ → Expansion p.F32 → Expansion p.F32
  walk ctx relation depth zero s = s
  walk ctx relation depth (suc fuel) s =
      pop_front s.frontier s (λ current hop rest.
        walk ctx relation depth fuel (visit ctx relation depth current hop rest))

  abbrev pub walk_fuel : Context → ℕ
  walk_fuel ctx = length ctx.edges + 2

  -- The body of the loop over the seeds.
  abbrev pub start_seed : Row → Expansion p.F32 → Expansion p.F32
  start_seed seed s = record (emit seed s) {
    local_seen = seed.node_id ∷ [];
    frontier = (seed.node_id, 0) ∷ [];
  }

  unfoldable pub expand_seed : Context → Option String → ℕ → Row → Expansion p.F32 → Expansion p.F32
  expand_seed ctx relation depth seed s =
      walk ctx relation depth (walk_fuel ctx) (start_seed seed s)

  unfoldable pub expand_seeds :
      Context → Option String → ℕ → List Row → Expansion p.F32 → Expansion p.F32
  expand_seeds ctx relation depth [] s = s
  expand_seeds ctx relation depth (seed ∷ seeds) s =
      expand_seeds ctx relation depth seeds (expand_seed ctx relation depth seed s)

  abbrev pub no_expansion : Expansion p.F32
  no_expansion = record { out = []; emitted = []; local_seen = []; frontier = [] }

  unfoldable pub graph_expand_rows : Context → List Row → Option String → ℕ → List Row
  graph_expand_rows ctx seeds relation depth =
      (expand_seeds ctx relation depth seeds no_expansion).out

  -- Whether the key of a row is among the keys of the other side.
  abbrev pub has_key : List String → Option String → Bool
  has_key keys none = false
  has_key keys (some key) = contains keys key

  unfoldable pub join_rows : List Row → List Row → JoinKey → List Row
  join_rows left_rows right_rows on =
      let right_keys = filter_map (λ r. join_value r on) right_rows in
      filter (λ r. has_key right_keys (join_value r on)) left_rows

  abbrev pub rescore : ScoreExpr p.F32 → Row → Row
  rescore expr r = record r { score = eval_score r expr }

  abbrev pub apply_udf : UdfFn p.F32 → List (Expr p.F32) → Row → Row
  apply_udf udf args r = record r { score = udf r args }

  -- The rows of `execute_graph_expand`, given its seeds.
  abbrev pub expand_rows : Context → List Row → Option String → ℕ → List Row
  expand_rows ctx seeds relation zero = seeds
  expand_rows ctx seeds relation (suc depth) = graph_expand_rows ctx seeds relation (suc depth)

  abbrev pub scan_rows : Context → TableId → Option (Predicate p.F32) → Result (List Row)
  scan_rows ctx TableId.nodes f = ok (filter (passes f) ctx.nodes)
  scan_rows ctx table f = err (unsupported_table table)

  -- `Executor::execute`.
  unfoldable pub execute : Context → Plan → Result (List Row)
  execute ctx (LogicalPlan.scan table f) = scan_rows ctx table f
  execute ctx (LogicalPlan.vector_search query k f model) = ok (vector_search_rows ctx k f)
  execute ctx (LogicalPlan.graph_expand from relation depth) = do
    seeds ← execute ctx from
    ok (expand_rows ctx seeds relation depth)
  execute ctx (LogicalPlan.filter input pred) = do
    rows ← execute ctx input
    ok (filter (λ r. predicate_matches r pred) rows)
  execute ctx (LogicalPlan.score input expr) = do
    rows ← execute ctx input
    ok (map (rescore expr) rows)
  execute ctx (LogicalPlan.top_k input k by) = do
    rows ← execute ctx input
    ok (take k (sort_rows by rows))
  execute ctx (LogicalPlan.join left right on) = do
    left_rows ← execute ctx left
    right_rows ← execute ctx right
    ok (join_rows left_rows right_rows on)
  execute ctx (LogicalPlan.aggregate input group_by agg) = do
    rows ← execute ctx input
    ok (aggregate_records rows group_by agg)
  execute ctx (LogicalPlan.project input fields) = do
    rows ← execute ctx input
    ok (project_records rows fields)
  execute ctx (LogicalPlan.udf input name args) = do
    udf ← ok_or (BTreeMap.get str_cmp name ctx.udfs) (unregistered_udf name)
    rows ← execute ctx input
    ok (map (apply_udf udf args) rows)
