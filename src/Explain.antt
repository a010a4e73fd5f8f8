-- ===== src/Explain.antt =====
-- crates/mmdb-query/src/explain.rs, and `Executor::explain` of crates/mmdb-query/src/executor.rs.
pub mod Actual
use mmdb.Common.{
  ℕ, suc, String, Option, none, some, List, [], ◌∷◌, Bool, true, false, length, min, if◌then◌else◌,
}
use mmdb.Words.{saturating_mul, saturating_add}
use mmdb.Errors.{Result, ok, err, ◌>>=◌}
use mmdb.Ir.{TableId, JoinKey, LogicalPlan, Platform}
use mmdb.Stats.{Stats, estimate_selectivity}
use mmdb.Strategy.{
  choose_join_strategy, join_operator_name, estimate_filter_rows, estimate_rows_by_selectivity,
}
use mmdb.Executor.{Context, Plan, execute}

mutual
  pub data ExplainNode : Type 0 where
    -- The operator's name, the estimated and the actual rows, and the children.
    node : String → Option ℕ → Option ℕ → ExplainNodes → ExplainNode

  pub data ExplainNodes : Type 0 where
    nil : ExplainNodes
    cons : ExplainNode → ExplainNodes → ExplainNodes

abbrev pub one_child : ExplainNode → ExplainNodes
one_child n = ExplainNodes.cons n ExplainNodes.nil

abbrev pub two_children : ExplainNode → ExplainNode → ExplainNodes
two_children a b = ExplainNodes.cons a (one_child b)

abbrev pub min_rows : Option ℕ → ℕ → Option ℕ
min_rows none k = none
min_rows (some rows) k = some (min rows k)

-- `rows.saturating_mul((*depth as usize).saturating_add(1))`.
abbrev pub grow_rows : Option ℕ → ℕ → Option ℕ
grow_rows none depth = none
grow_rows (some rows) depth = some (saturating_mul rows (saturating_add depth 1))

-- `left.zip(right).map(|(l, r)| l.min(r))`.
abbrev pub zip_min : Option ℕ → Option ℕ → Option ℕ
zip_min (some l) (some r) = some (min l r)
zip_min _ _ = none

abbrev pub scan_name : TableId → String
scan_name TableId.nodes = "ScanOp"
scan_name _ = "IndexLookupOp"

module _ ⦃p : Platform⦄ where
  unfoldable pub physical_operator_name : Plan → String
  physical_operator_name (LogicalPlan.scan table _) = scan_name table
  physical_operator_name (LogicalPlan.vector_search _ _ _ _) = "HnswSearchOp"
  physical_operator_name (LogicalPlan.graph_expand _ _ _) = "GraphExpandOp"
  physical_operator_name (LogicalPlan.filter _ _) = "FilterOp"
  physical_operator_name (LogicalPlan.score _ _) = "ScoreOp"
  physical_operator_name (LogicalPlan.top_k _ _ _) = "TopKOp"
  physical_operator_name (LogicalPlan.join _ _ _) = "HashJoinOp"
  physical_operator_name (LogicalPlan.aggregate _ _ _) = "AggregateOp"
  physical_operator_name (LogicalPlan.project _ _) = "ProjectOp"
  physical_operator_name (LogicalPlan.udf _ _ _) = "UdfOp"

  unfoldable pub source_physical_operator_name : Plan → String
  source_physical_operator_name (LogicalPlan.scan _ _) = "RangeScanOp"
  source_physical_operator_name (LogicalPlan.vector_search _ _ _ _) = "HnswSearchOp"
  source_physical_operator_name (LogicalPlan.graph_expand _ _ _) = "GraphExpandOp"
  source_physical_operator_name (LogicalPlan.filter _ _) = "FilterOp"
  source_physical_operator_name (LogicalPlan.score _ _) = "ScoreOp"
  source_physical_operator_name (LogicalPlan.top_k _ _ _) = "TopKOp"
  source_physical_operator_name (LogicalPlan.join _ _ _) = "HashJoinOp"
  source_physical_operator_name (LogicalPlan.aggregate _ _ _) = "AggregateOp"
  source_physical_operator_name (LogicalPlan.project _ _) = "ProjectOp"
  source_physical_operator_name (LogicalPlan.udf _ _ _) = "UdfOp"

  abbrev pub table_rows : TableId → Stats p.F32 → Option ℕ
  table_rows TableId.nodes stats = some stats.node_rows
  table_rows _ stats = none

  abbrev pub operator_name : Bool → Plan → String
  operator_name source_names plan =
      if source_names then source_physical_operator_name plan else physical_operator_name plan

  abbrev pub Explained : Type 0
  Explained = ExplainNode × Option ℕ

  -- The end of `explain_shape_with_estimate`.
  abbrev pub shape_node : Bool → Plan → Option ℕ → ExplainNodes → Explained
  shape_node source_names plan estimated children =
      (ExplainNode.node (operator_name source_names plan) estimated none children, estimated)

  abbrev pub join_node : JoinKey → Explained → Explained → Option ℕ → Explained
  join_node on (left, left_estimate) (right, right_estimate) actual_rows =
      let name = join_operator_name (choose_join_strategy left_estimate right_estimate on) in
      let estimated = zip_min left_estimate right_estimate in
      (ExplainNode.node name estimated actual_rows (two_children left right), estimated)

  unfoldable pub explain_shape_with_estimate : Plan → Stats p.F32 → Bool → Explained
  explain_shape_with_estimate (LogicalPlan.scan table f) stats names =
      shape_node names (LogicalPlan.scan table f)
        (estimate_filter_rows (table_rows table stats) f stats) ExplainNodes.nil
  explain_shape_with_estimate (LogicalPlan.vector_search query k f model) stats names =
      shape_node names (LogicalPlan.vector_search query k f model)
        (min_rows (estimate_filter_rows (some stats.node_rows) f stats) k) ExplainNodes.nil
  explain_shape_with_estimate (LogicalPlan.graph_expand from relation depth) stats names =
      let child = explain_shape_with_estimate from stats names in
      shape_node names (LogicalPlan.graph_expand from relation depth) (grow_rows child.1 depth)
        (one_child child.0)
  explain_shape_with_estimate (LogicalPlan.filter input pred) stats names =
      let child = explain_shape_with_estimate input stats names in
      shape_node names (LogicalPlan.filter input pred)
        (estimate_rows_by_selectivity child.1 (estimate_selectivity stats pred)) (one_child child.0)
  explain_shape_with_estimate (LogicalPlan.score input expr) stats names =
      let child = explain_shape_with_estimate input stats names in
      shape_node names (LogicalPlan.score input expr) child.1 (one_child child.0)
  explain_shape_with_estimate (LogicalPlan.top_k input k by) stats names =
      let child = explain_shape_with_estimate input stats names in
      shape_node names (LogicalPlan.top_k input k by) (min_rows child.1 k) (one_child child.0)
  explain_shape_with_estimate (LogicalPlan.join left right on) stats names =
      join_node on (explain_shape_with_estimate left stats names)
        (explain_shape_with_estimate right stats names) none
  explain_shape_with_estimate (LogicalPlan.aggregate input group_by agg) stats names =
      let child = explain_shape_with_estimate input stats names in
      shape_node names (LogicalPlan.aggregate input group_by agg) child.1 (one_child child.0)
  explain_shape_with_estimate (LogicalPlan.project input fields) stats names =
      let child = explain_shape_with_estimate input stats names in
      shape_node names (LogicalPlan.project input fields) child.1 (one_child child.0)
  explain_shape_with_estimate (LogicalPlan.udf input name args) stats names =
      let child = explain_shape_with_estimate input stats names in
      shape_node names (LogicalPlan.udf input name args) child.1 (one_child child.0)

  -- The end of `Executor::explain_with_estimate`: the node runs its plan for the actual rows.
  abbrev pub run_node : Context → Plan → Option ℕ → ExplainNodes → Result Explained
  run_node ctx plan estimated children = do
    rows ← execute ctx plan
    ok (
      ExplainNode.node (physical_operator_name plan) estimated (some (length rows)) children,
      estimated,
    )

  -- `Executor::explain_with_estimate`.
  unfoldable pub explain_with_estimate : Context → Plan → Stats p.F32 → Result Explained
  explain_with_estimate ctx (LogicalPlan.scan table f) stats =
      run_node ctx (LogicalPlan.scan table f)
        (estimate_filter_rows (table_rows table stats) f stats) ExplainNodes.nil
  explain_with_estimate ctx (LogicalPlan.vector_search query k f model) stats =
      run_node ctx (LogicalPlan.vector_search query k f model)
        (min_rows (estimate_filter_rows (some stats.node_rows) f stats) k) ExplainNodes.nil
  explain_with_estimate ctx (LogicalPlan.graph_expand from relation depth) stats = do
    (child, estimate) ← explain_with_estimate ctx from stats
    run_node ctx (LogicalPlan.graph_expand from relation depth) (grow_rows estimate depth)
        (one_child child)
  explain_with_estimate ctx (LogicalPlan.filter input pred) stats = do
    (child, estimate) ← explain_with_estimate ctx input stats
    run_node ctx (LogicalPlan.filter input pred)
        (estimate_rows_by_selectivity estimate (estimate_selectivity stats pred)) (one_child child)
  explain_with_estimate ctx (LogicalPlan.score input expr) stats = do
    (child, estimate) ← explain_with_estimate ctx input stats
    run_node ctx (LogicalPlan.score input expr) estimate (one_child child)
  explain_with_estimate ctx (LogicalPlan.top_k input k by) stats = do
    (child, estimate) ← explain_with_estimate ctx input stats
    run_node ctx (LogicalPlan.top_k input k by) (min_rows estimate k) (one_child child)
  explain_with_estimate ctx (LogicalPlan.join left right on) stats = do
    left_explained ← explain_with_estimate ctx left stats
    right_explained ← explain_with_estimate ctx right stats
    rows ← execute ctx (LogicalPlan.join left right on)
    ok (join_node on left_explained right_explained (some (length rows)))
  explain_with_estimate ctx (LogicalPlan.aggregate input group_by agg) stats = do
    (child, estimate) ← explain_with_estimate ctx input stats
    run_node ctx (LogicalPlan.aggregate input group_by agg) estimate (one_child child)
  explain_with_estimate ctx (LogicalPlan.project input fields) stats = do
    (child, estimate) ← explain_with_estimate ctx input stats
    run_node ctx (LogicalPlan.project input fields) estimate (one_child child)
  explain_with_estimate ctx (LogicalPlan.udf input name args) stats = do
    (child, estimate) ← explain_with_estimate ctx input stats
    run_node ctx (LogicalPlan.udf input name args) estimate (one_child child)
