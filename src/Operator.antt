-- ===== src/Operator.antt =====
-- crates/mmdb-query/src/executor.rs: the batch operators, `Executor::compile` and
-- `materialize_operator`. A call of `next_batch` answers beside the operator as it leaves it.
pub mod Rows
pub mod Slice
pub mod Loops
pub mod Answer
pub mod Refine
use mmdb.Common.{
  ℕ, zero, suc, ◌+◌, ◌-◌, String, Option, none, some, List, [], ◌∷◌, ◌++◌, map, Bool, true, false,
  if◌then◌else◌, ltb, leb, str_cmp, take, drop, length, min, max,
}
use mmdb.Common.BTreeMap
use mmdb.Errors.{Error, Result, ok, err, ◌>>=◌, ok_or}
use mmdb.Ir.{
  TableId, FieldRef, Predicate, SortKey, JoinKey, ScoreExpr, Expr, AggregateExpr, LogicalPlan,
  Platform,
}
use mmdb.Eval.{Record, predicate_matches, sort_rows, project_records, aggregate_records}
use mmdb.Executor.{
  ExecutionContext, UdfFn, Context, Row, Plan, passes, vector_search_rows, join_rows, rescore,
  apply_udf, expand_rows, unsupported_table, unregistered_udf,
}

-- `MaterializedOperator`.
pub record Materialized (F : Type 0) : Type 0 where
  pub rows : List (Record F)
  pub cursor : ℕ
  pub batch_size : ℕ

-- The fields `input` and `output` of a blocking operator: the input is taken before the output
-- is there. `consumed` is what an error in between leaves.
mutual
  pub data Operator (F : Type 0) : Type 0 where
    scan : Option (Predicate F) → ℕ → ℕ → Operator F
    materialized : Materialized F → Operator F
    graph_expand : Stage F → Option String → ℕ → ℕ → Operator F
    filter : Operator F → Predicate F → List (Record F) → ℕ → Operator F
    score : Operator F → ScoreExpr F → Operator F
    top_k : Stage F → ℕ → SortKey → ℕ → Operator F
    join : JoinStage F → JoinKey → ℕ → Operator F
    aggregate : Stage F → List FieldRef → AggregateExpr → ℕ → Operator F
    project : Operator F → List FieldRef → Operator F
    udf : Operator F → UdfFn F → List (Expr F) → Operator F

  pub data Stage (F : Type 0) : Type 0 where
    waiting : Operator F → Stage F
    ready : Materialized F → Stage F
    consumed : Stage F

  pub data JoinStage (F : Type 0) : Type 0 where
    both : Operator F → Operator F → JoinStage F
    joined : Materialized F → JoinStage F
    spent : JoinStage F

-- A call's answer and the operator after it. `exhausted`: the fuel ran out.
pub data Outcome (F : Type 0) (A : Type 0) : Type 0 where
  done : Result A → Operator F → Outcome F A
  exhausted : Outcome F A

abbrev pub Next : Type 0 → Type 0
Next F = Operator F → Outcome F (Option (List (Record F)))

module _ ⦃p : Platform⦄ where
  abbrev pub Op : Type 0
  Op = Operator p.F32

  abbrev pub new_materialized : List Row → ℕ → Materialized p.F32
  new_materialized rows batch_size = record {
    rows = rows;
    cursor = 0;
    batch_size = max batch_size 1;
  }

  -- `if rows.is_empty() { None } else { Some(batch) }`.
  abbrev pub some_batch : List Row → Option (List Row)
  some_batch [] = none
  some_batch (r ∷ rows) = some (r ∷ rows)

  -- `MaterializedOperator::next_batch`: the batch, and where the cursor stands after it.
  unfoldable pub next_slice : Materialized p.F32 → Option (List Row) × Materialized p.F32
  next_slice m =
      let end = min (m.cursor + m.batch_size) (length m.rows) in
      if leb (length m.rows) m.cursor
      then (none, m)
      else (some (take (end - m.cursor) (drop m.cursor m.rows)), record m { cursor = end })

  -- The loop of `ScanOperator::next_batch` over the nodes from the cursor on.
  unfoldable pub scan_loop : Option (Predicate p.F32) → ℕ → List Row → List Row → ℕ → List Row × ℕ
  scan_loop f batch_size [] rows cursor = (rows, cursor)
  scan_loop f batch_size (r ∷ rest) rows cursor =
      let later =
        scan_loop f batch_size rest (if passes f r then rows ++ r ∷ [] else rows) (suc cursor) in
      if ltb (length rows) batch_size then later else (rows, cursor)

  abbrev scan_answer :
      Option (Predicate p.F32) → ℕ → List Row × ℕ → Outcome p.F32 (Option (List Row))
  scan_answer f batch_size (rows, cursor) =
      done (ok (some_batch rows)) (Operator.scan f cursor batch_size)

  -- `for record in batch.rows` of the filter: what matches fills the batch, the rest is pending.
  unfoldable pub distribute :
      Predicate p.F32 → ℕ → List Row → List Row → List Row → List Row × List Row
  distribute pred batch_size [] rows pending = (rows, pending)
  distribute pred batch_size (r ∷ batch) rows pending = elim (predicate_matches r pred) [
    | false ↦ distribute pred batch_size batch rows pending
    | true ↦ elim (ltb (length rows) batch_size) [
      | true ↦ distribute pred batch_size batch (rows ++ r ∷ []) pending
      | false ↦ distribute pred batch_size batch rows (pending ++ r ∷ [])
    ]
  ]

  abbrev filter_answer :
      Predicate p.F32 → ℕ → List Row → List Row → Op → Outcome p.F32 (Option (List Row))
  filter_answer pred batch_size rows pending input =
      done (ok (some_batch rows)) (Operator.filter input pred pending batch_size)

  -- The loop of `FilterOperator::next_batch`, on fuel.
  unfoldable pub filter_loop :
      Next p.F32
      → Predicate p.F32
      → ℕ
      → ℕ
      → List Row
      → List Row
      → Op
      → Outcome p.F32 (Option (List Row))
  filter_loop next pred batch_size zero rows pending input = exhausted
  filter_loop next pred batch_size (suc fuel) rows pending input =
      elim (ltb (length rows) batch_size) [
        | false ↦ filter_answer pred batch_size rows pending input
        | true ↦ elim pending [
          | r ∷ rest ↦ filter_loop next pred batch_size fuel (rows ++ r ∷ []) rest input
          | [] ↦ elim (next input) [
            | exhausted ↦ exhausted
            | done (err e) input' ↦ done (err e) (Operator.filter input' pred [] batch_size)
            | done (ok none) input' ↦ filter_answer pred batch_size rows [] input'
            | done (ok (some batch)) input' ↦
                let parts = distribute pred batch_size batch rows [] in
                filter_loop next pred batch_size fuel parts.0 parts.1 input'
          ]
        ]
      ]

  -- `materialize_operator`, on fuel.
  unfoldable pub drain : Next p.F32 → ℕ → List Row → Op → Outcome p.F32 (List Row)
  drain next zero rows op = exhausted
  drain next (suc fuel) rows op = elim (next op) [
    | exhausted ↦ exhausted
    | done (err e) op' ↦ done (err e) op'
    | done (ok none) op' ↦ done (ok rows) op'
    | done (ok (some batch)) op' ↦ drain next fuel (rows ++ batch) op'
  ]

  -- A streaming operator over one input: `f` maps the batch, and `again` puts the input back.
  unfoldable pub stream :
      (List Row → List Row)
      → (Op → Op)
      → Outcome p.F32 (Option (List Row))
      → Outcome p.F32 (Option (List Row))
  stream f again exhausted = exhausted
  stream f again (done (err e) input) = done (err e) (again input)
  stream f again (done (ok none) input) = done (ok none) (again input)
  stream f again (done (ok (some batch)) input) = done (ok (some (f batch))) (again input)

  -- `self.output.as_mut().expect("output initialized").next_batch()`.
  abbrev pub serve :
      (Materialized p.F32 → Op) → Materialized p.F32 → Outcome p.F32 (Option (List Row))
  serve again m = done (ok (next_slice m).0) (again (next_slice m).1)

  -- A blocking operator whose input has been drained: `finish` makes the output.
  unfoldable pub block :
      (List Row → List Row)
      → ℕ
      → (Stage p.F32 → Op)
      → Outcome p.F32 (List Row)
      → Outcome p.F32 (Option (List Row))
  block finish batch_size again exhausted = exhausted
  block finish batch_size again (done (err e) _) = done (err e) (again Stage.consumed)
  block finish batch_size again (done (ok rows) _) =
      serve (λ m. again (Stage.ready m)) (new_materialized (finish rows) batch_size)

  -- The same for a join, whose right input is drained after the left one.
  unfoldable pub block_join :
      Outcome p.F32 (List Row)
      → Outcome p.F32 (List Row)
      → JoinKey
      → ℕ
      → Outcome p.F32 (Option (List Row))
  block_join exhausted _ on batch_size = exhausted
  block_join (done (err e) _) _ on batch_size =
      done (err e) (Operator.join JoinStage.spent on batch_size)
  block_join (done (ok _) _) exhausted on batch_size = exhausted
  block_join (done (ok _) _) (done (err e) _) on batch_size =
      done (err e) (Operator.join JoinStage.spent on batch_size)
  block_join (done (ok left) _) (done (ok right) _) on batch_size =
      serve (λ m. Operator.join (JoinStage.joined m) on batch_size)
        (new_materialized (join_rows left right on) batch_size)

  -- Taking an input that is gone.
  abbrev pub already_consumed : String → Op → Outcome p.F32 (Option (List Row))
  already_consumed message op = done (err (Error.invalid_argument message)) op

  -- A call of a blocking operator in each stage, `run` draining an input.
  unfoldable pub staged :
      (Op → Outcome p.F32 (List Row))
      → (List Row → List Row)
      → ℕ
      → (Stage p.F32 → Op)
      → String
      → Stage p.F32
      → Outcome p.F32 (Option (List Row))
  staged run finish batch_size again message (Stage.waiting input) =
      block finish batch_size again (run input)
  staged run finish batch_size again message (Stage.ready m) =
      serve (λ m'. again (Stage.ready m')) m
  staged run finish batch_size again message Stage.consumed =
      already_consumed message (again Stage.consumed)

  unfoldable pub staged_join :
      (Op → Outcome p.F32 (List Row))
      → JoinKey
      → ℕ
      → JoinStage p.F32
      → Outcome p.F32 (Option (List Row))
  staged_join run on batch_size (JoinStage.both left right) =
      block_join (run left) (run right) on batch_size
  staged_join run on batch_size (JoinStage.joined m) =
      serve (λ m'. Operator.join (JoinStage.joined m') on batch_size) m
  staged_join run on batch_size JoinStage.spent =
      already_consumed "join left input already consumed"
        (Operator.join JoinStage.spent on batch_size)

  -- One call of `next_batch` of each operator; `next` calls that of an input.
  unfoldable pub step : Context → Next p.F32 → ℕ → Next p.F32
  step ctx next fuel (Operator.scan f cursor batch_size) =
      scan_answer f batch_size (scan_loop f batch_size (drop cursor ctx.nodes) [] cursor)
  step ctx next fuel (Operator.materialized m) = serve Operator.materialized m
  step ctx next fuel (Operator.graph_expand stage relation depth batch_size) =
      staged (drain next fuel []) (λ seeds. expand_rows ctx seeds relation depth) batch_size
        (λ s. Operator.graph_expand s relation depth batch_size) "graph input already consumed"
        stage
  step ctx next fuel (Operator.filter input pred pending batch_size) =
      filter_loop next pred batch_size fuel [] pending input
  step ctx next fuel (Operator.score input expr) =
      stream (map (rescore expr)) (λ i. Operator.score i expr) (next input)
  step ctx next fuel (Operator.top_k stage k by batch_size) =
      staged (drain next fuel []) (λ rows. take k (sort_rows by rows)) batch_size
        (λ s. Operator.top_k s k by batch_size) "top-k input already consumed" stage
  step ctx next fuel (Operator.join stage on batch_size) =
      staged_join (drain next fuel []) on batch_size stage
  step ctx next fuel (Operator.aggregate stage group_by agg batch_size) =
      staged (drain next fuel []) (λ rows. aggregate_records rows group_by agg) batch_size
        (λ s. Operator.aggregate s group_by agg batch_size) "aggregate input already consumed" stage
  step ctx next fuel (Operator.project input fields) =
      stream (λ rows. project_records rows fields) (λ i. Operator.project i fields) (next input)
  step ctx next fuel (Operator.udf input f args) =
      stream (map (apply_udf f args)) (λ i. Operator.udf i f args) (next input)

  -- `PhysicalOperator::next_batch`, on fuel for the depth of the tree and for the loops.
  unfoldable pub next_batch : Context → ℕ → Next p.F32
  next_batch ctx zero op = exhausted
  next_batch ctx (suc fuel) op = step ctx (next_batch ctx fuel) fuel op

  unfoldable pub materialize_operator : Context → ℕ → Op → Outcome p.F32 (List Row)
  materialize_operator ctx fuel op = drain (next_batch ctx fuel) fuel [] op

  abbrev pub compile_scan : TableId → Option (Predicate p.F32) → ℕ → Result Op
  compile_scan TableId.nodes f batch_size = ok (Operator.scan f 0 batch_size)
  compile_scan table f batch_size = err (unsupported_table table)

  -- The recursion of `Executor::compile`, with the batch size that its first line makes positive.
  unfoldable pub compile_plan : Context → Plan → ℕ → Result Op
  compile_plan ctx (LogicalPlan.scan table f) n = compile_scan table f n
  compile_plan ctx (LogicalPlan.vector_search query k f model) n =
      ok (Operator.materialized (new_materialized (vector_search_rows ctx k f) n))
  compile_plan ctx (LogicalPlan.graph_expand from relation depth) n = do
    input ← compile_plan ctx from n
    ok (Operator.graph_expand (Stage.waiting input) relation depth n)
  compile_plan ctx (LogicalPlan.filter input pred) n = do
    op ← compile_plan ctx input n
    ok (Operator.filter op pred [] n)
  compile_plan ctx (LogicalPlan.score input expr) n = do
    op ← compile_plan ctx input n
    ok (Operator.score op expr)
  compile_plan ctx (LogicalPlan.top_k input k by) n = do
    op ← compile_plan ctx input n
    ok (Operator.top_k (Stage.waiting op) k by n)
  compile_plan ctx (LogicalPlan.join left right on) n = do
    left_op ← compile_plan ctx left n
    right_op ← compile_plan ctx right n
    ok (Operator.join (JoinStage.both left_op right_op) on n)
  compile_plan ctx (LogicalPlan.aggregate input group_by agg) n = do
    op ← compile_plan ctx input n
    ok (Operator.aggregate (Stage.waiting op) group_by agg n)
  compile_plan ctx (LogicalPlan.project input fields) n = do
    op ← compile_plan ctx input n
    ok (Operator.project op fields)
  compile_plan ctx (LogicalPlan.udf input name args) n = do
    f ← ok_or (BTreeMap.get str_cmp name ctx.udfs) (unregistered_udf name)
    op ← compile_plan ctx input n
    ok (Operator.udf op f args)

  unfoldable pub compile : Context → Plan → ℕ → Result Op
  compile ctx plan batch_size = compile_plan ctx plan (max batch_size 1)
