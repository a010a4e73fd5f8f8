-- ===== src/Operator/Rows.antt =====
-- What an operator has still to deliver: the rows that it stands for, read off its state, and the
-- fuel that `next_batch` needs for it.
use mmdb.Common.{ℕ, ◌+◌, ◌*◌, ◌<◌, List, [], ◌++◌, map, filter, take, drop, length}
use mmdb.Ir.{Platform, JoinKey}
use mmdb.Eval.{Record, predicate_matches, sort_rows, project_records, aggregate_records}
use mmdb.Executor.{Context, Row, passes, join_rows, rescore, apply_udf, expand_rows}
use mmdb.Operator.{Materialized, Operator, Stage, JoinStage, Op}

-- Every batch size in the tree is positive, and no input was lost to an error.
mutual
  pub data IsLive {F : Type 0} : Operator F → Type 0 where
    scan : {f : _} {c n : ℕ} → 0 < n → IsLive (Operator.scan f c n)
    materialized : {m : Materialized F} → 0 < m.batch_size → IsLive (Operator.materialized m)
    graph_expand :
        {s : Stage F} {rel : _} {d n : ℕ} → IsLiveStage s → IsLive (Operator.graph_expand s rel d n)
    filtering :
        {op : Operator F} {q : _} {pending : _} {n : ℕ}
        → IsLive op
        → 0 < n
        → IsLive (Operator.filter op q pending n)
    score : {op : Operator F} {e : _} → IsLive op → IsLive (Operator.score op e)
    top_k :
        {s : Stage F} {k : ℕ} {by : _} {n : ℕ} → IsLiveStage s → IsLive (Operator.top_k s k by n)
    join : {s : JoinStage F} {on : _} {n : ℕ} → IsLiveJoin s → IsLive (Operator.join s on n)
    aggregate :
        {s : Stage F} {g : _} {a : _} {n : ℕ} → IsLiveStage s → IsLive (Operator.aggregate s g a n)
    project : {op : Operator F} {fs : _} → IsLive op → IsLive (Operator.project op fs)
    udf : {op : Operator F} {f : _} {args : _} → IsLive op → IsLive (Operator.udf op f args)

  pub data IsLiveStage {F : Type 0} : Stage F → Type 0 where
    waiting : {op : Operator F} → IsLive op → IsLiveStage (Stage.waiting op)
    ready : {m : Materialized F} → 0 < m.batch_size → IsLiveStage (Stage.ready m)

  pub data IsLiveJoin {F : Type 0} : JoinStage F → Type 0 where
    both : {l r : Operator F} → IsLive l → IsLive r → IsLiveJoin (JoinStage.both l r)
    joined : {m : Materialized F} → 0 < m.batch_size → IsLiveJoin (JoinStage.joined m)

abbrev pub slice_rows : {F : Type 0} → Materialized F → List (Record F)
slice_rows m = drop m.cursor m.rows

module _ ⦃p : Platform⦄ (ctx : Context) where
  unfoldable mutual
    pub rows_of : Op → List Row
    rows_of (Operator.scan f c n) = filter (passes f) (drop c ctx.nodes)
    rows_of (Operator.materialized m) = slice_rows m
    rows_of (Operator.graph_expand s relation depth n) =
        stage_rows s (λ seeds. expand_rows ctx seeds relation depth)
    rows_of (Operator.filter op q pending n) =
        pending ++ filter (λ r. predicate_matches r q) (rows_of op)
    rows_of (Operator.score op e) = map (rescore e) (rows_of op)
    rows_of (Operator.top_k s k by n) = stage_rows s (λ rows. take k (sort_rows by rows))
    rows_of (Operator.join s on n) = join_stage_rows s on
    rows_of (Operator.aggregate s g a n) = stage_rows s (λ rows. aggregate_records rows g a)
    rows_of (Operator.project op fs) = project_records (rows_of op) fs
    rows_of (Operator.udf op f args) = map (apply_udf f args) (rows_of op)

    pub stage_rows : Stage p.F32 → (List Row → List Row) → List Row
    stage_rows (Stage.waiting op) finish = finish (rows_of op)
    stage_rows (Stage.ready m) finish = slice_rows m
    stage_rows Stage.consumed finish = []

    pub join_stage_rows : JoinStage p.F32 → JoinKey → List Row
    join_stage_rows (JoinStage.both l r) on = join_rows (rows_of l) (rows_of r) on
    join_stage_rows (JoinStage.joined m) on = slice_rows m
    join_stage_rows JoinStage.spent on = []

  unfoldable mutual
    pub cost : Op → ℕ
    cost (Operator.scan f c n) = 1
    cost (Operator.materialized m) = 1
    cost (Operator.graph_expand s relation depth n) = stage_cost s
    cost (Operator.filter op q pending n) = 2 + cost op + length pending + 2 * length (rows_of op)
    cost (Operator.score op e) = 1 + cost op
    cost (Operator.top_k s k by n) = stage_cost s
    cost (Operator.join s on n) = join_stage_cost s
    cost (Operator.aggregate s g a n) = stage_cost s
    cost (Operator.project op fs) = 1 + cost op
    cost (Operator.udf op f args) = 1 + cost op

    pub stage_cost : Stage p.F32 → ℕ
    stage_cost (Stage.waiting op) = 2 + cost op + length (rows_of op)
    stage_cost (Stage.ready m) = 1
    stage_cost Stage.consumed = 1

    pub join_stage_cost : JoinStage p.F32 → ℕ
    join_stage_cost (JoinStage.both l r) =
        2 + cost l + cost r + length (rows_of l) + length (rows_of r)
    join_stage_cost (JoinStage.joined m) = 1
    join_stage_cost JoinStage.spent = 1
