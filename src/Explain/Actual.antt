-- ===== src/Explain/Actual.antt =====
-- `Executor::explain` against the plan's shape and its evaluation.
use mmdb.Common.{
  ℕ, ◌≡◌, refl, ap, Option, none, some, List, length, inl, inr, false, Option-cases, str_cmp, ap₂,
  map, filter, take,
}
use mmdb.Common.BTreeMap
use mmdb.Errors.{Error, Result, ok, err, ◌>>=◌}
use mmdb.Ir.{Platform, LogicalPlan, JoinKey}
use mmdb.Stats.{Stats, estimate_selectivity}
use mmdb.Strategy.{estimate_rows_by_selectivity}
use mmdb.Eval.{predicate_matches, sort_rows, aggregate_records, project_records}
use mmdb.Executor.{
  Context, Row, Plan, execute, join_rows, expand_rows, rescore, apply_udf, unregistered_udf,
}
use mmdb.Explain.{
  ExplainNode, ExplainNodes, Explained, explain_with_estimate, explain_shape_with_estimate,
  one_child, run_node, join_node, shape_node, grow_rows, min_rows,
}

-- The node without the actual rows.
unfoldable mutual
  pub shape : ExplainNode → ExplainNode
  shape (ExplainNode.node name estimated actual children) =
      ExplainNode.node name estimated none (shapes children)

  pub shapes : ExplainNodes → ExplainNodes
  shapes ExplainNodes.nil = ExplainNodes.nil
  shapes (ExplainNodes.cons n ns) = ExplainNodes.cons (shape n) (shapes ns)

abbrev pub actual_rows : ExplainNode → Option ℕ
actual_rows (ExplainNode.node name estimated actual children) = actual

module _ ⦃p : Platform⦄ where
  -- An explained plan has the planned shape and the rows of its evaluation, and fails where that does.
  abbrev pub Explains : Result Explained → Result (List Row) → Explained → Type 0
  Explains (ok e) (ok rows) planned =
      ((shape e.0, e.1) ≡ planned) × (actual_rows e.0 ≡ some (length rows))
  Explains (err e) (err e') planned = Unit
  Explains _ _ planned = ⊥

  module _ (ctx : Context) (stats : Stats p.F32) where
    unary :
        (plan : Plan) (grow : Option ℕ → Option ℕ) (f : List Row → List Row) (x : Result Explained)
        (y : Result (List Row)) (c : Explained)
        → Explains x y c
        → execute ctx plan ≡ (y >>= λ rows. ok (f rows))
        → Explains
            (x >>= λ e. run_node ctx plan (grow e.1) (one_child e.0))
            (execute ctx plan)
            (shape_node false plan (grow c.1) (one_child c.0))
    unfolding shape shapes
    unary plan grow f (ok e) (ok rows) c h ran =
        rw ran (ap (λ (s : Explained). shape_node false plan (grow s.1) (one_child s.0)) h.0, refl)
    unary plan grow f (err e) (err e') c h ran = rw ran tt
    unary plan grow f (ok e) (err e') c h ran = absurd h
    unary plan grow f (err e) (ok rows) c h ran = absurd h

    -- An operator that fails by itself.
    failing :
        (plan : Plan) (e' : Error) (x : Result Explained) (c : Explained)
        → execute ctx plan ≡ err e'
        → Explains (x >>= λ e. run_node ctx plan e.1 (one_child e.0)) (execute ctx plan) c
    failing plan e' (ok e) c ran = rw ran tt
    failing plan e' (err e) c ran = rw ran tt

    joined :
        (left right : Plan) (on : JoinKey) (x : Result Explained) (y : Result (List Row))
        (c : Explained) (x' : Result Explained) (y' : Result (List Row)) (c' : Explained)
        → Explains x y c
        → Explains x' y' c'
        → execute ctx (LogicalPlan.join left right on)
          ≡ (y >>= λ l. y' >>= λ r. ok (join_rows l r on))
        → Explains
            (x >>= λ e. x' >>= λ e'. execute ctx (LogicalPlan.join left right on) >>= λ rows.
              ok (join_node on e e' (some (length rows))))
            (execute ctx (LogicalPlan.join left right on))
            (join_node on c c' none)
    unfolding shape shapes
    joined left right on (ok e) (ok rows) c (ok e') (ok rows') c' h h' ran =
        rw ran (ap₂ (λ (s s' : Explained). join_node on s s' none) h.0 h'.0, refl)
    joined left right on (ok e) (ok rows) c (err e') (err e'') c' h h' ran = rw ran tt
    joined left right on (err e) (err e') c x' y' c' h h' ran = rw ran tt
    joined left right on (ok e) (err e') c x' y' c' h h' ran = absurd h
    joined left right on (err e) (ok rows) c x' y' c' h h' ran = absurd h
    joined left right on (ok e) (ok rows) c (err e') (ok rows') c' h h' ran = absurd h'
    joined left right on (ok e) (ok rows) c (ok e') (err e'') c' h h' ran = absurd h'

    scanned :
        (plan : Plan) (estimated : Option ℕ) (y : Result (List Row))
        → execute ctx plan ≡ y
        → Explains
            (run_node ctx plan estimated ExplainNodes.nil)
            (execute ctx plan)
            (shape_node false plan estimated ExplainNodes.nil)
    unfolding shape shapes
    scanned plan estimated (ok rows) ran = rw ran (refl, refl)
    scanned plan estimated (err e) ran = rw ran tt

    -- Explaining succeeds exactly when evaluation does; the tree it gives has the operator names and
    -- estimates of the static explanation, and its root reports the number of rows evaluated.
    pub explain_with_estimate-Explains :
        (plan : Plan)
        → Explains
            (explain_with_estimate ctx plan stats)
            (execute ctx plan)
            (explain_shape_with_estimate plan stats false)
    unfolding explain_with_estimate explain_shape_with_estimate execute
    explain_with_estimate-Explains (LogicalPlan.scan t f) = scanned (LogicalPlan.scan t f) _ _ refl
    explain_with_estimate-Explains (LogicalPlan.vector_search q k f m) =
        scanned (LogicalPlan.vector_search q k f m) _ _ refl
    explain_with_estimate-Explains (LogicalPlan.graph_expand from relation depth) =
        unary (LogicalPlan.graph_expand from relation depth) (λ est. grow_rows est depth)
          (λ rows. expand_rows ctx rows relation depth) _ _ _ (explain_with_estimate-Explains from)
          refl
    explain_with_estimate-Explains (LogicalPlan.filter input pred) =
        unary (LogicalPlan.filter input pred)
          (λ est. estimate_rows_by_selectivity est (estimate_selectivity stats pred))
          (filter (λ r. predicate_matches r pred)) _ _ _ (explain_with_estimate-Explains input) refl
    explain_with_estimate-Explains (LogicalPlan.score input expr) =
        unary (LogicalPlan.score input expr) (λ est. est) (map (rescore expr)) _ _ _
          (explain_with_estimate-Explains input) refl
    explain_with_estimate-Explains (LogicalPlan.top_k input k by) =
        unary (LogicalPlan.top_k input k by) (λ est. min_rows est k)
          (λ rows. take k (sort_rows by rows)) _ _ _ (explain_with_estimate-Explains input) refl
    explain_with_estimate-Explains (LogicalPlan.join left right on) =
        joined left right on _ _ _ _ _ _ (explain_with_estimate-Explains left)
          (explain_with_estimate-Explains right) refl
    explain_with_estimate-Explains (LogicalPlan.aggregate input group_by agg) =
        unary (LogicalPlan.aggregate input group_by agg) (λ est. est)
          (λ rows. aggregate_records rows group_by agg) _ _ _ (explain_with_estimate-Explains input)
          refl
    explain_with_estimate-Explains (LogicalPlan.project input fields) =
        unary (LogicalPlan.project input fields) (λ est. est) (λ rows. project_records rows fields)
          _ _ _ (explain_with_estimate-Explains input) refl
    explain_with_estimate-Explains (LogicalPlan.udf input name args) =
        elim (Option-cases (BTreeMap.get str_cmp name ctx.udfs)) [
          | inl missing ↦
              failing (LogicalPlan.udf input name args) (unregistered_udf name) _ _
                (rw missing refl)
          | inr (f, found) ↦
              unary (LogicalPlan.udf input name args) (λ est. est) (map (apply_udf f args)) _ _ _
                (explain_with_estimate-Explains input) (rw found refl)
        ]
