-- ===== src/Operator/Refine.antt =====
-- The batch executor against direct evaluation: compiling a plan and draining the operators
-- delivers what `Executor::execute` computes, rows and errors.
use mathlib.Core.Path.{subst}
use mmdb.Common.{
  ℕ, suc, ◌+◌, ◌≤◌, ◌<◌, ◌≡◌, refl, Option, none, some, List, [], arith, length, max, Option-cases,
  inl, inr, str_cmp,
}
use mmdb.Common.BTreeMap
use mmdb.Errors.{Result, ok, err, ◌>>=◌}
use mmdb.Ir.{Platform, LogicalPlan, TableId}
use mmdb.Executor.{Context, Row, Plan, execute}
use mmdb.Operator.{
  Operator, Outcome, done, exhausted, Op, JoinStage, next_batch, compile, compile_plan,
  materialize_operator,
}
use mmdb.Operator.Rows.{IsLive, IsLiveStage, IsLiveJoin, rows_of, cost}
use mmdb.Operator.Loops.{drain_lem}
use mmdb.Operator.Answer.{next_batch_lem}

module _ ⦃p : Platform⦄ (ctx : Context) where
  abbrev pub drained : Outcome p.F32 (List Row) → Option (Result (List Row))
  drained exhausted = none
  drained (done r op) = some r

  abbrev pub run_op : Result Op → ℕ → Option (Result (List Row))
  run_op (err e) fuel = some (err e)
  run_op (ok op) fuel = drained (materialize_operator ctx fuel op)

  -- What a compiled plan stands for.
  abbrev meaning : Result Op → Result (List Row)
  meaning c = c >>= λ op. ok (rows_of ctx op)

  -- The operators of a plan stand for the rows that evaluation computes, and compilation fails
  -- with the same error.
  execute-eq-meaning : (plan : Plan) (n : ℕ) → execute ctx plan ≡ meaning (compile_plan ctx plan n)
  unfolding execute compile_plan rows_of
  execute-eq-meaning (LogicalPlan.scan TableId.nodes f) n = refl
  execute-eq-meaning (LogicalPlan.scan _ f) n = refl
  execute-eq-meaning (LogicalPlan.vector_search query k f model) n = refl
  execute-eq-meaning (LogicalPlan.graph_expand from relation depth) n =
      ground (arith, execute-eq-meaning from n)
  execute-eq-meaning (LogicalPlan.filter input pred) n = ground (arith, execute-eq-meaning input n)
  execute-eq-meaning (LogicalPlan.score input expr) n = ground (arith, execute-eq-meaning input n)
  execute-eq-meaning (LogicalPlan.top_k input k by) n = ground (arith, execute-eq-meaning input n)
  execute-eq-meaning (LogicalPlan.join left right on) n =
      ground (arith, execute-eq-meaning left n, execute-eq-meaning right n)
  execute-eq-meaning (LogicalPlan.aggregate input group_by agg) n =
      ground (arith, execute-eq-meaning input n)
  execute-eq-meaning (LogicalPlan.project input fields) n =
      ground (arith, execute-eq-meaning input n)
  execute-eq-meaning (LogicalPlan.udf input name args) n =
      ground (arith, execute-eq-meaning input n)

  abbrev LiveResult : Result Op → Type 0
  LiveResult (ok op) = IsLive op
  LiveResult (err e) = Unit

  bind-LiveResult :
      (c : Result Op) (again : Op → Op)
      → ((op : Op) → IsLive op → IsLive (again op))
      → LiveResult c
      → LiveResult (c >>= λ op. ok (again op))
  bind-LiveResult (ok op) again keep live = keep op live
  bind-LiveResult (err e) again keep live = tt

  compile_plan-LiveResult : (plan : Plan) (n : ℕ) → 0 < n → LiveResult (compile_plan ctx plan n)
  unfolding compile_plan
  compile_plan-LiveResult (LogicalPlan.scan TableId.nodes f) n pos = IsLive.scan pos
  compile_plan-LiveResult (LogicalPlan.scan _ f) n pos = tt
  compile_plan-LiveResult (LogicalPlan.vector_search query k f model) n pos =
      IsLive.materialized (omega arith)
  compile_plan-LiveResult (LogicalPlan.graph_expand from relation depth) n pos =
      bind-LiveResult (compile_plan ctx from n) _
        (λ op live. IsLive.graph_expand (IsLiveStage.waiting live))
        (compile_plan-LiveResult from n pos)
  compile_plan-LiveResult (LogicalPlan.filter input pred) n pos =
      bind-LiveResult (compile_plan ctx input n) _ (λ op live. IsLive.filtering live pos)
        (compile_plan-LiveResult input n pos)
  compile_plan-LiveResult (LogicalPlan.score input expr) n pos =
      bind-LiveResult (compile_plan ctx input n) _ (λ op. IsLive.score)
        (compile_plan-LiveResult input n pos)
  compile_plan-LiveResult (LogicalPlan.top_k input k by) n pos =
      bind-LiveResult (compile_plan ctx input n) _
        (λ op live. IsLive.top_k (IsLiveStage.waiting live)) (compile_plan-LiveResult input n pos)
  compile_plan-LiveResult (LogicalPlan.join left right on) n pos =
      join-LiveResult (compile_plan ctx left n) (compile_plan ctx right n)
        (compile_plan-LiveResult left n pos) (compile_plan-LiveResult right n pos)
    where
      join-LiveResult :
          (l r : Result Op)
          → LiveResult l
          → LiveResult r
          → LiveResult (l >>= λ a. r >>= λ b. ok (Operator.join (JoinStage.both a b) on n))
      join-LiveResult (ok a) (ok b) live_l live_r = IsLive.join (IsLiveJoin.both live_l live_r)
      join-LiveResult (ok a) (err e) live_l live_r = tt
      join-LiveResult (err e) r live_l live_r = tt
  compile_plan-LiveResult (LogicalPlan.aggregate input group_by agg) n pos =
      bind-LiveResult (compile_plan ctx input n) _
        (λ op live. IsLive.aggregate (IsLiveStage.waiting live))
        (compile_plan-LiveResult input n pos)
  compile_plan-LiveResult (LogicalPlan.project input fields) n pos =
      bind-LiveResult (compile_plan ctx input n) _ (λ op. IsLive.project)
        (compile_plan-LiveResult input n pos)
  compile_plan-LiveResult (LogicalPlan.udf input name args) n pos =
      elim (Option-cases (BTreeMap.get str_cmp name ctx.udfs)) [
        | inl missing ↦ rw missing tt
        | inr (f, found) ↦ rw found (
            bind-LiveResult (compile_plan ctx input n) (λ op. Operator.udf op f args)
              (λ op. IsLive.udf) (compile_plan-LiveResult input n pos))
      ]

  -- Draining a live operator on any fuel above what it counts delivers the rows that it stands for.
  pub materialize_operator_lem :
      (op : Op) (fuel : ℕ)
      → IsLive op
      → cost ctx op + length (rows_of ctx op) < fuel
      → (op' : Op) × (materialize_operator ctx fuel op ≡ done (ok (rows_of ctx op)) op')
  unfolding materialize_operator
  materialize_operator_lem op fuel live enough =
      drain_lem ctx (next_batch ctx fuel) fuel (next_batch_lem ctx fuel) fuel [] op live
        (omega arith) (omega arith)

  -- Compiling a plan and draining its operators.
  abbrev pub run : Plan → ℕ → ℕ → Option (Result (List Row))
  run plan batch_size fuel = run_op (compile ctx plan batch_size) fuel

  abbrev fuel_of : Result Op → ℕ
  fuel_of (err e) = 0
  fuel_of (ok op) = suc (cost ctx op + length (rows_of ctx op))

  -- Fuel that draining a compiled plan never exhausts.
  abbrev pub enough_fuel : Plan → ℕ → ℕ
  enough_fuel plan batch_size = fuel_of (compile ctx plan batch_size)

  -- For every plan and every batch size, given at least `enough_fuel`, compiling the plan and
  -- draining its operators returns exactly what `Executor::execute` returns: the same rows in the
  -- same order, or the same error.
  pub run-execute :
      (plan : Plan) (batch_size fuel : ℕ)
      → enough_fuel plan batch_size ≤ fuel
      → run plan batch_size fuel ≡ some (execute ctx plan)
  unfolding compile
  run-execute plan batch_size fuel le = go (compile_plan ctx plan n) refl le
    where
      n : ℕ
      n = max batch_size 1

      go :
          (c : Result Op)
          → compile_plan ctx plan n ≡ c
          → fuel_of c ≤ fuel
          → run_op c fuel ≡ some (execute ctx plan)
      go (err e) failed le = rw (execute-eq-meaning plan n, failed) refl
      go (ok op) compiled le =
          let live : IsLive op =
            subst LiveResult compiled (compile_plan-LiveResult plan n (omega arith)) in
          let (op', e) = materialize_operator_lem op fuel live le in
          rw (execute-eq-meaning plan n, compiled, e) refl
