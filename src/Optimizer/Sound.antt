-- ===== src/Optimizer/Sound.antt =====
-- `Optimizer::optimize` against evaluation.
use mmdb.Common.{
  ℕ, zero, suc, ◌≤◌, ◌≡◌, refl, sym, ap, ◌∙◌, Option, some, List, [], ◌∷◌, Bool, true, false, ◌&&◌,
  arith, filter-filter, filter_congr, max,
}
use mmdb.Errors.{ok}
use mmdb.Ir.{Platform, LogicalPlan, Predicate, TableId, JoinKey}
use mmdb.Eval.{predicate_matches}
use mmdb.Stats.{Stats}
use mmdb.Builder.{combine_optional_filter}
use mmdb.Builder.Meaning.{matches-combine_optional_filter}
use mmdb.Executor.{Context, Plan, execute, passes}
use mmdb.Optimizer.{
  optimize, push_filter, reorder_safe_join_chain, unwrap_or, build_left_deep_join, join_on_left,
  pick,
}
use mmdb.Optimizer.Cases.{reorder_cases}
use mmdb.Optimizer.Leaves.{UniqueIds}
use mmdb.Optimizer.Reorder.{execute-reorder_safe_join_chain}

max_left : (a b : ℕ) → a ≤ max a b
max_left a b = omega arith

max_right : (a b : ℕ) → b ≤ max a b
max_right a b = omega arith

and_left : (a b : Bool) → (a && b) ≡ true → a ≡ true
and_left a b h = ground arith

and_right : (a b : Bool) → (a && b) ≡ true → b ≡ true
and_right a b h = ground arith

module _ ⦃p : Platform⦄ where
  -- A filter over such a plan is not pushed below a vector search or a graph expansion.
  unfoldable pub keeps_filter : Plan → Bool
  keeps_filter (LogicalPlan.vector_search _ _ _ _) = false
  keeps_filter (LogicalPlan.graph_expand _ _ _) = false
  keeps_filter (LogicalPlan.filter input _) = keeps_filter input
  keeps_filter _ = true

  -- No filter of the plan stands directly over a vector search or a graph expansion.
  unfoldable pub is_exact : Plan → Bool
  is_exact (LogicalPlan.scan _ _) = true
  is_exact (LogicalPlan.vector_search _ _ _ _) = true
  is_exact (LogicalPlan.graph_expand from _ _) = is_exact from
  is_exact (LogicalPlan.filter input _) = keeps_filter input && is_exact input
  is_exact (LogicalPlan.score input _) = is_exact input
  is_exact (LogicalPlan.top_k input _ _) = is_exact input
  is_exact (LogicalPlan.join left right _) = is_exact left && is_exact right
  is_exact (LogicalPlan.aggregate input _ _) = is_exact input
  is_exact (LogicalPlan.project input _) = is_exact input
  is_exact (LogicalPlan.udf input _ _) = is_exact input

  -- The height of a plan.
  unfoldable pub height : Plan → ℕ
  height (LogicalPlan.scan _ _) = 1
  height (LogicalPlan.vector_search _ _ _ _) = 1
  height (LogicalPlan.graph_expand from _ _) = suc (height from)
  height (LogicalPlan.filter input _) = suc (height input)
  height (LogicalPlan.score input _) = suc (height input)
  height (LogicalPlan.top_k input _ _) = suc (height input)
  height (LogicalPlan.join left right _) = suc (max (height left) (height right))
  height (LogicalPlan.aggregate input _ _) = suc (height input)
  height (LogicalPlan.project input _) = suc (height input)
  height (LogicalPlan.udf input _ _) = suc (height input)

  keeps_filter-join_on_left :
      (plan : Plan) (leaves : List Plan) (on : JoinKey)
      → keeps_filter plan ≡ true
      → keeps_filter (join_on_left plan leaves on) ≡ true
  unfolding join_on_left keeps_filter
  keeps_filter-join_on_left plan [] on h = h
  keeps_filter-join_on_left plan (leaf ∷ leaves) on h =
      keeps_filter-join_on_left (LogicalPlan.join plan leaf on) leaves on refl

  keeps_filter-built :
      (leaves : List Plan) (on : JoinKey) (plan : Plan)
      → keeps_filter plan ≡ true
      → keeps_filter (unwrap_or (build_left_deep_join leaves on) plan) ≡ true
  unfolding build_left_deep_join keeps_filter
  keeps_filter-built [] on plan h = h
  keeps_filter-built (x ∷ []) on plan h = h
  keeps_filter-built (x ∷ y ∷ leaves) on plan h =
      keeps_filter-join_on_left (LogicalPlan.join x y on) leaves on refl

  -- Reordering keeps a join at the head.
  keeps_filter-reorder :
      (stats : Stats p.F32) (left right : Plan) (on : JoinKey)
      → keeps_filter (reorder_safe_join_chain stats (LogicalPlan.join left right on)) ≡ true
  unfolding keeps_filter
  keeps_filter-reorder stats left right on =
      reorder_cases (λ plan. keeps_filter plan ≡ true) stats (LogicalPlan.join left right on) refl
        (λ f rest chain safe order h.
          keeps_filter-built (pick (f ∷ rest) order) JoinKey.node_id _ refl)
        (λ f rest chain safe order h start.
          keeps_filter-built (pick (f ∷ rest) order) JoinKey.node_id _ refl)

  module _ (ctx : Context) (unique : UniqueIds ctx) (stats : Stats p.F32) where
    -- What optimizing a plan gives: a plan that evaluates alike and takes a filter alike.
    abbrev Optimized : Option Plan → Plan → Type 0
    Optimized o plan =
        (plan' : Plan) × (o ≡ some plan')
        × (execute ctx plan' ≡ execute ctx plan)
        × (keeps_filter plan ≡ true → keeps_filter plan' ≡ true)

    height_positive : (plan : Plan) → 1 ≤ height plan
    unfolding height
    height_positive (LogicalPlan.scan t f) = omega arith
    height_positive (LogicalPlan.vector_search q n f m) = omega arith
    height_positive _ = omega arith

    push_filter_scan :
        (table : TableId) (f : Option (Predicate p.F32)) (pred : Predicate p.F32)
        → execute ctx (LogicalPlan.scan table (some (combine_optional_filter f pred)))
          ≡ execute ctx (LogicalPlan.filter (LogicalPlan.scan table f) pred)
    unfolding execute
    push_filter_scan TableId.nodes f pred = ap ok (
        filter_congr _ _ (λ r. matches-combine_optional_filter r f pred) ctx.nodes
        ∙ sym (filter-filter (λ r. predicate_matches r pred) (passes f) ctx.nodes))
    push_filter_scan TableId.edges f pred = refl
    push_filter_scan TableId.blobs f pred = refl

    push_filter_lem :
        (again : Plan → Option Plan) (input : Plan) (pred : Predicate p.F32)
        → keeps_filter input ≡ true
        → Optimized (push_filter again stats input pred) (LogicalPlan.filter input pred)
    unfolding push_filter keeps_filter
    push_filter_lem again (LogicalPlan.scan table f) pred h = (
      LogicalPlan.scan table (some (combine_optional_filter f pred)),
      refl,
      push_filter_scan table f pred,
      λ k. refl,
    )
    push_filter_lem again (LogicalPlan.vector_search query k f model) pred h = cc
    push_filter_lem again (LogicalPlan.graph_expand from relation depth) pred h = cc
    push_filter_lem again (LogicalPlan.filter input pred') pred h = (_, refl, refl, λ k. k)
    push_filter_lem again (LogicalPlan.score input e) pred h = (_, refl, refl, λ k. k)
    push_filter_lem again (LogicalPlan.top_k input k by) pred h = (_, refl, refl, λ k. k)
    push_filter_lem again (LogicalPlan.join left right on) pred h = (_, refl, refl, λ k. k)
    push_filter_lem again (LogicalPlan.aggregate input group_by agg) pred h =
        (_, refl, refl, λ k. k)
    push_filter_lem again (LogicalPlan.project input fields) pred h = (_, refl, refl, λ k. k)
    push_filter_lem again (LogicalPlan.udf input name args) pred h = (_, refl, refl, λ k. k)

    optimize_lem :
        (fuel : ℕ) (plan : Plan)
        → height plan ≤ fuel
        → is_exact plan ≡ true
        → Optimized (optimize stats fuel plan) plan
    unfolding optimize height is_exact execute keeps_filter
    optimize_lem zero plan le exact = absurd (omega (arith, height_positive plan, le))
    optimize_lem (suc fuel) (LogicalPlan.scan t f) le exact = (_, refl, refl, λ k. k)
    optimize_lem (suc fuel) (LogicalPlan.vector_search q n f m) le exact = (_, refl, refl, λ k. k)
    optimize_lem (suc fuel) (LogicalPlan.graph_expand from relation depth) le exact =
        let (from', e, same, keeps) = optimize_lem fuel from (omega (arith, le)) exact in
        (LogicalPlan.graph_expand from' relation depth, rw e refl, rw same refl, λ k. k)
    optimize_lem (suc fuel) (LogicalPlan.filter input pred) le exact =
        let (input', e, same, keeps) =
          optimize_lem fuel input (omega (arith, le)) (and_right (keeps_filter input) _ exact) in
        let kept = keeps (and_left _ (is_exact input) exact) in
        let (plan', e', same', keeps') = push_filter_lem (optimize stats fuel) input' pred kept in
        (plan', rw e e', same' ∙ rw same refl, λ k. keeps' kept)
    optimize_lem (suc fuel) (LogicalPlan.score input expr) le exact =
        let (input', e, same, keeps) = optimize_lem fuel input (omega (arith, le)) exact in
        (LogicalPlan.score input' expr, rw e refl, rw same refl, λ k. k)
    optimize_lem (suc fuel) (LogicalPlan.top_k input n by) le exact =
        let (input', e, same, keeps) = optimize_lem fuel input (omega (arith, le)) exact in
        (LogicalPlan.top_k input' n by, rw e refl, rw same refl, λ k. k)
    optimize_lem (suc fuel) (LogicalPlan.join left right on) le exact =
        let (left', e, same, keeps) =
          optimize_lem fuel left (omega (arith, le, max_left (height left) (height right)))
            (and_left _ (is_exact right) exact) in
        let (right', e', same', keeps') =
          optimize_lem fuel right (omega (arith, le, max_right (height left) (height right)))
            (and_right (is_exact left) _ exact) in
        (
          reorder_safe_join_chain stats (LogicalPlan.join left' right' on),
          rw (e, e') refl,
          execute-reorder_safe_join_chain ctx stats (LogicalPlan.join left' right' on) unique
              ∙ rw (same, same') refl,
          λ k. keeps_filter-reorder stats left' right' on,
        )
    optimize_lem (suc fuel) (LogicalPlan.aggregate input group_by agg) le exact =
        let (input', e, same, keeps) = optimize_lem fuel input (omega (arith, le)) exact in
        (LogicalPlan.aggregate input' group_by agg, rw e refl, rw same refl, λ k. k)
    optimize_lem (suc fuel) (LogicalPlan.project input fields) le exact =
        let (input', e, same, keeps) = optimize_lem fuel input (omega (arith, le)) exact in
        (LogicalPlan.project input' fields, rw e refl, rw same refl, λ k. k)
    optimize_lem (suc fuel) (LogicalPlan.udf input name args) le exact =
        let (input', e, same, keeps) = optimize_lem fuel input (omega (arith, le)) exact in
        (LogicalPlan.udf input' name args, rw e refl, rw same refl, λ k. k)

    -- Where node ids are unique and no filter stands directly over a vector search or a graph expansion,
    -- optimizing a plan with fuel for its height returns a plan, and that plan evaluates to what the
    -- plan evaluates to: the same rows in the same order, or the same error.
    pub execute-optimize :
        (fuel : ℕ) (plan : Plan)
        → height plan ≤ fuel
        → is_exact plan ≡ true
        → (plan' : Plan) × (optimize stats fuel plan ≡ some plan')
          × (execute ctx plan' ≡ execute ctx plan)
    execute-optimize fuel plan le exact =
        let (plan', e, same, keeps) = optimize_lem fuel plan le exact in (plan', e, same)
