-- ===== src/Optimizer/Total.antt =====
-- `Optimizer::optimize` terminates on every plan: an optimized plan is no larger than the plan, so the
-- filters that are pushed down and optimized again stay within the fuel.
use mmdb.Common.{
  ℕ, zero, suc, ◌+◌, ◌≤◌, ◌<◌, ◌≡◌, refl, ap, ◌∙◌, inl, inr, Option, none, some, List, [], ◌∷◌,
  ◌++◌, arith, Bool-cases, Option-cases, length, get_elem?, filter_map,
}
use mmdb.Ir.{Platform, LogicalPlan, Predicate, JoinKey}
use mmdb.Stats.{Stats, estimate_selectivity}
use mmdb.Executor.{Plan}
use mmdb.Optimizer.Chain.{Chain}
use mmdb.Optimizer.Orders.{IsOrder, sum}
use mmdb.Optimizer.Cases.{reorder_cases}
use mmdb.Optimizer.{
  ◌>>=◌, optimize, push_filter, reorder_safe_join_chain, unwrap_or, build_left_deep_join,
  join_on_left, pick, range,
}

module _ ⦃p : Platform⦄ where
  -- The number of operators of a plan.
  unfoldable pub size : Plan → ℕ
  size (LogicalPlan.scan _ _) = 1
  size (LogicalPlan.vector_search _ _ _ _) = 1
  size (LogicalPlan.graph_expand from _ _) = suc (size from)
  size (LogicalPlan.filter input _) = suc (size input)
  size (LogicalPlan.score input _) = suc (size input)
  size (LogicalPlan.top_k input _ _) = suc (size input)
  size (LogicalPlan.join left right _) = suc (size left + size right)
  size (LogicalPlan.aggregate input _ _) = suc (size input)
  size (LogicalPlan.project input _) = suc (size input)
  size (LogicalPlan.udf input _ _) = suc (size input)

  size_positive : (plan : Plan) → 1 ≤ size plan
  unfolding size
  size_positive (LogicalPlan.scan t f) = omega arith
  size_positive (LogicalPlan.vector_search q n f m) = omega arith
  size_positive _ = omega arith

  -- The size of the leaves, with a join for each.
  abbrev total : List Plan → ℕ
  total [] = 0
  total (leaf ∷ leaves) = suc (size leaf) + total leaves

  total-append : (xs ys : List Plan) → total (xs ++ ys) ≡ total xs + total ys
  total-append [] ys = omega arith
  total-append (x ∷ xs) ys = omega (arith, total-append xs ys)

  size-join_on_left :
      (plan : Plan) (leaves : List Plan) (on : JoinKey)
      → size (join_on_left plan leaves on) ≡ size plan + total leaves
  unfolding join_on_left size
  size-join_on_left plan [] on = omega arith
  size-join_on_left plan (leaf ∷ leaves) on =
      omega (arith, size-join_on_left (LogicalPlan.join plan leaf on) leaves on)

  -- A chain of joins is as large as its leaves and the joins between them.
  size-Chain :
      {plan f : Plan} {rest : List Plan} → Chain plan f rest → suc (size plan) ≡ total (f ∷ rest)
  unfolding size
  size-Chain Chain.leaf = omega arith
  size-Chain (Chain.node {g = g} {ls = ls} {rs = rs} l r e) =
      omega (arith, size-Chain l, size-Chain r, ap total e, total-append ls (g ∷ rs))

  size-built :
      (leaves : List Plan) (on : JoinKey) (plan : Plan)
      → total leaves ≤ suc (size plan)
      → size (unwrap_or (build_left_deep_join leaves on) plan) ≤ size plan
  unfolding build_left_deep_join size
  size-built [] on plan le = omega arith
  size-built (x ∷ []) on plan le = omega arith
  size-built (x ∷ y ∷ leaves) on plan le =
      omega (arith, le, size-join_on_left (LogicalPlan.join x y on) leaves on)

  abbrev weight_at : Option Plan → ℕ
  weight_at none = 0
  weight_at (some leaf) = suc (size leaf)

  total-pick :
      (leaves : List Plan) (order : List ℕ)
      → total (pick leaves order) ≡ sum (λ i. weight_at (get_elem? leaves i)) order
  total-pick leaves [] = refl
  total-pick leaves (i ∷ order) = elim (Option-cases (get_elem? leaves i)) [
    | inl missing ↦ rw (missing, filter_map) (omega (arith, total-pick leaves order))
    | inr (y, found) ↦ rw (found, filter_map) (omega (arith, total-pick leaves order))
  ]

  sum-range :
      (w : ℕ → ℕ) (start count : ℕ)
      → sum w (range (suc start) count) ≡ sum (λ i. w (suc i)) (range start count)
  unfolding range
  sum-range w start zero = refl
  sum-range w start (suc count) = omega (arith, sum-range w (suc start) count)

  sum-weights :
      (leaves : List Plan)
      → sum (λ i. weight_at (get_elem? leaves i)) (range 0 (length leaves)) ≡ total leaves
  unfolding range
  sum-weights [] = refl
  sum-weights (leaf ∷ leaves) = omega (
    arith,
    sum-weights leaves,
    sum-range (λ i. weight_at (get_elem? (leaf ∷ leaves) i)) 0 (length leaves),
  )

  total-order :
      (leaves : List Plan) (order : List ℕ)
      → IsOrder (length leaves) order
      → total (pick leaves order) ≡ total leaves
  total-order leaves order h = total-pick leaves order ∙ h.3 _ ∙ sum-weights leaves

  size-reorder :
      (stats : Stats p.F32) (plan : Plan) → size (reorder_safe_join_chain stats plan) ≤ size plan
  size-reorder stats plan =
      reorder_cases (λ plan'. size plan' ≤ size plan) stats plan (omega arith)
        (λ f rest chain safe order h.
          size-built (pick (f ∷ rest) order) JoinKey.node_id plan
            (omega (arith, size-Chain chain, total-order (f ∷ rest) order h)))
        (λ f rest chain safe order h start.
          size-built (pick (f ∷ rest) order) JoinKey.node_id plan
            (omega (arith, size-Chain chain, total-order (f ∷ rest) order h)))

  module _ (stats : Stats p.F32) where
    -- What optimizing a plan gives: a plan that is no larger.
    abbrev pub Shrinks : Option Plan → ℕ → Type 0
    Shrinks o n = (plan' : Plan) × (o ≡ some plan') × (size plan' ≤ n)

    push_filter-Shrinks :
        (again : Plan → Option Plan) (input : Plan) (pred : Predicate p.F32)
        → ((from : Plan)
            → size from < size input
            → Shrinks (again (LogicalPlan.filter from pred)) (suc (size from)))
        → Shrinks (push_filter again stats input pred) (suc (size input))
    unfolding push_filter size
    push_filter-Shrinks again (LogicalPlan.scan t f) pred h = (_, refl, omega arith)
    push_filter-Shrinks again (LogicalPlan.vector_search q k f m) pred h = (_, refl, omega arith)
    push_filter-Shrinks again (LogicalPlan.graph_expand from relation depth) pred h =
        elim (Bool-cases (p.le_f32 (estimate_selectivity stats pred) p.half_f32)) [
          | inl few ↦
              let (pushed, e, le) = h from (omega arith) in
              (LogicalPlan.graph_expand pushed relation depth, rw (few, e) refl, omega (arith, le))
          | inr many ↦ (
            LogicalPlan.filter (LogicalPlan.graph_expand from relation depth) pred,
            rw many refl,
            omega arith,
          )
        ]
    push_filter-Shrinks again other pred h = (_, refl, omega arith)

    unary :
        (o : Option Plan) (n : ℕ) (wrap : Plan → Plan)
        → ((plan : Plan) → size (wrap plan) ≡ suc (size plan))
        → Shrinks o n
        → Shrinks (o >>= λ plan. some (wrap plan)) (suc n)
    unary o n wrap grows (plan', e, le) = (wrap plan', rw e refl, omega (arith, grows plan', le))

    -- For every plan, optimizing it with fuel for the number of its operators returns a plan, which has
    -- no more operators.
    pub optimize-Shrinks :
        (fuel : ℕ) (plan : Plan) → size plan ≤ fuel → Shrinks (optimize stats fuel plan) (size plan)
    unfolding optimize size
    optimize-Shrinks zero plan le = absurd (omega (arith, size_positive plan, le))
    optimize-Shrinks (suc fuel) (LogicalPlan.scan t f) le = (_, refl, omega arith)
    optimize-Shrinks (suc fuel) (LogicalPlan.vector_search q n f m) le = (_, refl, omega arith)
    optimize-Shrinks (suc fuel) (LogicalPlan.graph_expand from relation depth) le =
        unary _ _ (λ i. LogicalPlan.graph_expand i relation depth) (λ i. refl)
          (optimize-Shrinks fuel from (omega (arith, le)))
    optimize-Shrinks (suc fuel) (LogicalPlan.filter input pred) le =
        let (input', e, le') = optimize-Shrinks fuel input (omega (arith, le)) in
        let (plan', e', le'') = push_filter-Shrinks (optimize stats fuel) input' pred (λ from lt.
          optimize-Shrinks fuel (LogicalPlan.filter from pred) (omega (arith, lt, le, le'))) in
        (plan', rw e e', omega (arith, le', le''))
    optimize-Shrinks (suc fuel) (LogicalPlan.score input expr) le =
        unary _ _ (λ i. LogicalPlan.score i expr) (λ i. refl)
          (optimize-Shrinks fuel input (omega (arith, le)))
    optimize-Shrinks (suc fuel) (LogicalPlan.top_k input n by) le =
        unary _ _ (λ i. LogicalPlan.top_k i n by) (λ i. refl)
          (optimize-Shrinks fuel input (omega (arith, le)))
    optimize-Shrinks (suc fuel) (LogicalPlan.join left right on) le =
        let (left', e, le') = optimize-Shrinks fuel left (omega (arith, le)) in
        let (right', e', le'') = optimize-Shrinks fuel right (omega (arith, le)) in
        (
          reorder_safe_join_chain stats (LogicalPlan.join left' right' on),
          rw (e, e') refl,
          omega (arith, le', le'', size-reorder stats (LogicalPlan.join left' right' on)),
        )
    optimize-Shrinks (suc fuel) (LogicalPlan.aggregate input group_by agg) le =
        unary _ _ (λ i. LogicalPlan.aggregate i group_by agg) (λ i. refl)
          (optimize-Shrinks fuel input (omega (arith, le)))
    optimize-Shrinks (suc fuel) (LogicalPlan.project input fields) le =
        unary _ _ (λ i. LogicalPlan.project i fields) (λ i. refl)
          (optimize-Shrinks fuel input (omega (arith, le)))
    optimize-Shrinks (suc fuel) (LogicalPlan.udf input name args) le =
        unary _ _ (λ i. LogicalPlan.udf i name args) (λ i. refl)
          (optimize-Shrinks fuel input (omega (arith, le)))
