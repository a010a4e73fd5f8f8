-- ===== src/Optimizer.antt =====
-- crates/mmdb-query/src/optimizer.rs: filter pushdown and the reordering of join chains.
pub mod Chain
pub mod Orders
pub mod Leaves
pub mod Cases
pub mod Reorder
pub mod Sound
pub mod Total
use mmdb.Common.{
  ℕ, zero, suc, ◌+◌, ◌≡◌, Option, none, some, List, [], ◌∷◌, ◌++◌, map, Bool, true, false, ◌&&◌,
  ◌||◌, not, if◌then◌else◌, ltb, leb, ◌==◌, length, get_elem?, set, all, filter_map, compare,
  Ordering, then_with, is_eq,
}
use mmdb.Common.Sort.{sort_by}
use mmdb.Ir.{TableId, JoinKey, LogicalPlan, Predicate, Platform, cmp_list, cmp_field}
use mmdb.Stats.{Stats, estimate_selectivity}
use mmdb.Strategy.{join_order_cost}
use mmdb.Explain.{explain_shape_with_estimate}
use mmdb.Builder.{combine_optional_filter}
use mmdb.Executor.{Plan}

-- `JoinOrderCandidate`.
pub record Candidate : Type 0 where
  pub leaf_order : List ℕ
  pub leaf_estimates : List (Option ℕ)
  pub estimated_cost : ℕ

-- The `Ord` of `Option<usize>`: `None` first.
abbrev pub cmp_estimate : Option ℕ → Option ℕ → Ordering
cmp_estimate none none = Ordering.eq
cmp_estimate none (some _) = Ordering.lt
cmp_estimate (some _) none = Ordering.gt
cmp_estimate (some a) (some b) = compare a b

unfoldable pub cmp_candidate : Candidate → Candidate → Ordering
unfolding cmp_list
cmp_candidate a b =
    then_with
      (then_with (compare a.estimated_cost b.estimated_cost)
        (cmp_list cmp_estimate a.leaf_estimates b.leaf_estimates))
      (cmp_list compare a.leaf_order b.leaf_order)

-- `(start..start + count).collect()`.
unfoldable pub range : ℕ → ℕ → List ℕ
range start zero = []
range start (suc count) = start ∷ range (suc start) count

-- `order.swap(i, j)`, at indices in range.
abbrev pub swap_with : List ℕ → ℕ → ℕ → Option ℕ → Option ℕ → List ℕ
swap_with order i j (some a) (some b) = set (set order i b) j a
swap_with order i j _ _ = order

unfoldable pub swap : ℕ → ℕ → List ℕ → List ℕ
swap i j order = swap_with order i j (get_elem? order i) (get_elem? order j)

abbrev pub Permuting : Type 0
Permuting = List ℕ × List (List ℕ)

-- `for i in start..order.len()`: swap, recurse, swap back.
unfoldable pub permute_loop :
    (List ℕ → List (List ℕ) → Permuting) → ℕ → List ℕ → List ℕ → List (List ℕ) → Permuting
permute_loop recurse start [] order out = (order, out)
permute_loop recurse start (i ∷ is) order out =
    let inner = recurse (swap start i order) out in
    permute_loop recurse start is (swap start i inner.0) inner.1

-- `permute_join_orders`, by the number of places from `start` on.
unfoldable pub permute_join_orders : ℕ → ℕ → List ℕ → List (List ℕ) → Permuting
permute_join_orders zero start order out = (order, out ++ order ∷ [])
permute_join_orders (suc left) start order out =
    permute_loop (permute_join_orders left (suc start)) start (range start (suc left)) order out

-- `orders`: every order of the leaves.
unfoldable pub join_orders : ℕ → List (List ℕ)
join_orders n = (permute_join_orders n 0 (range 0 n) []).1

abbrev pub max_join_order_leaves : ℕ
max_join_order_leaves = 6

-- `leaves[index]` for each index of an order.
abbrev pub pick {ℓ} : {A : Type ℓ} → List A → List ℕ → List A
pick leaves order = filter_map (get_elem? leaves) order

-- The derived `PartialEq` of `JoinKey`.
abbrev pub eq_join_key : JoinKey → JoinKey → Bool
eq_join_key JoinKey.node_id JoinKey.node_id = true
eq_join_key (JoinKey.field a) (JoinKey.field b) = is_eq (cmp_field a b)
eq_join_key _ _ = false

-- The index order of a `find` on the candidates.
abbrev pub starts_with_zero : List ℕ → Bool
starts_with_zero [] = false
starts_with_zero (i ∷ is) = i == 0

abbrev pub find {ℓ} : {A : Type ℓ} → (A → Bool) → List A → Option A
find f [] = none
find f (x ∷ xs) = let rest = find f xs in if f x then some x else rest

abbrev pub first {ℓ} : {A : Type ℓ} → List A → Option A
first [] = none
first (x ∷ xs) = some x

module _ ⦃p : Platform⦄ where
  -- What `collect_same_key_join_leaves` pushes, and whether it went through.
  abbrev pub Leaves : Type 0
  Leaves = List Plan × Bool

  -- `&&` on two collections: the second goes on with the leaves of the first.
  abbrev pub and_then : Leaves → (List Plan → Leaves) → Leaves
  and_then (leaves, false) more = (leaves, false)
  and_then (leaves, true) more = more leaves

  unfoldable pub collect_same_key_join_leaves : Plan → JoinKey → List Plan → Leaves
  collect_same_key_join_leaves (LogicalPlan.join left right on) join_key leaves =
      elim (eq_join_key on join_key) [
        | false ↦ (leaves, false)
        | true ↦
            and_then (collect_same_key_join_leaves left join_key leaves)
              (collect_same_key_join_leaves right join_key)
      ]
  collect_same_key_join_leaves other join_key leaves = (leaves ++ other ∷ [], true)

  unfoldable pub estimated_rows_for_plan : Stats p.F32 → Plan → Option ℕ
  estimated_rows_for_plan stats plan = (explain_shape_with_estimate plan stats false).1

  abbrev pub candidate : List (Option ℕ) → List ℕ → Candidate
  candidate estimates leaf_order =
      let leaf_estimates = pick estimates leaf_order in
      record {
        leaf_order = leaf_order;
        leaf_estimates = leaf_estimates;
        estimated_cost = join_order_cost leaf_estimates;
      }

  -- The candidates for the collected leaves, cheapest first.
  unfoldable pub candidates_for : Stats p.F32 → Leaves → List Candidate
  candidates_for stats (leaves, false) = []
  candidates_for stats (leaves, true) =
      if ltb (length leaves) 2 || ltb max_join_order_leaves (length leaves)
      then []
      else sort_by cmp_candidate (
          map (candidate (map (estimated_rows_for_plan stats) leaves))
            (join_orders (length leaves)))

  -- `Optimizer::join_order_candidates`.
  unfoldable pub join_order_candidates : Stats p.F32 → Plan → List Candidate
  join_order_candidates stats (LogicalPlan.join left right on) =
      candidates_for stats (collect_same_key_join_leaves (LogicalPlan.join left right on) on [])
  join_order_candidates stats other = []

  unfoldable pub is_safe_scan_join_leaf : Plan → Bool
  is_safe_scan_join_leaf (LogicalPlan.scan TableId.nodes _) = true
  is_safe_scan_join_leaf _ = false

  unfoldable pub is_score_preserving_join_anchor : Plan → Bool
  is_score_preserving_join_anchor (LogicalPlan.vector_search _ _ _ _) = true
  is_score_preserving_join_anchor (LogicalPlan.graph_expand _ _ _) = true
  is_score_preserving_join_anchor (LogicalPlan.score _ _) = true
  is_score_preserving_join_anchor (LogicalPlan.udf _ _ _) = true
  is_score_preserving_join_anchor (LogicalPlan.top_k input _ _) =
      is_score_preserving_join_anchor input
  is_score_preserving_join_anchor (LogicalPlan.project input _) =
      is_score_preserving_join_anchor input
  is_score_preserving_join_anchor (LogicalPlan.filter input _) =
      is_score_preserving_join_anchor input
  is_score_preserving_join_anchor (LogicalPlan.scan _ _) = false
  is_score_preserving_join_anchor (LogicalPlan.join _ _ _) = false
  is_score_preserving_join_anchor (LogicalPlan.aggregate _ _ _) = false

  -- The loop of `build_left_deep_join`.
  unfoldable pub join_on_left : Plan → List Plan → JoinKey → Plan
  join_on_left plan [] on = plan
  join_on_left plan (leaf ∷ leaves) on = join_on_left (LogicalPlan.join plan leaf on) leaves on

  unfoldable pub build_left_deep_join : List Plan → JoinKey → Option Plan
  build_left_deep_join [] on = none
  build_left_deep_join (first ∷ []) on = none
  build_left_deep_join (first ∷ second ∷ leaves) on =
      some (join_on_left (LogicalPlan.join first second on) leaves on)

  abbrev pub unwrap_or : Option Plan → Plan → Plan
  unwrap_or none plan = plan
  unwrap_or (some built) plan = built

  -- The end of `reorder_safe_join_chain`, given the best candidate.
  unfoldable pub reorder_by : Option Candidate → List Plan → JoinKey → Plan → Plan
  reorder_by none leaves on plan = plan
  reorder_by (some best) leaves on plan =
      if is_eq (cmp_list compare best.leaf_order (range 0 (length leaves)))
      then plan
      else unwrap_or (build_left_deep_join (pick leaves best.leaf_order) on) plan

  abbrev pub anchored : List Plan → Bool
  anchored [] = false
  anchored (first ∷ rest) = is_score_preserving_join_anchor first && all is_safe_scan_join_leaf rest

  -- The middle of `reorder_safe_join_chain`, given the leaves of the chain.
  unfoldable pub reorder_leaves : Stats p.F32 → Leaves → Plan → Plan
  reorder_leaves stats (leaves, false) plan = plan
  reorder_leaves stats (leaves, true) plan =
      if ltb (length leaves) 3
      then plan
      else if all is_safe_scan_join_leaf leaves
      then reorder_by (first (join_order_candidates stats plan)) leaves JoinKey.node_id plan
      else if anchored leaves
      then reorder_by
          (find (λ (c : Candidate). starts_with_zero c.leaf_order)
            (join_order_candidates stats plan))
          leaves JoinKey.node_id plan
      else plan

  -- `Optimizer::reorder_safe_join_chain`.
  unfoldable pub reorder_safe_join_chain : Stats p.F32 → Plan → Plan
  reorder_safe_join_chain stats (LogicalPlan.join left right JoinKey.node_id) =
      reorder_leaves stats
        (collect_same_key_join_leaves (LogicalPlan.join left right JoinKey.node_id) JoinKey.node_id
          [])
        (LogicalPlan.join left right JoinKey.node_id)
  reorder_safe_join_chain stats plan = plan

  infixl 5 ◌>>=◌
  abbrev pub ◌>>=◌ {ℓ κ} : {A : Type ℓ} {B : Type κ} → Option A → (A → Option B) → Option B
  none >>= f = none
  some a >>= f = f a

  -- The arms of `optimize` for a filter, over its optimized input. `again` is `self.optimize`.
  unfoldable pub push_filter :
      (Plan → Option Plan) → Stats p.F32 → Plan → Predicate p.F32 → Option Plan
  push_filter again stats (LogicalPlan.scan table f) pred =
      some (LogicalPlan.scan table (some (combine_optional_filter f pred)))
  push_filter again stats (LogicalPlan.vector_search query k f model) pred =
      some (LogicalPlan.vector_search query k (some (combine_optional_filter f pred)) model)
  push_filter again stats (LogicalPlan.graph_expand from relation depth) pred =
      if p.le_f32 (estimate_selectivity stats pred) p.half_f32
      then (do
        pushed ← again (LogicalPlan.filter from pred)
        some (LogicalPlan.graph_expand pushed relation depth))
      else some (LogicalPlan.filter (LogicalPlan.graph_expand from relation depth) pred)
  push_filter again stats other pred = some (LogicalPlan.filter other pred)

  -- `Optimizer::optimize`, on fuel: a pushed filter is optimized again over an optimized plan.
  unfoldable pub optimize : Stats p.F32 → ℕ → Plan → Option Plan
  optimize stats zero plan = none
  optimize stats (suc fuel) (LogicalPlan.filter input pred) = do
    input' ← optimize stats fuel input
    push_filter (optimize stats fuel) stats input' pred
  optimize stats (suc fuel) (LogicalPlan.top_k input k by) = do
    input' ← optimize stats fuel input
    some (LogicalPlan.top_k input' k by)
  optimize stats (suc fuel) (LogicalPlan.score input expr) = do
    input' ← optimize stats fuel input
    some (LogicalPlan.score input' expr)
  optimize stats (suc fuel) (LogicalPlan.graph_expand from relation depth) = do
    from' ← optimize stats fuel from
    some (LogicalPlan.graph_expand from' relation depth)
  optimize stats (suc fuel) (LogicalPlan.join left right on) = do
    left' ← optimize stats fuel left
    right' ← optimize stats fuel right
    some (reorder_safe_join_chain stats (LogicalPlan.join left' right' on))
  optimize stats (suc fuel) (LogicalPlan.aggregate input group_by agg) = do
    input' ← optimize stats fuel input
    some (LogicalPlan.aggregate input' group_by agg)
  optimize stats (suc fuel) (LogicalPlan.project input fields) = do
    input' ← optimize stats fuel input
    some (LogicalPlan.project input' fields)
  optimize stats (suc fuel) (LogicalPlan.udf input name args) = do
    input' ← optimize stats fuel input
    some (LogicalPlan.udf input' name args)
  optimize stats (suc fuel) leaf = some leaf
