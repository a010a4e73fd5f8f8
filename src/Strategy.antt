-- ===== src/Strategy.antt =====
-- crates/mmdb-query/src/optimizer.rs: join strategies, the cost of a join order, and row estimates.
use mmdb.Common.{
  ℕ, String, Option, none, some, List, [], ◌∷◌, Bool, true, false, ◌||◌, leb, min, if◌then◌else◌,
}
use mmdb.Words.{usize_max, saturating_add, saturating_mul, wrapping_add}
use mmdb.Ir.{Predicate, JoinKey, JoinStrategy, Platform}
use mmdb.Stats.{Stats, estimate_selectivity, clamp_unit}

abbrev pub if_small_is_left : Bool → JoinStrategy
if_small_is_left true = JoinStrategy.hash_build_left
if_small_is_left false = JoinStrategy.hash_build_right

-- The free function: `matches!(on, NodeId | Field(_))` holds of every key.
unfoldable pub choose_for_rows : ℕ → ℕ → JoinKey → JoinStrategy
choose_for_rows left_rows right_rows on =
    let small_is_left = leb left_rows right_rows in
    let small = if small_is_left then left_rows else right_rows in
    let large = if small_is_left then right_rows else left_rows in
    if leb (saturating_mul small 4) large || leb small 128
    then if_small_is_left small_is_left
    else if leb 1000 (wrapping_add left_rows right_rows)
    then JoinStrategy.merge
    else JoinStrategy.hash_build_right

-- `Optimizer::choose_join_strategy`.
unfoldable pub choose_join_strategy : Option ℕ → Option ℕ → JoinKey → JoinStrategy
choose_join_strategy (some left) (some right) on = choose_for_rows left right on
choose_join_strategy (some _) none on = JoinStrategy.hash_build_left
choose_join_strategy none (some _) on = JoinStrategy.hash_build_right
choose_join_strategy none none on = JoinStrategy.hash_build_right

unfoldable pub join_operator_name : JoinStrategy → String
join_operator_name JoinStrategy.hash_build_left = "HashJoinOp"
join_operator_name JoinStrategy.hash_build_right = "HashJoinOp"
join_operator_name JoinStrategy.merge = "MergeJoinOp"

-- The loop of `join_order_cost`.
unfoldable pub cost_loop : List (Option ℕ) → ℕ → ℕ → ℕ
cost_loop [] current_rows cost = cost
cost_loop (none ∷ estimates) current_rows cost = usize_max
cost_loop (some next_rows ∷ estimates) current_rows cost =
    cost_loop estimates (min current_rows next_rows)
      (saturating_add (saturating_add cost current_rows) next_rows)

unfoldable pub join_order_cost : List (Option ℕ) → ℕ
unfolding cost_loop
join_order_cost [] = usize_max
join_order_cost (none ∷ estimates) = usize_max
join_order_cost (some rows ∷ estimates) = cost_loop estimates rows 0

module _ ⦃p : Platform⦄ where
  unfoldable pub estimate_rows_by_selectivity : Option ℕ → p.F32 → Option ℕ
  estimate_rows_by_selectivity none selectivity = none
  estimate_rows_by_selectivity (some rows) selectivity =
      some (p.round_usize (p.mul_f32 (p.from_u64 rows) (clamp_unit selectivity)))

  unfoldable pub estimate_filter_rows : Option ℕ → Option (Predicate p.F32) → Stats p.F32 → Option ℕ
  estimate_filter_rows base_rows none stats = base_rows
  estimate_filter_rows base_rows (some pred) stats =
      estimate_rows_by_selectivity base_rows (estimate_selectivity stats pred)
