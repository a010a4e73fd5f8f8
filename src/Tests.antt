-- ===== src/Tests.antt =====
-- Runs of the engine's parts on small inputs, with naturals for the scores.
use mmdb.Common.{
  In, List, Perm, ◌++◌, drop, min, ℕ, zero, suc, ◌+◌, ◌-◌, ◌*◌, ◌/◌, ◌≡◌, ◌≤◌, ◌∙◌, refl, sym, ap,
  filter, All, take, length, none, some, [], ◌∷◌, true, false, arith, compare, min, max, leb,
  str_eq, str_eq_iff,
}
use mmdb.Common.Int.{ℤ}
use mmdb.Errors.{ok}
use mmdb.Ir.{
  Platform, NodeKind, TableId, FieldRef, Literal, Predicate, Predicates, SortKey, JoinKey,
  LogicalPlan, predicate_and,
}
use mmdb.Eval.{count_groups, new_record, predicate_matches, all_match, sort_rows}
use mmdb.Executor.{
  Context, Row, Plan, execute, no_expansion, walk, walk_fuel, start_seed, graph_expand_rows,
}
use mmdb.Optimizer.{optimize, reorder_safe_join_chain}
use mmdb.Explain.{explain_with_estimate, explain_shape_with_estimate}
use mmdb.Stats.{Stats, default_stats, from_counts, count}
use mmdb.Builder.{RecallBuilder, new_recall, set_tenant, add_filter, set_limit, build}
use mmdb.Builder.Meaning.{matches-predicate_and}
use mmdb.Executor.Walk.{frontier-expand_seed}
use mmdb.Executor.Expand.{distinct, ids, IsReached, graph_expand_rows-IsReached}
use mmdb.Explain.Actual.{Explains, explain_with_estimate-Explains}
use mmdb.Operator.Refine.{run, enough_fuel, run-execute}
use mmdb.Optimizer.Leaves.{UniqueIds}
use mmdb.Common.Sorted.{Sorted}
use mmdb.Eval.{Record}
use mmdb.Builder.Recall.{Recalls, is_wanted, execute-build}
use mmdb.Eval.Newest.{NotOlder, take-sort_rows}
use mmdb.Eval.Groups.{counted, has_every, counted-count_groups}
use mmdb.Stats.Totals.{sum_counts, from_counts-IsTotal}
use mmdb.Executor.Complete.{graph_expand_rows_complete}
use mmdb.Executor.Expand.{PathTo}
use mmdb.Optimizer.Reorder.{execute-reorder_safe_join_chain}
use mmdb.Optimizer.Sound.{height, is_exact, keeps_filter, execute-optimize}
use mmdb.Optimizer.Total.{size, optimize-Shrinks}

instance abbrev natural_scores : Platform
natural_scores = record {
  F32 = ℕ;
  zero_f32 = 0;
  one_f32 = 1;
  half_f32 = 0;
  add_f32 = λ a b. a + b;
  sub_f32 = λ a b. a - b;
  mul_f32 = λ a b. a * b;
  div_f32 = λ a b. a / b;
  le_f32 = leb;
  clamp_f32 = λ x lo hi. max lo (min x hi);
  total_cmp = compare;
  partial_cmp = λ a b. some (compare a b);
  from_u64 = λ n. n;
  from_i64 = λ i. 0;
  round_usize = λ x. x;
  debug_literal = λ l. "";
}

abbrev alice : Row
alice = new_record "a" 1 NodeKind.fact (ℤ.pos 5)

abbrev bob : Row
bob = new_record "b" 1 NodeKind.entity (ℤ.pos 7)

abbrev two_nodes : Context
two_nodes = record {
  nodes = alice ∷ bob ∷ [];
  edges = record { src = "a"; dst = "b"; relation = "knows" } ∷ [];
  udfs = [];
}

abbrev is_fact : Predicate ℕ
is_fact = Predicate.eq FieldRef.kind (Literal.node_kind NodeKind.fact)

abbrev of_tenant : Predicate ℕ
of_tenant = Predicate.eq FieldRef.tenant (Literal.u32 1)

abbrev all_nodes : Plan
all_nodes = LogicalPlan.scan TableId.nodes none

abbrev facts : Plan
facts = LogicalPlan.scan TableId.nodes (some is_fact)

abbrev chain_of_three : Plan
chain_of_three =
    LogicalPlan.join (LogicalPlan.join all_nodes facts JoinKey.node_id) all_nodes JoinKey.node_id

-- A filter over a scan beside a join and under a limit.
abbrev filtered : Plan
filtered =
    LogicalPlan.top_k
      (LogicalPlan.join (LogicalPlan.filter all_nodes is_fact) chain_of_three JoinKey.node_id) 1
      SortKey.score_desc

abbrev expanded : Plan
expanded = LogicalPlan.graph_expand facts none 2

abbrev stats : Stats ℕ
stats = record default_stats { node_rows = 2 }

other_ids : alice.node_id ≡ bob.node_id → ⊥
other_ids same = let equal : str_eq "a" "b" ≡ true = (str_eq_iff "a" "b").1 same in cc

two_nodes-UniqueIds : UniqueIds two_nodes
two_nodes-UniqueIds r s (zero, e) (zero, e') same = cc
two_nodes-UniqueIds r s (suc zero, e) (suc zero, e') same = cc
two_nodes-UniqueIds r s (zero, e) (suc zero, e') same =
    let at_r : alice ≡ r = cc in
    let at_s : bob ≡ s = cc in
    absurd
      (other_ids (ap (λ (x : Row). x.node_id) at_r ∙ same ∙ ap (λ (x : Row). x.node_id) (sym at_s)))
two_nodes-UniqueIds r s (suc zero, e) (zero, e') same =
    let at_r : bob ≡ r = cc in
    let at_s : alice ≡ s = cc in
    absurd (
      other_ids
        (ap (λ (x : Row). x.node_id) at_s ∙ sym same ∙ ap (λ (x : Row). x.node_id) (sym at_r)))
two_nodes-UniqueIds r s (suc (suc i), e) m same = cc
two_nodes-UniqueIds r s m (suc (suc i), e) same = cc

run-execute_example :
    run two_nodes filtered 1 (enough_fuel two_nodes filtered 1) ≡ some (execute two_nodes filtered)
run-execute_example =
    run-execute two_nodes filtered 1 (enough_fuel two_nodes filtered 1) (omega arith)

execute-optimize_example :
    (plan : Plan) × (optimize stats 5 filtered ≡ some plan)
    × (execute two_nodes plan ≡ execute two_nodes filtered)
unfolding height is_exact keeps_filter
execute-optimize_example =
    execute-optimize two_nodes two_nodes-UniqueIds stats 5 filtered (omega arith) refl

optimize-Shrinks_example :
    (plan : Plan) × (optimize stats 9 filtered ≡ some plan) × (size plan ≤ size filtered)
unfolding size
optimize-Shrinks_example = optimize-Shrinks stats 9 filtered (omega arith)

execute-reorder_safe_join_chain_example :
    execute two_nodes (reorder_safe_join_chain stats chain_of_three)
    ≡ execute two_nodes chain_of_three
execute-reorder_safe_join_chain_example =
    execute-reorder_safe_join_chain two_nodes stats chain_of_three two_nodes-UniqueIds

graph_expand_rows-IsReached_example :
    (distinct (ids (graph_expand_rows two_nodes (alice ∷ []) none 2)) ≡ true)
    × All
        (IsReached two_nodes none 2 (alice ∷ []))
        (graph_expand_rows two_nodes (alice ∷ []) none 2)
graph_expand_rows-IsReached_example = graph_expand_rows-IsReached two_nodes none 2 (alice ∷ [])

frontier-expand_seed_example :
    (walk two_nodes none 2 (walk_fuel two_nodes) (start_seed alice no_expansion)).frontier ≡ []
frontier-expand_seed_example = frontier-expand_seed two_nodes none 2 alice no_expansion

explain_with_estimate-Explains_example :
    Explains
      (explain_with_estimate two_nodes filtered stats)
      (execute two_nodes filtered)
      (explain_shape_with_estimate filtered stats false)
explain_with_estimate-Explains_example = explain_with_estimate-Explains two_nodes stats filtered

abbrev recall : RecallBuilder ℕ
recall = set_limit (add_filter (set_tenant new_recall 1) is_fact) 1

execute-build_example :
    (rows : List Row) × (execute two_nodes (build recall) ≡ ok rows)
    × Recalls (some 1) (filter (is_wanted recall) (alice ∷ bob ∷ [])) rows
execute-build_example = execute-build two_nodes recall

abbrev nested : Predicates ℕ
nested =
    Predicates.cons (Predicate.and (Predicates.cons of_tenant Predicates.nil))
      (Predicates.cons is_fact Predicates.nil)

matches-predicate_and_example :
    predicate_matches alice (predicate_and nested) ≡ all_match alice nested
matches-predicate_and_example = matches-predicate_and alice nested

take-sort_rows_example :
    let sorted = sort_rows SortKey.created_at_desc (alice ∷ bob ∷ []) in
    Perm (take 1 sorted ++ drop 1 sorted) (alice ∷ bob ∷ [])
    × Sorted NotOlder (take 1 sorted ++ drop 1 sorted)
    × (length (take 1 sorted) ≡ min 1 2)
take-sort_rows_example = take-sort_rows 1 (alice ∷ bob ∷ [])

counted-count_groups_example :
    counted (count_groups (FieldRef.kind ∷ []) (alice ∷ bob ∷ alice ∷ []) [])
    ≡ length (filter (has_every (FieldRef.kind ∷ [])) (alice ∷ bob ∷ alice ∷ []))
counted-count_groups_example = counted-count_groups (FieldRef.kind ∷ []) (alice ∷ bob ∷ alice ∷ [])

abbrev kinds : List (Literal ℕ × ℕ)
kinds =
    (Literal.node_kind NodeKind.fact, 2)
    ∷ (Literal.node_kind NodeKind.entity, 1)
    ∷ (Literal.node_kind NodeKind.fact, 3)
    ∷ []

from_counts-IsTotal_example :
    ((from_counts kinds).total_count ≡ 6)
    × ((from_counts kinds).total_count ≡ sum_counts (from_counts kinds).counts)
    × (count (from_counts kinds) (Literal.node_kind NodeKind.fact)
        ≤ (from_counts kinds).total_count)
from_counts-IsTotal_example =
    from_counts-IsTotal kinds (Literal.node_kind NodeKind.fact) (omega arith)

a_to_b : PathTo two_nodes.edges none "a" 1 "b"
a_to_b =
    PathTo.along (record { src = "a"; dst = "b"; relation = "knows" }) PathTo.start (0, refl) refl
      refl

graph_expand_rows_complete_example :
    (row : Record ℕ) × In row (graph_expand_rows two_nodes (alice ∷ []) none 2)
    × (row.node_id ≡ bob.node_id)
graph_expand_rows_complete_example =
    graph_expand_rows_complete two_nodes none 2 (alice ∷ []) alice bob (0, refl) (1, refl)
      (omega arith) a_to_b
