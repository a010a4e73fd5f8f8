-- ===== src/Optimizer/Reorder.antt =====
-- `reorder_safe_join_chain` changes nothing that evaluation can see.
use mmdb.Common.{
  ℕ, zero, suc, ◌≡◌, refl, sym, ap, ◌∙◌, Option, none, some, List, [], ◌∷◌, true, arith, all,
  filter_congr, length, ==_iff,
}
use mmdb.Errors.{ok}
use mmdb.Ir.{Platform, JoinKey}
use mmdb.Stats.{Stats}
use mmdb.Executor.{Context, Plan, execute}
use mmdb.Optimizer.{
  pick, starts_with_zero, is_safe_scan_join_leaf, build_left_deep_join, unwrap_or,
  reorder_safe_join_chain,
}
use mmdb.Optimizer.Chain.{Chain, build_left_deep_join-Chain}
use mmdb.Optimizer.Cases.{reorder_cases}
use mmdb.Optimizer.Orders.{IsOrder}
use mmdb.Optimizer.Leaves.{
  UniqueIds, leaf_test, all-pick, same_first_lem, scan_chain_lem, safe-All-Runs,
}

module _ ⦃p : Platform⦄ (ctx : Context) where
  abbrev Same : Plan → Plan → Type 0
  Same plan' plan = execute ctx plan' ≡ execute ctx plan

  module _ {plan f : Plan} {rest : List Plan} (chain : Chain plan f rest) where
    abbrev leaves : List Plan
    leaves = f ∷ rest

    -- A chain of scans in another order.
    scans_built :
        UniqueIds ctx
        → all is_safe_scan_join_leaf leaves ≡ true
        → (order : List ℕ) → IsOrder (length leaves) order
        → (picked : List Plan) → pick leaves order ≡ picked
        → Same (unwrap_or (build_left_deep_join picked JoinKey.node_id) plan) plan
    unfolding build_left_deep_join
    scans_built unique safe order h [] e = refl
    scans_built unique safe order h (g ∷ rest') e =
        go (build_left_deep_join (g ∷ rest') JoinKey.node_id) refl
      where
        safe' : all is_safe_scan_join_leaf (g ∷ rest') ≡ true
        safe' = ap (all is_safe_scan_join_leaf) (sym e) ∙ all-pick _ leaves order h ∙ safe

        go :
            (x : Option Plan)
            → build_left_deep_join (g ∷ rest') JoinKey.node_id ≡ x
            → Same (unwrap_or x plan) plan
        go none e' = refl
        go (some built) e' =
            scan_chain_lem ctx unique (build_left_deep_join-Chain g rest' e') safe'
            ∙ ap ok (
                filter_congr _ _
                  (λ r. ap (all (λ leaf. leaf_test ctx leaf r)) (sym e) ∙ all-pick _ leaves order h)
                  ctx.nodes)
            ∙ sym (scan_chain_lem ctx unique chain safe)

    -- A chain with its anchor in place and its scans in another order.
    anchored_built :
        all is_safe_scan_join_leaf rest ≡ true
        → (order : List ℕ) → IsOrder (length leaves) order
        → starts_with_zero order ≡ true
        → Same (unwrap_or (build_left_deep_join (pick leaves order) JoinKey.node_id) plan) plan
    unfolding build_left_deep_join
    anchored_built safe [] h start = cc
    anchored_built safe (suc i ∷ order) h start = absurd (omega (arith, (==_iff (suc i) 0).0 start))
    anchored_built safe (zero ∷ order) h start =
        go (build_left_deep_join (f ∷ pick leaves order) JoinKey.node_id) refl
      where
        go :
            (x : Option Plan)
            → build_left_deep_join (f ∷ pick leaves order) JoinKey.node_id ≡ x
            → Same (unwrap_or x plan) plan
        go none e' = refl
        go (some built) e' =
            same_first_lem ctx (zero ∷ order) (pick leaves order) chain
              (build_left_deep_join-Chain f (pick leaves order) e') (safe-All-Runs ctx rest safe)
              refl h

  -- Where node ids are unique, the reordered chain of joins gives what the chain gives: the same
  -- rows in the same order, or the same error.
  pub execute-reorder_safe_join_chain :
      (stats : Stats p.F32) (plan : Plan)
      → UniqueIds ctx
      → execute ctx (reorder_safe_join_chain stats plan) ≡ execute ctx plan
  execute-reorder_safe_join_chain stats plan unique =
      reorder_cases (λ plan'. Same plan' plan) stats plan refl
        (λ f rest chain safe order h. scans_built chain unique safe order h _ refl)
        (λ f rest chain safe order h start. anchored_built chain safe order h start)
