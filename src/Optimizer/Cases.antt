-- ===== src/Optimizer/Cases.antt =====
-- `Optimizer::reorder_safe_join_chain` by cases: it leaves the plan, or builds the chain anew in an order
-- of its leaves, where all leaves are node scans, or all but a first one that keeps its place.
use mathlib.Core.Path.{subst}
use mmdb.Common.{
  ℕ, ◌≡◌, refl, sym, ap, ◌∙◌, inl, inr, Option, none, some, List, [], ◌∷◌, Bool, true, false, ◌&&◌,
  arith, all, All, Bool-cases, length, ltb, is_eq, compare,
}
use mmdb.Ir.{Platform, LogicalPlan, JoinKey, cmp_list}
use mmdb.Stats.{Stats}
use mmdb.Executor.{Plan}
use mmdb.Optimizer.{
  Candidate, Leaves, pick, range, first, find, starts_with_zero, anchored, is_safe_scan_join_leaf,
  build_left_deep_join, unwrap_or, reorder_by, reorder_leaves, reorder_safe_join_chain,
  join_order_candidates, candidates_for, collect_same_key_join_leaves,
}
use mmdb.Optimizer.Chain.{Chain, collect-Chain}
use mmdb.Optimizer.Orders.{IsOrder, find-All, candidates_for-IsOrder}

abbrev OrderOf : Option Candidate → ℕ → Type 0
OrderOf none n = Unit
OrderOf (some best) n = IsOrder n best.leaf_order

abbrev AnchorOrderOf : Option Candidate → ℕ → Type 0
AnchorOrderOf none n = Unit
AnchorOrderOf (some best) n = IsOrder n best.leaf_order × (starts_with_zero best.leaf_order ≡ true)

anchor_right : (a b : Bool) → (a && b) ≡ true → b ≡ true
anchor_right a b h = ground arith

abbrev Ordered : ℕ → List Candidate → Type 0
Ordered n = All (λ (c : Candidate). IsOrder n c.leaf_order)

first-order : (n : ℕ) (cs : List Candidate) → Ordered n cs → OrderOf (first cs) n
first-order n [] h = tt
first-order n (c ∷ cs) h = h.0

find-order :
    (n : ℕ) (cs : List Candidate)
    → Ordered n cs
    → (best : Option Candidate) → find (λ (c : Candidate). starts_with_zero c.leaf_order) cs ≡ best
    → AnchorOrderOf best n
find-order n cs h none e = tt
find-order n cs h (some best) e =
    find-All _ (λ (c : Candidate). starts_with_zero c.leaf_order) cs h e

module _ ⦃p : Platform⦄ where
  -- The plan, its leaves joined in the order given.
  abbrev pub rebuilt : List Plan → List ℕ → Plan → Plan
  rebuilt leaves order plan =
      unwrap_or (build_left_deep_join (pick leaves order) JoinKey.node_id) plan

  module _ {ℓ} (P : Plan → Type ℓ) (plan : Plan) (same : P plan) where
    reorder_by_cases :
        (leaves : List Plan) (best : Option Candidate)
        → ((order : List ℕ) → IsOrder (length leaves) order → P (rebuilt leaves order plan))
        → OrderOf best (length leaves)
        → P (reorder_by best leaves JoinKey.node_id plan)
    unfolding reorder_by
    reorder_by_cases leaves none again h = same
    reorder_by_cases leaves (some best) again h =
        elim (Bool-cases (is_eq (cmp_list compare best.leaf_order (range 0 (length leaves))))) [
          | inl as_is ↦ rw as_is same
          | inr other ↦ rw other (again best.leaf_order h)
        ]

    reorder_by_anchor_cases :
        (leaves : List Plan) (best : Option Candidate)
        → ((order : List ℕ)
            → IsOrder (length leaves) order
            → starts_with_zero order ≡ true
            → P (rebuilt leaves order plan))
        → AnchorOrderOf best (length leaves)
        → P (reorder_by best leaves JoinKey.node_id plan)
    unfolding reorder_by
    reorder_by_anchor_cases leaves none again h = same
    reorder_by_anchor_cases leaves (some best) again h =
        elim (Bool-cases (is_eq (cmp_list compare best.leaf_order (range 0 (length leaves))))) [
          | inl as_is ↦ rw as_is same
          | inr other ↦ rw other (again best.leaf_order h.0 h.1)
        ]

    -- What a rebuilt chain of scans, and one with an anchor, have to satisfy.
    abbrev pub ForScans : Type ℓ
    ForScans =
        (f : Plan) (rest : List Plan)
        → Chain plan f rest
        → all is_safe_scan_join_leaf (f ∷ rest) ≡ true
        → (order : List ℕ) → IsOrder (length (f ∷ rest)) order
        → P (rebuilt (f ∷ rest) order plan)

    abbrev pub ForAnchored : Type ℓ
    ForAnchored =
        (f : Plan) (rest : List Plan)
        → Chain plan f rest
        → all is_safe_scan_join_leaf rest ≡ true
        → (order : List ℕ) → IsOrder (length (f ∷ rest)) order
        → starts_with_zero order ≡ true
        → P (rebuilt (f ∷ rest) order plan)

    reorder_leaves_cases :
        (stats : Stats p.F32) (f : Plan) (rest : List Plan)
        → ForScans
        → ForAnchored
        → Chain plan f rest
        → Ordered (length (f ∷ rest)) (join_order_candidates stats plan)
        → P (reorder_leaves stats (f ∷ rest, true) plan)
    unfolding reorder_leaves
    reorder_leaves_cases stats f rest scans anchors chain ordered =
        let cs = join_order_candidates stats plan in
        elim (Bool-cases (ltb (length (f ∷ rest)) 3)) [
          | inl few ↦ rw few same
          | inr many ↦ elim (Bool-cases (all is_safe_scan_join_leaf (f ∷ rest))) [
            | inl safe ↦
                rw (many, safe)
                  (reorder_by_cases (f ∷ rest) (first cs) (scans f rest chain safe)
                    (first-order _ cs ordered))
            | inr unsafe ↦ elim (Bool-cases (anchored (f ∷ rest))) [
              | inl anchor ↦
                  rw (many, unsafe, anchor)
                    (reorder_by_anchor_cases (f ∷ rest) _
                      (anchors f rest chain (anchor_right _ _ anchor))
                      (find-order _ cs ordered _ refl))
              | inr loose ↦ rw (many, unsafe, loose) same
            ]
          ]
        ]

  -- What holds of the plan and of what the chains are rebuilt to holds of the reordered plan.
  pub reorder_cases {ℓ} :
      (P : Plan → Type ℓ) (stats : Stats p.F32) (plan : Plan) (same : P plan)
      → ForScans P plan same
      → ForAnchored P plan same
      → P (reorder_safe_join_chain stats plan)
  unfolding reorder_safe_join_chain join_order_candidates reorder_leaves
  reorder_cases P stats (LogicalPlan.join left right JoinKey.node_id) same scans anchors =
      go
        (collect_same_key_join_leaves (LogicalPlan.join left right JoinKey.node_id) JoinKey.node_id
          [])
        refl
    where
      go :
          (x : Leaves)
          → collect_same_key_join_leaves
              (LogicalPlan.join left right JoinKey.node_id)
              JoinKey.node_id
              []
            ≡ x
          → P (reorder_leaves stats x (LogicalPlan.join left right JoinKey.node_id))
      go (ls, false) e = same
      go (ls, true) e =
          let (f, rest, whole, chain) =
            collect-Chain (LogicalPlan.join left right JoinKey.node_id) [] ls e in
          subst
            (λ l. P (reorder_leaves stats (l, true) (LogicalPlan.join left right JoinKey.node_id)))
            (sym whole)
            (reorder_leaves_cases P _ same stats f rest scans anchors chain (
              subst (λ (y : Leaves). Ordered (length (f ∷ rest)) (candidates_for stats y))
                (sym (e ∙ ap (λ l. (l, true)) whole))
                (candidates_for-IsOrder stats (f ∷ rest) true)))
  reorder_cases P stats (LogicalPlan.join left right (JoinKey.field k)) same scans anchors = same
  reorder_cases P stats (LogicalPlan.scan t f) same scans anchors = same
  reorder_cases P stats _ same scans anchors = same
