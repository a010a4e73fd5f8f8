-- ===== src/Optimizer/Leaves.antt =====
-- The leaves of a join chain as sets: what a chain computes depends only on which leaves it has.
use mathlib.Core.Path.{subst}
use mmdb.Common.{
  All-of_In, ℕ, zero, suc, ◌≡◌, refl, sym, ap, ◌∙◌, inl, inr, some, List, [], ◌∷◌, Bool, true,
  false, ◌&&◌, arith, String, filter, filter_map, all, In, All, str_eq, str_eq_iff, Bool-cases,
  filter-filter, filter_congr_In, map, get_elem?, length, all-In, all-of_In, In-filter, filter-In,
  All-In, filter_congr, ap₂, get_elem?_lt, Option-cases,
}
use mmdb.Errors.{Result, ok, err}
use mmdb.Ir.{Platform, LogicalPlan, TableId}
use mmdb.Eval.{join_value}
use mmdb.Executor.{Context, Row, Plan, passes, execute}
use mmdb.Optimizer.{pick, is_safe_scan_join_leaf}
use mmdb.Optimizer.Chain.{has_id, in_all, Chain, execute_all, Chain-execute}
use mmdb.Optimizer.Orders.{IsOrder}

bool_ext : (a b : Bool) → (a ≡ true → b ≡ true) → (b ≡ true → a ≡ true) → a ≡ b
bool_ext true b f g = sym (f refl)
bool_ext false true f g = g refl
bool_ext false false f g = refl

&&_twice : (a b : Bool) → (a && (a && b)) ≡ (a && b)
&&_twice a b = ground arith

and_left : (a b : Bool) → (a && b) ≡ true → a ≡ true
and_left a b h = ground arith

and_right : (a b : Bool) → (a && b) ≡ true → b ≡ true
and_right a b h = ground arith

module _ {ℓ} {A : Type ℓ} where
  In-pick : (leaves : List A) (order : List ℕ) (x : A) → In x (pick leaves order) → In x leaves
  In-pick leaves [] x (t, e) = cc
  In-pick leaves (i ∷ order) x m = elim (Option-cases (get_elem? leaves i)) [
    | inl missing ↦ In-pick leaves order x (rw (missing, filter_map) at m)
    | inr (y, found) ↦ at_head y found (In-pick leaves order x) (rw (found, filter_map) at m)
  ]
    where
      at_head :
          (y : A)
          → get_elem? leaves i ≡ some y
          → (In x (pick leaves order) → In x leaves)
          → In x (y ∷ pick leaves order)
          → In x leaves
      at_head y found later (zero, e) = (i, found ∙ e)
      at_head y found later (suc t, e) = later (t, e)

  pick-In :
      (leaves : List A) (order : List ℕ) (k : ℕ) (x : A)
      → In k order
      → get_elem? leaves k ≡ some x
      → In x (pick leaves order)
  pick-In leaves [] k x (t, e) found = cc
  pick-In leaves (i ∷ order) k x (zero, e) found =
      let same : i ≡ k = cc in
      let here : get_elem? leaves i ≡ some x =
        subst (λ j. get_elem? leaves j ≡ some x) (sym same) found in
      rw (here, filter_map) (0, refl)
  pick-In leaves (i ∷ order) k x (suc t, e) found =
      let (s, later) = pick-In leaves order k x (t, e) found in
      elim (Option-cases (get_elem? leaves i)) [
        | inl missing ↦ rw (missing, filter_map) (s, later)
        | inr (y, here) ↦ rw (here, filter_map) (suc s, later)
      ]

  -- A test that holds of every leaf does so in every order of the leaves.
  pub all-pick :
      (f : A → Bool) (leaves : List A) (order : List ℕ)
      → IsOrder (length leaves) order
      → all f (pick leaves order) ≡ all f leaves
  all-pick f leaves order h =
      bool_ext _ _
        (λ picked. all-of_In f leaves (λ x m.
          all-In f (pick leaves order) picked x
            (pick-In leaves order m.0 x (h.0 m.0 (get_elem?_lt leaves m.0 x m.1)) m.1)))
        (λ whole.
          all-of_In f (pick leaves order)
            (λ x m. all-In f leaves whole x (In-pick leaves order x m)))

  pub All-pick {κ} :
      (P : A → Type κ) (leaves : List A) (order : List ℕ)
      → ((x : A) → In x leaves → P x)
      → All P (pick leaves order)
  All-pick P leaves order h = All-of_In P _ (λ x m. h x (In-pick leaves order x m))

module _ ⦃p : Platform⦄ (ctx : Context) where
  -- Two nodes with one id are one row.
  abbrev pub UniqueIds : Type 0
  UniqueIds = (r s : Row) → In r ctx.nodes → In s ctx.nodes → r.node_id ≡ s.node_id → r ≡ s

  abbrev or_empty : Result (List Row) → List Row
  or_empty (ok rows) = rows
  or_empty (err e) = []

  abbrev pub value : Plan → List Row
  value plan = or_empty (execute ctx plan)

  abbrev pub Runs : Plan → Type 0
  Runs plan = execute ctx plan ≡ ok (value plan)

  execute_all-eq-map :
      (plans : List Plan) → All Runs plans → execute_all ctx plans ≡ ok (map value plans)
  unfolding execute_all
  execute_all-eq-map [] h = refl
  execute_all-eq-map (plan ∷ plans) h = rw (h.0, execute_all-eq-map plans h.1) refl

  has_id-In : (r : Row) (rows : List Row) → In r rows → has_id r.node_id rows ≡ true
  unfolding join_value
  has_id-In r [] (t, e) = cc
  has_id-In r (s ∷ rows) (zero, e) =
      let same : s ≡ r = cc in
      rw ((str_eq_iff r.node_id s.node_id).1 (ap (λ (x : Row). x.node_id) (sym same))) refl
  has_id-In r (s ∷ rows) (suc t, e) = ground (arith, has_id-In r rows (t, e))

  in_all-map :
      (key : String) (plans : List Plan)
      → in_all key (map value plans) ≡ all (λ leaf. has_id key (value leaf)) plans
  in_all-map key [] = refl
  in_all-map key (plan ∷ plans) = ap (λ b. has_id key (value plan) && b) (in_all-map key plans)

  -- A chain whose leaves all run keeps the rows of the first whose id stands in every leaf.
  pub chain_lem :
      {plan f : Plan} {rest : List Plan}
      → Chain plan f rest
      → Runs f
      → All Runs rest
      → execute ctx plan
        ≡ ok (filter (λ r. all (λ leaf. has_id r.node_id (value leaf)) (f ∷ rest)) (value f))
  chain_lem {plan} {f} {rest} c runs_f runs_rest =
      Chain-execute ctx c
      ∙ rw (runs_f, execute_all-eq-map rest runs_rest)
          (ap ok
            (filter_congr_In _ _ (value f) (λ r m. rw (in_all-map, has_id-In r (value f) m) refl)))

  -- Two chains with the same first leaf and the same leaves compute the same.
  pub same_first_lem :
      {plan plan' f : Plan} {rest : List Plan} (order : List ℕ) (rest' : List Plan)
      → Chain plan f rest
      → Chain plan' f rest'
      → All Runs rest
      → pick (f ∷ rest) order ≡ f ∷ rest'
      → IsOrder (length (f ∷ rest)) order
      → execute ctx plan' ≡ execute ctx plan
  unfolding execute_all
  same_first_lem {plan} {plan'} {f} {rest} order rest' c c' runs picked h = go (execute ctx f) refl
    where
      go : (x : Result (List Row)) → execute ctx f ≡ x → execute ctx plan' ≡ execute ctx plan
      go (err e) failed = rw (Chain-execute ctx c', Chain-execute ctx c) (rw failed refl)
      go (ok a) ran =
          let runs_f : Runs f = rw ran refl in
          let every = All-In Runs (f ∷ rest) (runs_f, runs) in
          let runs' = subst (All Runs) picked (All-pick Runs (f ∷ rest) order every) in
          chain_lem c' runs_f runs'.1
          ∙ ap ok (
              filter_congr _ _
                (λ r.
                  ap (all (λ leaf. has_id r.node_id (value leaf))) (sym picked)
                  ∙ all-pick _ (f ∷ rest) order h)
                (value f))
          ∙ sym (chain_lem c runs_f runs)

  -- The rows of a node scan.
  abbrev pub leaf_test : Plan → Row → Bool
  leaf_test (LogicalPlan.scan TableId.nodes f) r = passes f r
  leaf_test _ r = false

  safe_runs :
      (leaf : Plan)
      → is_safe_scan_join_leaf leaf ≡ true
      → execute ctx leaf ≡ ok (filter (leaf_test leaf) ctx.nodes)
  unfolding is_safe_scan_join_leaf execute
  safe_runs (LogicalPlan.scan TableId.nodes f) h = refl
  safe_runs (LogicalPlan.scan TableId.edges f) h = cc
  safe_runs (LogicalPlan.scan TableId.blobs f) h = cc
  safe_runs _ h = cc

  safe-Runs : (leaf : Plan) → is_safe_scan_join_leaf leaf ≡ true → Runs leaf
  safe-Runs leaf h = let ran = safe_runs leaf h in rw ran refl

  pub safe-All-Runs :
      (leaves : List Plan) → all is_safe_scan_join_leaf leaves ≡ true → All Runs leaves
  safe-All-Runs leaves h =
      All-of_In Runs leaves
        (λ leaf m. safe-Runs leaf (all-In is_safe_scan_join_leaf leaves h leaf m))

  In-of_has_id :
      (key : String) (rows : List Row)
      → has_id key rows ≡ true
      → (s : Row) × In s rows × (s.node_id ≡ key)
  unfolding join_value
  In-of_has_id key [] h = cc
  In-of_has_id key (s ∷ rows) h = elim (Bool-cases (str_eq key s.node_id)) [
    | inl same ↦ (s, (0, refl), sym ((str_eq_iff key s.node_id).0 same))
    | inr other ↦ let (r, m, e) = In-of_has_id key rows (rw other at h) in (r, (suc m.0, m.1), e)
  ]

  has_id-scan :
      (unique : UniqueIds) (test : Row → Bool) (r : Row)
      → In r ctx.nodes
      → has_id r.node_id (filter test ctx.nodes) ≡ test r
  has_id-scan unique test r m =
      bool_ext _ _
        (λ found.
          let (s, at, same_id) = In-of_has_id r.node_id _ found in
          let (at_node, passed) = In-filter test ctx.nodes s at in
          subst (λ x. test x ≡ true) (unique s r at_node m same_id) passed)
        (λ passed. has_id-In r _ (filter-In test ctx.nodes r m passed))

  -- Where ids are unique, a chain of node scans keeps the nodes that pass every scan.
  pub scan_chain_lem :
      {plan f : Plan} {rest : List Plan}
      → UniqueIds
      → Chain plan f rest
      → all is_safe_scan_join_leaf (f ∷ rest) ≡ true
      → execute ctx plan ≡ ok (filter (λ r. all (λ leaf. leaf_test leaf r) (f ∷ rest)) ctx.nodes)
  scan_chain_lem {plan} {f} {rest} unique c safe =
      let runs = safe-All-Runs (f ∷ rest) safe in
      chain_lem c runs.0 runs.1
      ∙ ap ok (
          ap (filter _) (value-eq f (all-In is_safe_scan_join_leaf (f ∷ rest) safe f (0, refl)))
          ∙ filter-filter _ (leaf_test f) ctx.nodes
          ∙ filter_congr_In _ _ ctx.nodes
              (λ r m. rw (has_ids r m (f ∷ rest) safe) (&&_twice (leaf_test f r) _)))
    where
      value-eq :
          (leaf : Plan)
          → is_safe_scan_join_leaf leaf ≡ true
          → value leaf ≡ filter (leaf_test leaf) ctx.nodes
      value-eq leaf h = ap or_empty (safe_runs leaf h)

      has_ids :
          (r : Row)
          → In r ctx.nodes
          → (leaves : List Plan) → all is_safe_scan_join_leaf leaves ≡ true
          → all (λ leaf. has_id r.node_id (value leaf)) leaves
            ≡ all (λ leaf. leaf_test leaf r) leaves
      has_ids r m [] h = refl
      has_ids r m (leaf ∷ leaves) h =
          ap₂ (◌&&◌)
            (ap (has_id r.node_id) (value-eq leaf (and_left _ _ h))
              ∙ has_id-scan unique (leaf_test leaf) r m)
            (has_ids r m leaves (and_right _ _ h))
