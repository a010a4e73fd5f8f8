-- ===== src/Optimizer/Chain.antt =====
-- What a tree of joins on the node id computes: the rows of its first leaf whose id stands in every
-- leaf. So the order of the other leaves does not matter.
use mathlib.Core.List.{append_assoc, append-nil}
use mathlib.Core.Path.{subst}
use mmdb.Common.{
  ◌≡◌, refl, sym, ap, ◌∙◌, inl, inr, some, List, [], ◌∷◌, ◌++◌, Bool, true, false, ◌&&◌, arith,
  String, filter, filter_map, all, str_eq, str_eq_iff, Bool-cases, filter-filter, filter_congr,
  filter-true,
}
use mmdb.Errors.{Result, ok, err, ◌>>=◌}
use mmdb.Ir.{Platform, LogicalPlan, JoinKey}
use mmdb.Eval.{join_value}
use mmdb.Executor.{Context, Row, Plan, contains, join_rows, execute}
use mmdb.Optimizer.{
  Leaves, and_then, collect_same_key_join_leaves, join_on_left, build_left_deep_join,
}

module _ ⦃p : Platform⦄ where
  -- Whether a row has the id.
  abbrev pub has_id : String → List Row → Bool
  has_id key rows = contains (filter_map (λ r. join_value r JoinKey.node_id) rows) key

  has_id-filter :
      (test : String → Bool) (key : String) (rows : List Row)
      → has_id key (filter (λ r. test r.node_id) rows) ≡ has_id key rows && test key
  unfolding join_value
  has_id-filter test key [] = refl
  has_id-filter test key (r ∷ rows) = elim (Bool-cases (str_eq key r.node_id)) [
    | inl same ↦
        let agree : test r.node_id ≡ test key = ap test (sym ((str_eq_iff key r.node_id).0 same)) in
        ground (arith, has_id-filter test key rows)
    | inr other ↦ ground (arith, has_id-filter test key rows)
  ]

  -- The id stands in each of the lists.
  abbrev pub in_all : String → List (List Row) → Bool
  in_all key others = all (has_id key) others

  all-append {ℓ} :
      {A : Type ℓ} (f : A → Bool) (xs ys : List A) → all f (xs ++ ys) ≡ all f xs && all f ys
  all-append f [] ys = refl
  all-append f (x ∷ xs) ys = ground (arith, all-append f xs ys)

  abbrev pub chain_rows : List Row → List (List Row) → List Row
  chain_rows a others = filter (λ r. in_all r.node_id others) a

  join-chain_rows :
      (a : List Row) (bs : List (List Row)) (c : List Row) (ds : List (List Row))
      → join_rows (chain_rows a bs) (chain_rows c ds) JoinKey.node_id ≡ chain_rows a (bs ++ c ∷ ds)
  unfolding join_rows join_value
  join-chain_rows a bs c ds =
      filter-filter (λ r. has_id r.node_id (chain_rows c ds)) (λ r. in_all r.node_id bs) a
      ∙ filter_congr _ _
          (λ r.
            ap (λ t. in_all r.node_id bs && t) (has_id-filter (λ k. in_all k ds) r.node_id c)
            ∙ sym (all-append (has_id r.node_id) bs (c ∷ ds)))
          a

  -- A tree of joins on the node id, with its first leaf and the others in order.
  pub data Chain : Plan → Plan → List Plan → Type 0 where
    leaf : {plan : Plan} → Chain plan plan []
    node :
        {l r f g : Plan} {ls rs leaves : List Plan}
        → Chain l f ls
        → Chain r g rs
        → leaves ≡ ls ++ g ∷ rs
        → Chain (LogicalPlan.join l r JoinKey.node_id) f leaves

  module _ (ctx : Context) where
    unfoldable pub execute_all : List Plan → Result (List (List Row))
    execute_all [] = ok []
    execute_all (plan ∷ plans) = do
      rows ← execute ctx plan
      others ← execute_all plans
      ok (rows ∷ others)

    -- The rows of a chain, from those of its leaves.
    abbrev pub chain_result : Plan → List Plan → Result (List Row)
    chain_result f rest = do a ← execute ctx f; bs ← execute_all rest; ok (chain_rows a bs)

    abbrev bound : Result (List Row) → Result (List (List Row)) → Result (List Row)
    bound x y = do a ← x; bs ← y; ok (chain_rows a bs)

    execute_all-append :
        (xs : List Plan) (g : Plan) (ys : List Plan)
        → execute_all (xs ++ g ∷ ys)
          ≡ (do bs ← execute_all xs; c ← execute ctx g; ds ← execute_all ys; ok (bs ++ c ∷ ds))
    unfolding execute_all
    execute_all-append [] g ys = ground arith
    execute_all-append (x ∷ xs) g ys = ground (arith, execute_all-append xs g ys)

    join_bound :
        (x : Result (List Row)) (y : Result (List (List Row))) (z : Result (List Row))
        (w : Result (List (List Row)))
        → (do l ← bound x y; r ← bound z w; ok (join_rows l r JoinKey.node_id))
          ≡ bound x (do bs ← y; c ← z; ds ← w; ok (bs ++ c ∷ ds))
    join_bound (err e) y z w = refl
    join_bound (ok a) (err e) z w = refl
    join_bound (ok a) (ok bs) (err e) w = refl
    join_bound (ok a) (ok bs) (ok c) (err e) = refl
    join_bound (ok a) (ok bs) (ok c) (ok ds) = ap ok (join-chain_rows a bs c ds)

    leaf_bound : (x : Result (List Row)) → x ≡ bound x (ok [])
    leaf_bound (ok a) = ap ok (sym (filter-true a))
    leaf_bound (err e) = refl

    -- Evaluating a tree of joins on the node id keeps the rows of its first leaf whose id stands
    -- in every other leaf, and fails as its leaves fail, from the left.
    pub Chain-execute :
        {plan f : Plan} {rest : List Plan}
        → Chain plan f rest
        → execute ctx plan ≡ chain_result f rest
    unfolding execute execute_all
    Chain-execute (leaf {plan}) = leaf_bound (execute ctx plan)
    Chain-execute (node {l} {r} {f} {g} {ls} {rs} left right e) =
        rw (Chain-execute left, Chain-execute right, e, execute_all-append)
          (join_bound (execute ctx f) (execute_all ls) (execute ctx g) (execute_all rs))

  -- The first leaf and the others of a collection from a plan, after the leaves that were there.
  abbrev pub Collected : Plan → List Plan → List Plan → Type 0
  Collected plan acc leaves =
      (f : Plan) × (rest : List Plan) × (leaves ≡ acc ++ f ∷ rest) × Chain plan f rest

  Collected-join :
      (left right : Plan) (acc ls leaves : List Plan)
      → Collected left acc ls
      → Collected right ls leaves
      → Collected (LogicalPlan.join left right JoinKey.node_id) acc leaves
  Collected-join left right acc ls leaves (f, xs, e_l, c_l) (g, ys, e_r, c_r) = (
    f,
    xs ++ g ∷ ys,
    e_r ∙ ap (λ l. l ++ g ∷ ys) e_l ∙ append_assoc acc (f ∷ xs) (g ∷ ys),
    Chain.node c_l c_r refl,
  )

  -- What is collected from a plan are the leaves of a chain.
  pub collect-Chain :
      (plan : Plan) (acc leaves : List Plan)
      → collect_same_key_join_leaves plan JoinKey.node_id acc ≡ (leaves, true)
      → Collected plan acc leaves
  unfolding collect_same_key_join_leaves
  collect-Chain (LogicalPlan.join left right JoinKey.node_id) acc leaves e =
      go (collect_same_key_join_leaves left JoinKey.node_id acc) refl (collect-Chain left acc)
        (λ ls. collect-Chain right ls leaves) e
    where
      go :
          (x : Leaves)
          → collect_same_key_join_leaves left JoinKey.node_id acc ≡ x
          → ((ls : List Plan)
              → collect_same_key_join_leaves left JoinKey.node_id acc ≡ (ls, true)
              → Collected left acc ls)
          → ((ls : List Plan)
              → collect_same_key_join_leaves right JoinKey.node_id ls ≡ (leaves, true)
              → Collected right ls leaves)
          → and_then x (collect_same_key_join_leaves right JoinKey.node_id) ≡ (leaves, true)
          → Collected (LogicalPlan.join left right JoinKey.node_id) acc leaves
      go (ls, false) e_l ih_l ih_r e' = cc
      go (ls, true) e_l ih_l ih_r e' =
          Collected-join left right acc ls leaves (ih_l ls e_l) (ih_r ls e')
  collect-Chain (LogicalPlan.join left right (JoinKey.field field)) acc leaves e = cc
  collect-Chain (LogicalPlan.scan t f) acc leaves e = (_, [], sym (ap (λ x. x.0) e), Chain.leaf)
  collect-Chain _ acc leaves e = (_, [], sym (ap (λ x. x.0) e), Chain.leaf)

  -- The plan that is built from a list of leaves is the chain of those leaves.
  join_on_left-Chain :
      (plan f : Plan) (rest leaves : List Plan)
      → Chain plan f rest
      → Chain (join_on_left plan leaves JoinKey.node_id) f (rest ++ leaves)
  unfolding join_on_left
  join_on_left-Chain plan f rest [] c = rw append-nil c
  join_on_left-Chain plan f rest (g ∷ leaves) c = rw (sym (append_assoc rest (g ∷ []) leaves)) (
      join_on_left-Chain (LogicalPlan.join plan g JoinKey.node_id) f (rest ++ g ∷ []) leaves
        (Chain.node c Chain.leaf refl))

  pub build_left_deep_join-Chain :
      (f : Plan) (rest : List Plan) {plan : Plan}
      → build_left_deep_join (f ∷ rest) JoinKey.node_id ≡ some plan
      → Chain plan f rest
  unfolding build_left_deep_join
  build_left_deep_join-Chain f [] e = cc
  build_left_deep_join-Chain f (g ∷ rest) {plan} e =
      let same : join_on_left (LogicalPlan.join f g JoinKey.node_id) rest JoinKey.node_id ≡ plan =
        cc in
      subst (λ q. Chain q f (g ∷ rest)) same
        (join_on_left-Chain _ f (g ∷ []) rest (Chain.node Chain.leaf Chain.leaf refl))
