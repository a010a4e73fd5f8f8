-- ===== src/Executor/Complete.antt =====
-- What `graph_expand_rows` finds: everything within the depth.
use mathlib.Core.Path.{subst}
use mmdb.Common.{
  ℕ, zero, suc, ◌≤◌, ◌≡◌, refl, sym, ap, ◌∙◌, inl, inr, Option, some, List, [], ◌∷◌, true, arith,
  String, In, str_cmp, str_eq, str_eq_iff, Bool-cases,
}
use mmdb.Common.BTreeMap
use mmdb.Ir.{Platform}
use mmdb.Executor.{
  Context, Row, Expansion, contains, emit, walk, walk_fuel, start_seed, node_by_id, expand_seed,
  expand_seeds, graph_expand_rows, no_expansion,
}
use mmdb.Executor.Lookup.{node_by_id-Has}
use mmdb.Executor.Walk.{frontier-expand_seed}
use mmdb.Executor.Expand.{distinct, PathTo, ids, expand_seeds-Sound}
use mmdb.Executor.Trace.{Entry, Processed}
use mmdb.Executor.Account.{Keeps, emit-Keeps, contains-emit, Closed, Settled, walk-Continues}

module _ ⦃p : Platform⦄ (ctx : Context) (relation : Option String) (depth : ℕ) where
  nothing_In : (q : Entry) → In q [] → ⊥
  nothing_In q (t, e) = cc

  only : (x y : Entry) → In x (y ∷ []) → y ≡ x
  only x y (zero, e) = cc
  only x y (suc t, e) = cc

  start_seed-Settled :
      (seed : Row) (s : Expansion p.F32)
      → Settled ctx relation depth s.emitted (start_seed seed s) ((seed.node_id, 0) ∷ [])
  start_seed-Settled seed s = (
    record {
      seen = refl;
      queued = λ q m. m;
      settled = λ q m. inl m;
      sorted = (tt, tt);
      near = λ q z m w. omega (arith, ap (λ (x : Entry). x.1) (only q (seed.node_id, 0) m));
    },
    (λ q m r at.
        subst (λ (x : Entry). contains (emit seed s).emitted x.0 ≡ true)
          (only q (seed.node_id, 0) m) (contains-emit ctx relation depth seed s)),
    λ k h. emit-Keeps ctx relation depth seed s k h,
  )

  -- The loop over one seed keeps what was emitted, and emits the nodes within the depth.
  abbrev Finds : Row → List String → List String → Type 0
  Finds seed base emitted =
      Keeps ctx relation depth base emitted
      × ((hops : ℕ) (id : String) (r : Row)
          → hops ≤ depth
          → PathTo ctx.edges relation seed.node_id hops id
          → BTreeMap.get str_cmp id (node_by_id ctx) ≡ some r
          → contains emitted id ≡ true)

  path_seen :
      (from : String) (trace : List Entry)
      → In (from, 0) trace
      → ((q : Entry) → In q trace → Processed ctx relation depth trace q)
      → {hops : ℕ} {id : String} → PathTo ctx.edges relation from hops id
      → hops ≤ depth
      → (k : ℕ) × (k ≤ hops) × In (id, k) trace
  path_seen from trace here done PathTo.start le = (0, omega arith, here)
  path_seen from trace here done (PathTo.along {hops = hops} {to = to} edge path m src rel) le =
      let (k, short, at) = path_seen from trace here done path (omega (arith, le)) in
      elim (done (to, k) at) [
        | inl deep ↦ absurd (omega (arith, deep, short, le))
        | inr all_seen ↦
            let (k', near, at') = all_seen edge m src rel in (k', omega (arith, near, short), at')
      ]

  expand_seed-Finds :
      (seed : Row) (s : Expansion p.F32)
      → Finds seed s.emitted (expand_seed ctx relation depth seed s).emitted
  unfolding expand_seed
  expand_seed-Finds seed s =
      let (trace, (closed, shown, keeps), more) =
        walk-Continues ctx relation depth s.emitted (walk_fuel ctx) (start_seed seed s)
          ((seed.node_id, 0) ∷ []) (start_seed-Settled seed s) in
      let ended = frontier-expand_seed ctx relation depth seed s in
      (
        keeps,
        λ hops id r le path at.
            let (k, short, m) =
              path_seen seed.node_id trace (more (seed.node_id, 0) (0, refl))
                (all_done trace closed ended) path le in
            shown (id, k) m r at,
      )
    where
      all_done :
          (trace : List Entry)
          → Closed ctx relation depth s.emitted
              (walk ctx relation depth (walk_fuel ctx) (start_seed seed s)).frontier
              (walk ctx relation depth (walk_fuel ctx) (start_seed seed s)).local_seen
              trace
          → (walk ctx relation depth (walk_fuel ctx) (start_seed seed s)).frontier ≡ []
          → (q : Entry) → In q trace
          → Processed ctx relation depth trace q
      all_done trace closed ended q m = elim (closed.settled q m) [
        | inl waiting ↦ absurd (nothing_In q (subst (In q) ended waiting))
        | inr done ↦ done
      ]

  expand_seeds-Keeps :
      (seeds : List Row) (s : Expansion p.F32)
      → Keeps ctx relation depth s.emitted (expand_seeds ctx relation depth seeds s).emitted
  unfolding expand_seeds
  expand_seeds-Keeps [] s k h = h
  expand_seeds-Keeps (seed ∷ seeds) s k h =
      expand_seeds-Keeps seeds (expand_seed ctx relation depth seed s) k
        ((expand_seed-Finds seed s).0 k h)

  expand_seeds-Finds :
      (seeds : List Row) (seed : Row) (s : Expansion p.F32)
      → In seed seeds
      → Finds seed s.emitted (expand_seeds ctx relation depth seeds s).emitted
  unfolding expand_seeds
  expand_seeds-Finds [] seed s (t, e) = cc
  expand_seeds-Finds (seed' ∷ seeds) seed s (zero, e) =
      let same : seed' ≡ seed = cc in
      let here =
        subst (λ r. Finds r s.emitted (expand_seed ctx relation depth seed' s).emitted) same
          (expand_seed-Finds seed' s) in
      (
        expand_seeds-Keeps (seed' ∷ seeds) s,
        λ hops id r le path at.
            expand_seeds-Keeps seeds (expand_seed ctx relation depth seed' s) id
              (here.1 hops id r le path at),
      )
  expand_seeds-Finds (seed' ∷ seeds) seed s (suc t, e) = (
    expand_seeds-Keeps (seed' ∷ seeds) s,
    (expand_seeds-Finds seeds seed (expand_seed ctx relation depth seed' s) (t, e)).1,
  )

  graph_expand_rows-contains :
      (seeds : List Row) (seed : Row) {hops : ℕ} {id : String} (r : Row)
      → In seed seeds
      → hops ≤ depth
      → PathTo ctx.edges relation seed.node_id hops id
      → BTreeMap.get str_cmp id (node_by_id ctx) ≡ some r
      → contains (ids (graph_expand_rows ctx seeds relation depth)) id ≡ true
  unfolding graph_expand_rows distinct
  graph_expand_rows-contains seeds seed {hops} {id} r m le path at =
      let sound =
        expand_seeds-Sound ctx relation depth seeds seeds (λ r m. m) no_expansion
          ((λ k. refl), refl, tt) in
      sym (sound.0 id) ∙ (expand_seeds-Finds seeds seed no_expansion m).1 hops id r le path at

  ids-row :
      (id : String) (rows : List Row)
      → contains (ids rows) id ≡ true
      → (row : Row) × In row rows × (row.node_id ≡ id)
  ids-row id [] h = cc
  ids-row id (r ∷ rows) h = elim (Bool-cases (str_eq id r.node_id)) [
    | inl same ↦ (r, (0, refl), sym ((str_eq_iff id r.node_id).0 same))
    | inr other ↦ let (row, i, e) = ids-row id rows (rw other at h) in (row, (suc i.0, i.1), e)
  ]

  -- Of each node of the context whose id a path of at most `depth` edges of the relation joins to a
  -- seed, graph expansion returns a row with that id.
  pub graph_expand_rows_complete :
      (seeds : List Row) (seed : Row) {hops : ℕ} (node : Row)
      → In seed seeds
      → In node ctx.nodes
      → hops ≤ depth
      → PathTo ctx.edges relation seed.node_id hops node.node_id
      → (row : Row) × In row (graph_expand_rows ctx seeds relation depth)
        × (row.node_id ≡ node.node_id)
  graph_expand_rows_complete seeds seed node m known le path =
      let (r, found) = node_by_id-Has ctx node known in
      ids-row node.node_id (graph_expand_rows ctx seeds relation depth)
        (graph_expand_rows-contains seeds seed r m le path found)
