-- ===== src/Executor/Expand.antt =====
-- What `graph_expand_rows` returns: no id twice, and only seeds and nodes within the depth.
use mmdb.Common.{
  ℕ, zero, suc, ◌+◌, ◌≤◌, ◌<◌, ◌≡◌, refl, sym, ap, ap₂, ◌∙◌, inl, inr, Option, none, some, List, [],
  ◌∷◌, ◌++◌, Bool, true, false, ◌&&◌, ◌||◌, arith, String, map, In, All, All-append, Bool-cases,
  str_eq, str_eq_iff, str_cmp, leb, leb→gt, not,
}
use mmdb.Common.BTreeMap
use mmdb.Ir.{Platform}
use mmdb.Executor.{
  Context, Row, Expansion, EdgeRecord, contains, emit, emit_found, reach, visit_edge, visit_edges,
  visit, walk, pop_front, walk_fuel, start_seed, expand_seed, expand_seeds, graph_expand_rows,
  no_expansion, other_relation, node_by_id,
}
use mmdb.Executor.Walk.{emit_found_frontier}

-- No string stands twice in the list.
unfoldable pub distinct : List String → Bool
distinct [] = true
distinct (x ∷ xs) = not (contains xs x) && distinct xs

str_eq_sym : (a b : String) → str_eq a b ≡ str_eq b a
str_eq_sym a b = elim (Bool-cases (str_eq a b)) [
  | inl same ↦ same ∙ sym ((str_eq_iff b a).1 (sym ((str_eq_iff a b).0 same)))
  | inr other ↦ elim (Bool-cases (str_eq b a)) [
    | inl same ↦ (str_eq_iff a b).1 (sym ((str_eq_iff b a).0 same)) ∙ sym same
    | inr other' ↦ other ∙ sym other'
  ]
]

contains-append :
    (xs ys : List String) (k : String) → contains (xs ++ ys) k ≡ contains xs k || contains ys k
contains-append [] ys k = refl
contains-append (x ∷ xs) ys k = ground (arith, contains-append xs ys k)

distinct-append :
    (xs : List String) (k : String) → distinct (xs ++ k ∷ []) ≡ distinct xs && not (contains xs k)
unfolding distinct
distinct-append [] k = refl
distinct-append (x ∷ xs) k =
    rw (contains-append xs (k ∷ []) x, distinct-append xs k, str_eq_sym k x) (ground arith)

map-append {ℓ κ} :
    {A : Type ℓ} {B : Type κ} (f : A → B) (xs ys : List A) → map f (xs ++ ys) ≡ map f xs ++ map f ys
map-append f [] ys = refl
map-append f (x ∷ xs) ys = ap (λ zs. f x ∷ zs) (map-append f xs ys)

module _ ⦃p : Platform⦄ where
  abbrev pub ids : List Row → List String
  ids rows = map (λ (r : Row). r.node_id) rows

  -- A walk along edges of the relation, with its number of edges.
  pub data PathTo (edges : List EdgeRecord) (relation : Option String) (from : String)
      : ℕ → String → Type 0 where
    start : PathTo edges relation from 0 from
    along :
        {hops : ℕ} {to : String} (edge : EdgeRecord)
        → PathTo edges relation from hops to
        → In edge edges
        → edge.src ≡ to
        → other_relation relation edge ≡ false
        → PathTo edges relation from (hops + 1) edge.dst

  module _ (ctx : Context) (relation : Option String) (depth : ℕ) where
    abbrev pub by_id : List (String × Row)
    by_id = node_by_id ctx

    -- A row to expand to: a seed, or the node of an id within `depth` edges of a seed.
    pub data IsReached (seeds : List Row) : Row → Type 0 where
      seed : {r : Row} → In r seeds → IsReached seeds r
      node :
          {r : Row} (s : Row) {hops : ℕ} {id : String}
          → In s seeds
          → hops ≤ depth
          → PathTo ctx.edges relation s.node_id hops id
          → BTreeMap.get str_cmp id by_id ≡ some r
          → IsReached seeds r

    module _ (seeds : List Row) where
      -- What holds of the rows and the ids emitted so far.
      abbrev pub Sound : List Row → List String → Type 0
      Sound out emitted =
          ((k : String) → contains emitted k ≡ contains (ids out) k)
          × (distinct (ids out) ≡ true)
          × All (IsReached seeds) out

      emit-Sound :
          (r : Row) (s : Expansion p.F32)
          → IsReached seeds r
          → Sound s.out s.emitted
          → Sound (emit r s).out (emit r s).emitted
      unfolding emit distinct
      emit-Sound r s reached (agree, alone, every) =
          elim (Bool-cases (contains s.emitted r.node_id)) [
            | inl old ↦ rw old (agree, alone, every)
            | inr new ↦
                rw (new, map-append (λ (x : Row). x.node_id) s.out (r ∷ []))
                  (
                    (λ k.
                        rw (agree k, contains-append (ids s.out) (r.node_id ∷ []) k)
                          (ground arith)),
                    distinct-append (ids s.out) r.node_id
                        ∙ ap₂ (λ a b. a && not b) alone (sym (agree r.node_id) ∙ new),
                    All-append (IsReached seeds) s.out (r ∷ []) every (reached, tt),
                  )
          ]

      module _ (origin : Row) (from_seeds : In origin seeds) where
        abbrev Pending : String × ℕ → Type 0
        Pending q = (q.1 ≤ depth) × PathTo ctx.edges relation origin.node_id q.1 q.0

        abbrev Inv : Expansion p.F32 → Type 0
        Inv s = Sound s.out s.emitted × All Pending s.frontier

        reach-Inv :
            (current : String) (hop : ℕ) (edge : EdgeRecord) (s : Expansion p.F32)
            → In edge ctx.edges
            → edge.src ≡ current
            → other_relation relation edge ≡ false
            → hop < depth
            → PathTo ctx.edges relation origin.node_id hop current
            → Inv s
            → Inv (reach by_id hop edge s)
        unfolding reach
        reach-Inv current hop edge s m from rel near path (sound, every) =
            let on : PathTo ctx.edges relation origin.node_id (hop + 1) edge.dst =
              PathTo.along edge path m from rel in
            let seen : Expansion p.F32 = record s { local_seen = edge.dst ∷ s.local_seen } in
            let found = BTreeMap.get str_cmp edge.dst by_id in
            (
              go found refl on,
              rw (emit_found_frontier found seen) (
                  All-append Pending s.frontier ((edge.dst, hop + 1) ∷ []) every
                    ((omega (arith, near), on), tt)),
            )
          where
            go :
                (x : Option Row)
                → BTreeMap.get str_cmp edge.dst by_id ≡ x
                → PathTo ctx.edges relation origin.node_id (hop + 1) edge.dst
                → Sound
                    (emit_found x (record s { local_seen = edge.dst ∷ s.local_seen })).out
                    (emit_found x (record s { local_seen = edge.dst ∷ s.local_seen })).emitted
            go none e on = sound
            go (some r) e on =
                emit-Sound r (record s { local_seen = edge.dst ∷ s.local_seen })
                  (IsReached.node origin from_seeds (omega (arith, near)) on e) sound

        visit_edge-Inv :
            (current : String) (hop : ℕ) (edge : EdgeRecord) (s : Expansion p.F32)
            → In edge ctx.edges
            → hop < depth
            → PathTo ctx.edges relation origin.node_id hop current
            → Inv s
            → Inv (visit_edge by_id relation current hop edge s)
        unfolding visit_edge
        visit_edge-Inv current hop edge s m near path inv =
            elim (Bool-cases (str_eq edge.src current)) [
              | inr away ↦ rw away inv
              | inl from ↦ elim (Bool-cases (other_relation relation edge)) [
                | inl other ↦ rw (from, other) inv
                | inr same ↦ elim (Bool-cases (contains s.local_seen edge.dst)) [
                  | inl old ↦ rw (from, same, old) inv
                  | inr new ↦
                      rw (from, same, new)
                        (reach-Inv current hop edge s m ((str_eq_iff edge.src current).0 from) same
                          near path inv)
                ]
              ]
            ]

        visit_edges-Inv :
            (current : String) (hop : ℕ) (edges : List EdgeRecord) (s : Expansion p.F32)
            → ((e : EdgeRecord) → In e edges → In e ctx.edges)
            → hop < depth
            → PathTo ctx.edges relation origin.node_id hop current
            → Inv s
            → Inv (visit_edges by_id relation current hop edges s)
        unfolding visit_edges
        visit_edges-Inv current hop [] s sub near path inv = inv
        visit_edges-Inv current hop (edge ∷ edges) s sub near path inv =
            visit_edges-Inv current hop edges (visit_edge by_id relation current hop edge s)
              (λ e (m : In e edges). sub e (suc m.0, m.1)) near path
              (visit_edge-Inv current hop edge s (sub edge (0, refl)) near path inv)

        walk-Inv : (fuel : ℕ) (s : Expansion p.F32) → Inv s → Inv (walk ctx relation depth fuel s)
        unfolding walk visit
        walk-Inv zero s inv = inv
        walk-Inv (suc fuel) s (sound, every) = go (walk-Inv fuel) s.frontier every
          where
            go :
                ((s' : Expansion p.F32) → Inv s' → Inv (walk ctx relation depth fuel s'))
                → (f : List (String × ℕ)) → All Pending f
                → Inv (
                    pop_front f s
                      (λ c h s'. walk ctx relation depth fuel (visit ctx relation depth c h s')))
            go again [] every' = (sound, every)
            go again ((current, hop) ∷ rest) every' =
                again (visit ctx relation depth current hop (record s { frontier = rest }))
                  (elim (Bool-cases (leb depth hop)) [
                    | inl deep ↦ rw deep (sound, every'.1)
                    | inr near ↦ rw near (
                        visit_edges-Inv current hop ctx.edges (record s { frontier = rest })
                          (λ e m. m) (leb→gt depth hop near) every'.0.1 (sound, every'.1))
                  ])

      pub expand_seeds-Sound :
          (rest : List Row)
          → ((r : Row) → In r rest → In r seeds)
          → (s : Expansion p.F32) → Sound s.out s.emitted
          → Sound
              (expand_seeds ctx relation depth rest s).out
              (expand_seeds ctx relation depth rest s).emitted
      unfolding expand_seeds expand_seed
      expand_seeds-Sound [] sub s sound = sound
      expand_seeds-Sound (r ∷ rest) sub s sound =
          let from = sub r (0, refl) in
          expand_seeds-Sound rest (λ q (m : In q rest). sub q (suc m.0, m.1))
            (expand_seed ctx relation depth r s)
            (walk-Inv r from (walk_fuel ctx) (start_seed r s)
              (emit-Sound r s (IsReached.seed from) sound, ((omega arith, PathTo.start), tt))).0

      pub graph_expand_rows-Sound :
          (emitted : List String) × Sound (graph_expand_rows ctx seeds relation depth) emitted
      unfolding graph_expand_rows distinct
      graph_expand_rows-Sound =
          (_, expand_seeds-Sound seeds (λ r m. m) no_expansion ((λ k. refl), refl, tt))

      -- Graph expansion returns no id twice, and each row that it returns is a seed or the node of an
      -- id that a path of at most `depth` edges of the relation joins to a seed.
      pub graph_expand_rows-IsReached :
          (distinct (ids (graph_expand_rows ctx seeds relation depth)) ≡ true)
          × All (IsReached seeds) (graph_expand_rows ctx seeds relation depth)
      graph_expand_rows-IsReached =
          let (emitted, sound) = graph_expand_rows-Sound in (sound.1, sound.2)
