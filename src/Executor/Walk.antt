-- ===== src/Executor/Walk.antt =====
-- The loop of `graph_expand_rows`: its fuel is enough, since every round takes an entry from the
-- frontier and every entry added uses up an edge whose end was new.
use mmdb.Common.{
  ℕ, zero, suc, ◌+◌, ◌≤◌, ◌≡◌, refl, ap, inl, inr, Option, none, some, List, [], ◌∷◌, true, false,
  arith, String, length, length-append, In, Bool-cases, str_eq, str_eq_iff, str_cmp, if◌then◌else◌,
  leb,
}
use mmdb.Common.BTreeMap
use mmdb.Ir.{Platform}
use mmdb.Executor.{
  Context, Row, Expansion, EdgeRecord, contains, emit, emit_found, reach, visit_edge, visit_edges,
  visit, walk, pop_front, walk_fuel, start_seed, node_by_id,
}

-- The edges whose end is not seen yet.
unfoldable unseen : List String → List EdgeRecord → ℕ
unseen seen [] = 0
unseen seen (e ∷ es) = let rest = unseen seen es in if contains seen e.dst then rest else suc rest

unseen_mono :
    (seen : List String) (d : String) (es : List EdgeRecord) → unseen (d ∷ seen) es ≤ unseen seen es
unfolding unseen
unseen_mono seen d [] = omega arith
unseen_mono seen d (e ∷ es) = ground (arith, unseen_mono seen d es)

unseen_less :
    (seen : List String) (e : EdgeRecord) (es : List EdgeRecord)
    → In e es
    → contains seen e.dst ≡ false
    → suc (unseen (e.dst ∷ seen) es) ≤ unseen seen es
unfolding unseen
unseen_less seen e [] (t, at) new = cc
unseen_less seen e (e' ∷ es) (zero, at) new =
    let same : e' ≡ e = cc in
    let same_dst : e'.dst ≡ e.dst = ap (λ (x : EdgeRecord). x.dst) same in
    let self : str_eq e.dst e.dst ≡ true = (str_eq_iff e.dst e.dst).1 refl in
    rw (same_dst, new, self) (ground (arith, unseen_mono seen e.dst es))
unseen_less seen e (e' ∷ es) (suc t, at) new = ground (arith, unseen_less seen e es (t, at) new)

unseen_all : (seen : List String) (es : List EdgeRecord) → unseen seen es ≤ length es
unfolding unseen
unseen_all seen [] = omega arith
unseen_all seen (e ∷ es) = ground (arith, unseen_all seen es)

length-zero {ℓ} : {A : Type ℓ} (xs : List A) → length xs ≤ 0 → xs ≡ []
length-zero [] h = refl
length-zero (x ∷ xs) h = absurd (omega (arith, h))

module _ ⦃p : Platform⦄ where
  pub emit_found_frontier :
      (r : Option Row) (s : Expansion p.F32) → (emit_found r s).frontier ≡ s.frontier
  unfolding emit
  emit_found_frontier none s = refl
  emit_found_frontier (some r) s = ground arith

  pub emit_found_seen :
      (r : Option Row) (s : Expansion p.F32) → (emit_found r s).local_seen ≡ s.local_seen
  unfolding emit
  emit_found_seen none s = refl
  emit_found_seen (some r) s = ground arith

module _ ⦃p : Platform⦄ (ctx : Context) (relation : Option String) (depth : ℕ) where
  -- The rounds that the loop can still take.
  abbrev pending : Expansion p.F32 → ℕ
  pending s = length s.frontier + unseen s.local_seen ctx.edges

  abbrev by_id : List (String × Row)
  by_id = node_by_id ctx

  pending-reach :
      (hop : ℕ) (edge : EdgeRecord) (s : Expansion p.F32)
      → In edge ctx.edges
      → contains s.local_seen edge.dst ≡ false
      → pending (reach by_id hop edge s) ≤ pending s
  unfolding reach
  pending-reach hop edge s m new =
      let found = BTreeMap.get str_cmp edge.dst by_id in
      let seen : Expansion p.F32 = record s { local_seen = edge.dst ∷ s.local_seen } in
      rw
        (
          emit_found_frontier found seen,
          emit_found_seen found seen,
          length-append s.frontier ((edge.dst, hop + 1) ∷ []),
        )
        (omega (arith, unseen_less s.local_seen edge ctx.edges m new))

  pending-visit_edge :
      (current : String) (hop : ℕ) (edge : EdgeRecord) (s : Expansion p.F32)
      → In edge ctx.edges
      → pending (visit_edge by_id relation current hop edge s) ≤ pending s
  unfolding visit_edge
  pending-visit_edge current hop edge s m = elim (Bool-cases (contains s.local_seen edge.dst)) [
    | inl old ↦ ground arith
    | inr new ↦ let less = pending-reach hop edge s m new in ground arith
  ]

  pending-visit_edges :
      (current : String) (hop : ℕ) (edges : List EdgeRecord) (s : Expansion p.F32)
      → ((e : EdgeRecord) → In e edges → In e ctx.edges)
      → pending (visit_edges by_id relation current hop edges s) ≤ pending s
  unfolding visit_edges
  pending-visit_edges current hop [] s sub = omega arith
  pending-visit_edges current hop (edge ∷ edges) s sub =
      let here = pending-visit_edge current hop edge s (sub edge (0, refl)) in
      let later =
        pending-visit_edges current hop edges (visit_edge by_id relation current hop edge s)
          (λ e (m : In e edges). sub e (suc m.0, m.1)) in
      omega (arith, here, later)

  pending-visit :
      (current : String) (hop : ℕ) (s : Expansion p.F32)
      → pending (visit ctx relation depth current hop s) ≤ pending s
  unfolding visit
  pending-visit current hop s = elim (Bool-cases (leb depth hop)) [
    | inl deep ↦ rw deep (omega arith)
    | inr near ↦ rw near (pending-visit_edges current hop ctx.edges s (λ e m. m))
  ]

  walk_ends :
      (fuel : ℕ) (s : Expansion p.F32)
      → pending s ≤ fuel
      → (walk ctx relation depth fuel s).frontier ≡ []
  unfolding walk
  walk_ends zero s le = length-zero s.frontier (omega (arith, le))
  walk_ends (suc fuel) s le = go (walk_ends fuel) s.frontier refl
    where
      go :
          ((s' : Expansion p.F32)
            → pending s' ≤ fuel
            → (walk ctx relation depth fuel s').frontier ≡ [])
          → (f : List (String × ℕ)) → s.frontier ≡ f
          → (pop_front f s
              (λ c h s'. walk ctx relation depth fuel (visit ctx relation depth c h s'))).frontier
            ≡ []
      go again [] e = e
      go again ((current, hop) ∷ rest) e =
          again _ (
            omega
              (arith, pending-visit current hop (record s { frontier = rest }), le, ap length e))

  -- The loop over one seed ends with an empty frontier on the fuel that it is given: no entry is left
  -- unvisited.
  pub frontier-expand_seed :
      (seed : Row) (s : Expansion p.F32)
      → (walk ctx relation depth (walk_fuel ctx) (start_seed seed s)).frontier ≡ []
  frontier-expand_seed seed s =
      walk_ends (walk_fuel ctx) (start_seed seed s)
        (omega (arith, unseen_all (seed.node_id ∷ []) ctx.edges))
