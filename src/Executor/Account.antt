-- ===== src/Executor/Account.antt =====
-- The rounds of the breadth-first loop against the account of the ids seen.
use mathlib.Core.Path.{subst}
use mmdb.Common.{
  ℕ, zero, suc, ◌+◌, ◌≤◌, ◌≡◌, refl, sym, ap, ◌∙◌, ◌⊎◌, inl, inr, Option, none, some, List, [], ◌∷◌,
  true, false, arith, String, In, All-In, Bool-cases, str_eq, str_eq_iff, str_cmp, leb, leb→le,
}
use mmdb.Common.BTreeMap
use mmdb.Common.Sorted.{Sorted}
use mmdb.Ir.{Platform}
use mmdb.Executor.{
  Context, Row, Expansion, EdgeRecord, contains, emit, emit_found, reach, visit_edge, visit_edges,
  visit, walk, pop_front, other_relation, node_by_id,
}
use mmdb.Executor.Walk.{emit_found_frontier, emit_found_seen}
use mmdb.Executor.NodeIds.{get-node_by_id}
use mmdb.Executor.Trace.{
  Entry, Hops, In-cons, seen_ids, In-of_contains, Follows, Processed, Extends, Open, push-Open,
}

module _ ⦃p : Platform⦄ (ctx : Context) (relation : Option String) (depth : ℕ) where
  abbrev pub by_id : List (String × Row)
  by_id = node_by_id ctx

  -- What was emitted stays so.
  abbrev pub Keeps : List String → List String → Type 0
  Keeps base emitted = (k : String) → contains base k ≡ true → contains emitted k ≡ true

  pub emit-Keeps : (r : Row) (s : Expansion p.F32) → Keeps s.emitted (emit r s).emitted
  unfolding emit
  emit-Keeps r s k h = ground (arith, h)

  emit_found-Keeps :
      (r : Option Row) (s : Expansion p.F32) → Keeps s.emitted (emit_found r s).emitted
  emit_found-Keeps none s k h = h
  emit_found-Keeps (some r) s k h = emit-Keeps r s k h

  pub contains-emit : (r : Row) (s : Expansion p.F32) → contains (emit r s).emitted r.node_id ≡ true
  unfolding emit
  contains-emit r s =
      let self : str_eq r.node_id r.node_id ≡ true = (str_eq_iff r.node_id r.node_id).1 refl in
      elim (Bool-cases (contains s.emitted r.node_id)) [
        | inl old ↦ rw old old
        | inr new ↦ rw new (rw self refl)
      ]

  -- The nodes of the ids seen are emitted.
  abbrev pub Shown : List String → List Entry → Type 0
  Shown emitted trace =
      (q : Entry)
      → In q trace
      → (r : Row) → BTreeMap.get str_cmp q.0 by_id ≡ some r
      → contains emitted q.0 ≡ true

  module _ (base : List String) where
    abbrev Account : Expansion p.F32 → List Entry → Entry → Type 0
    Account s trace here =
        Open ctx relation depth s.frontier s.local_seen trace here
        × Shown s.emitted trace
        × Keeps base s.emitted

    abbrev Visited : Expansion p.F32 → List Entry → Entry → List EdgeRecord → Type 0
    Visited s trace here edges =
        (trace' : List Entry) × Account s trace' here
        × Extends ctx relation depth trace trace'
        × Follows ctx relation depth trace' edges here

    reach-Visited :
        (here : Entry) (edge : EdgeRecord) (s : Expansion p.F32) (trace : List Entry)
        → Account s trace here
        → Visited (reach by_id here.1 edge s) trace here (edge ∷ [])
    unfolding reach
    reach-Visited here edge s trace (acct, shown, keeps) =
        let seen : Expansion p.F32 = record s { local_seen = edge.dst ∷ s.local_seen } in
        let found = BTreeMap.get str_cmp edge.dst by_id in
        (
          (edge.dst, here.1 + 1) ∷ trace,
          (
            rw (emit_found_frontier found seen, emit_found_seen found seen)
                (push-Open ctx relation depth s.frontier s.local_seen trace here edge.dst acct),
            shown',
            λ k h. emit_found-Keeps found seen k (keeps k h),
          ),
          (λ q m. In-cons q (edge.dst, here.1 + 1) trace m),
          follows,
        )
      where
        shown' :
            Shown
              (emit_found
                (BTreeMap.get str_cmp edge.dst by_id)
                (record s { local_seen = edge.dst ∷ s.local_seen })).emitted
              ((edge.dst, here.1 + 1) ∷ trace)
        shown' q (suc t, e) r at = emit_found-Keeps _ _ q.0 (shown q (t, e) r at)
        shown' q (zero, e) r at =
            let same : (edge.dst, here.1 + 1) ≡ q = cc in
            let id_is : edge.dst ≡ q.0 = ap (λ (x : Entry). x.0) same in
            let at' : BTreeMap.get str_cmp edge.dst by_id ≡ some r =
              ap (λ i. BTreeMap.get str_cmp i by_id) id_is ∙ at in
            let own : r.node_id ≡ q.0 = get-node_by_id ctx edge.dst r at' ∙ id_is in
            subst
              (λ x.
                contains (emit_found x (record s { local_seen = edge.dst ∷ s.local_seen })).emitted
                  q.0
                ≡ true)
              (sym at')
              (subst
                (λ i.
                  contains (emit r (record s { local_seen = edge.dst ∷ s.local_seen })).emitted i
                  ≡ true)
                own (contains-emit r (record s { local_seen = edge.dst ∷ s.local_seen })))

        follows : Follows ctx relation depth ((edge.dst, here.1 + 1) ∷ trace) (edge ∷ []) here
        follows e (zero, at) from rel =
            let same : edge ≡ e = cc in
            (
              here.1 + 1,
              omega arith,
              (0, ap some (ap (λ (x : EdgeRecord). (x.dst, here.1 + 1)) same)),
            )
        follows e (suc t, at) from rel = cc

    visit_edge-Visited :
        (here : Entry) (edge : EdgeRecord) (s : Expansion p.F32) (trace : List Entry)
        → Account s trace here
        → Visited (visit_edge by_id relation here.0 here.1 edge s) trace here (edge ∷ [])
    unfolding visit_edge
    visit_edge-Visited here edge s trace acc = elim (Bool-cases (str_eq edge.src here.0)) [
      | inr away ↦ rw away (trace, acc, (λ q m. m), skip_away away)
      | inl from ↦ elim (Bool-cases (other_relation relation edge)) [
        | inl other ↦ rw (from, other) (trace, acc, (λ q m. m), skip_other other)
        | inr same ↦ elim (Bool-cases (contains s.local_seen edge.dst)) [
          | inl old ↦ rw (from, same, old) (trace, acc, (λ q m. m), skip_old old)
          | inr new ↦ rw (from, same, new) (reach-Visited here edge s trace acc)
        ]
      ]
    ]
      where
        skip_away :
            str_eq edge.src here.0 ≡ false → Follows ctx relation depth trace (edge ∷ []) here
        skip_away away e (zero, at) from rel =
            let same : edge ≡ e = cc in
            let equal =
              (str_eq_iff edge.src here.0).1 (ap (λ (x : EdgeRecord). x.src) same ∙ from) in
            cc
        skip_away away e (suc t, at) from rel = cc

        skip_other :
            other_relation relation edge ≡ true → Follows ctx relation depth trace (edge ∷ []) here
        skip_other other e (zero, at) from rel =
            let same : edge ≡ e = cc in
            let rel' : other_relation relation edge ≡ false =
              ap (other_relation relation) same ∙ rel in
            cc
        skip_other other e (suc t, at) from rel = cc

        skip_old :
            contains s.local_seen edge.dst ≡ true
            → Follows ctx relation depth trace (edge ∷ []) here
        skip_old old e (zero, at) from rel =
            let same : edge ≡ e = cc in
            let acct = acc.0 in
            let (k, m) =
              In-of_contains trace edge.dst
                (subst (λ l. contains l edge.dst ≡ true) acct.seen old) in
            (k, acct.near (edge.dst, k) m, subst (λ (x : EdgeRecord). In (x.dst, k) trace) same m)
        skip_old old e (suc t, at) from rel = cc

    visit_edges-Visited :
        (here : Entry) (edges : List EdgeRecord) (s : Expansion p.F32) (trace : List Entry)
        → Account s trace here
        → Visited (visit_edges by_id relation here.0 here.1 edges s) trace here edges
    unfolding visit_edges
    visit_edges-Visited here [] s trace acc = (trace, acc, (λ q m. m), λ e m from rel. cc)
    visit_edges-Visited here (edge ∷ edges) s trace acc =
        let (trace', acc', more, first_seen) = visit_edge-Visited here edge s trace acc in
        let (trace'', acc'', more', rest_seen) =
          visit_edges-Visited here edges (visit_edge by_id relation here.0 here.1 edge s) trace'
            acc' in
        (
          trace'',
          acc'',
          (λ q m. more' q (more q m)),
          both trace' trace'' more' first_seen rest_seen,
        )
      where
        both :
            (trace' trace'' : List Entry)
            → Extends ctx relation depth trace' trace''
            → Follows ctx relation depth trace' (edge ∷ []) here
            → Follows ctx relation depth trace'' edges here
            → Follows ctx relation depth trace'' (edge ∷ edges) here
        both trace' trace'' more first_seen rest_seen e (zero, at) from rel =
            let (k, le, m) = first_seen e (0, at) from rel in (k, le, more (e.dst, k) m)
        both trace' trace'' more first_seen rest_seen e (suc t, at) from rel =
            rest_seen e (t, at) from rel

    -- The account between two rounds.
    pub record Closed (frontier : List Entry) (local_seen : List String) (trace : List Entry)
        : Type 0 where
      pub seen : local_seen ≡ seen_ids trace
      pub queued : (q : Entry) → In q frontier → In q trace
      pub settled : (q : Entry) → In q trace → In q frontier ⊎ Processed ctx relation depth trace q
      pub sorted : Sorted Hops frontier
      pub near : (q z : Entry) → In q trace → In z frontier → q.1 ≤ z.1 + 1

    Open-front :
        (here : Entry) (rest : List Entry) (local_seen : List String) (trace : List Entry)
        → Closed (here ∷ rest) local_seen trace
        → Open ctx relation depth rest local_seen trace here
    Open-front here rest local_seen trace c = record {
      seen = c.seen;
      queued = λ q m. c.queued q (In-cons q here rest m);
      settled = settle;
      sorted = c.sorted.1;
      later = λ q m. All-In (Hops here) rest c.sorted.0 q m;
      near = λ q m. c.near q here m (0, refl);
    }
      where
        settle :
            (q : Entry)
            → In q trace
            → (q ≡ here) ⊎ (In q rest ⊎ Processed ctx relation depth trace q)
        settle q m = elim (c.settled q m) [
          | inl waiting ↦ split waiting
          | inr done ↦ inr (inr done)
        ]
          where
            split :
                In q (here ∷ rest) → (q ≡ here) ⊎ (In q rest ⊎ Processed ctx relation depth trace q)
            split (zero, e) = let same : here ≡ q = cc in inl (sym same)
            split (suc t, e) = inr (inl (t, e))

    Closed-round :
        (here : Entry) (frontier : List Entry) (local_seen : List String) (trace : List Entry)
        → Open ctx relation depth frontier local_seen trace here
        → Processed ctx relation depth trace here
        → Closed frontier local_seen trace
    Closed-round here frontier local_seen trace o processed = record {
      seen = o.seen;
      queued = o.queued;
      settled = λ q m. elim (o.settled q m) [
        | inl same ↦ inr (subst (Processed ctx relation depth trace) (sym same) processed)
        | inr other ↦ other
      ];
      sorted = o.sorted;
      near = λ q z m w. omega (arith, o.near q m, o.later z w);
    }

    abbrev pub Settled : Expansion p.F32 → List Entry → Type 0
    Settled s trace =
        Closed s.frontier s.local_seen trace × Shown s.emitted trace × Keeps base s.emitted

    abbrev pub Continues : Expansion p.F32 → List Entry → Type 0
    Continues s trace =
        (trace' : List Entry) × Settled s trace' × Extends ctx relation depth trace trace'

    visit-Continues :
        (here : Entry) (s : Expansion p.F32) (trace : List Entry)
        → Account s trace here
        → Continues (visit ctx relation depth here.0 here.1 s) trace
    unfolding visit
    visit-Continues here s trace acc = elim (Bool-cases (leb depth here.1)) [
      | inl deep ↦ rw deep (
        trace,
        (
          Closed-round here s.frontier s.local_seen trace acc.0 (inl (leb→le depth here.1 deep)),
          acc.1,
          acc.2,
        ),
        λ q m. m,
      )
      | inr near ↦
          let (trace', (acct', shown', keeps'), more, all_seen) =
            visit_edges-Visited here ctx.edges s trace acc in
          rw near
            (trace', (Closed-round here _ _ trace' acct' (inr all_seen), shown', keeps'), more)
    ]

    pub walk-Continues :
        (fuel : ℕ) (s : Expansion p.F32) (trace : List Entry)
        → Settled s trace
        → Continues (walk ctx relation depth fuel s) trace
    unfolding walk
    walk-Continues zero s trace h = (trace, h, λ q m. m)
    walk-Continues (suc fuel) s trace (closed, shown, keeps) =
        go (walk-Continues fuel) s.frontier closed
      where
        go :
            ((s' : Expansion p.F32) (trace' : List Entry)
              → Settled s' trace'
              → Continues (walk ctx relation depth fuel s') trace')
            → (f : List Entry) → Closed f s.local_seen trace
            → Continues
                (pop_front f s
                  (λ c h s'. walk ctx relation depth fuel (visit ctx relation depth c h s')))
                trace
        go again [] c = (trace, (closed, shown, keeps), λ q m. m)
        go again (here ∷ rest) c =
            let s' : Expansion p.F32 = record s { frontier = rest } in
            let (trace', settled, more) =
              visit-Continues here s' trace
                (Open-front here rest s.local_seen trace c, shown, keeps) in
            let (trace'', settled', more') =
              again (visit ctx relation depth here.0 here.1 s') trace' settled in
            (trace'', settled', λ q m. more' q (more q m))
