-- ===== src/Operator/Answer.antt =====
-- One call of `next_batch`: it never fails, never runs out of the fuel that `cost` counts, and
-- takes a non-empty batch off the front of the rows of the operator, until none is left.
use mathlib.Core.List.{map-append}
use mmdb.Common.{
  ℕ, zero, suc, ◌+◌, ◌*◌, ◌≤◌, ◌<◌, ◌≡◌, refl, sym, ap, ◌∙◌, ◌⊎◌, inl, inr, Option, List, [], ◌∷◌,
  ◌++◌, String, arith, filter, length, map, drop, take, length-map,
}
use mmdb.Ir.{Platform, Predicate, JoinKey}
use mmdb.Eval.{predicate_matches, project_records, project_record, sort_rows, aggregate_records}
use mmdb.Executor.{Context, Row, join_rows, passes, rescore, apply_udf, expand_rows}
use mmdb.Operator.{
  Materialized, Operator, Stage, JoinStage, Outcome, Next, Op, new_materialized, stream, block,
  block_join, serve, staged, staged_join, step, next_batch, drain, scan_answer, filter_answer,
  filter_loop,
}
use mmdb.Operator.Rows.{
  IsLive, IsLiveStage, IsLiveJoin, slice_rows, rows_of, stage_rows, cost, stage_cost,
  join_stage_cost,
}
use mmdb.Operator.Slice.{next_slice_lem, scan_loop_lem}
use mmdb.Operator.Loops.{Follows, Answers, drain_lem, filter_loop_lem}

module _ ⦃p : Platform⦄ (ctx : Context) where
  stage_cost_pos : (s : Stage p.F32) → 0 < stage_cost ctx s
  unfolding stage_cost
  stage_cost_pos (Stage.waiting op) = omega arith
  stage_cost_pos _ = omega arith

  join_stage_cost_pos : (s : JoinStage p.F32) → 0 < join_stage_cost ctx s
  unfolding join_stage_cost
  join_stage_cost_pos (JoinStage.both l r) = omega arith
  join_stage_cost_pos _ = omega arith

  cost_pos : (op : Op) → 0 < cost ctx op
  unfolding cost
  cost_pos (Operator.graph_expand s _ _ _) = stage_cost_pos s
  cost_pos (Operator.top_k s _ _ _) = stage_cost_pos s
  cost_pos (Operator.join s _ _) = join_stage_cost_pos s
  cost_pos (Operator.aggregate s _ _ _) = stage_cost_pos s
  cost_pos _ = omega arith

  -- A streaming operator answers like its input, batch by batch.
  module _ (f : List Row → List Row) (again : Op → Op)
      (f_append : (a b : List Row) → f (a ++ b) ≡ f a ++ f b) (f_nil : f [] ≡ [])
      (f_length : (a : List Row) → length (f a) ≡ length a)
      (rows_again : (i : Op) → rows_of ctx (again i) ≡ f (rows_of ctx i))
      (live_again : (i : Op) → IsLive i → IsLive (again i))
      (cost_again : (i : Op) → cost ctx (again i) ≡ suc (cost ctx i)) where
    stream_lem :
        (i : Op) (o : Outcome p.F32 (Option (List Row)))
        → Answers ctx i o
        → Answers ctx (again i) (stream f again o)
    unfolding stream
    stream_lem i o (inl (i', e, nothing, after, (live, le))) = inl (
      again i',
      rw (e, stream) refl,
      rows_again i ∙ ap f nothing ∙ f_nil,
      rows_again i' ∙ ap f after ∙ f_nil,
      (live_again i' live, omega (arith, cost_again i, cost_again i')),
    )
    stream_lem i o (inr (b, i', e, pos, split, (live, le))) = inr (
      f b,
      again i',
      rw (e, stream) refl,
      omega (arith, f_length b),
      rows_again i ∙ ap f split ∙ f_append b _ ∙ ap (◌++◌ (f b)) (sym (rows_again i')),
      (live_again i' live, omega (arith, cost_again i, cost_again i')),
    )

  -- A result that is there is served in slices.
  serve_lem :
      (again : Materialized p.F32 → Op)
      → ((m : Materialized p.F32) → rows_of ctx (again m) ≡ slice_rows m)
      → ((m : Materialized p.F32) → 0 < m.batch_size → IsLive (again m))
      → ((m : Materialized p.F32) → cost ctx (again m) ≡ 1)
      → (m : Materialized p.F32) → 0 < m.batch_size
      → Answers ctx (again m) (serve again m)
  serve_lem again rows live costs m pos = elim (next_slice_lem m pos) [
    | inl (e, nothing) ↦
        inl (again m, rw e refl, rows m ∙ nothing, rows m ∙ nothing, (live m pos, omega arith))
    | inr (b, m', e, len, split, pos') ↦ inr (
      b,
      again m',
      rw e refl,
      len,
      rows m ∙ split ∙ ap (◌++◌ b) (sym (rows m')),
      (live m' pos', omega (arith, costs m, costs m')),
    )
  ]

  -- The same answer for an operator that stands for the same rows, at a cost no lower.
  Answers-from :
      (op op' : Op) (o : Outcome p.F32 (Option (List Row)))
      → rows_of ctx op ≡ rows_of ctx op'
      → cost ctx op' ≤ cost ctx op
      → Answers ctx op' o
      → Answers ctx op o
  Answers-from op op' o rows le (inl (op'', e, nothing, after, (live, le'))) =
      inl (op'', e, rows ∙ nothing, after, (live, omega arith))
  Answers-from op op' o rows le (inr (b, op'', e, pos, split, (live, le'))) =
      inr (b, op'', e, pos, rows ∙ split, (live, omega arith))

  abbrev filtered : Op → Predicate p.F32 → List Row → List Row
  filtered input pred pending =
      pending ++ filter (λ r. predicate_matches r pred) (rows_of ctx input)

  -- What the filter answers when its loop has stopped.
  filter_answer_lem :
      (input : Op) (pred : Predicate p.F32) (pending : List Row) (n : ℕ) (rows pending' : List Row)
      (input' : Op)
      → 0 < n
      → filtered input pred pending ≡ rows ++ filtered input' pred pending'
      → Follows ctx input input'
      → length pending' + 2 * length (rows_of ctx input')
        ≤ length pending + 2 * length (rows_of ctx input)
      → (0 < length rows) ⊎ (filtered input' pred pending' ≡ [])
      → Answers ctx
          (Operator.filter input pred pending n)
          (filter_answer pred n rows pending' input')
  unfolding rows_of cost
  filter_answer_lem input pred pending n [] pending' input' pos split (live, le) less
        (inl some_row) =
      absurd (omega arith)
  filter_answer_lem input pred pending n [] pending' input' pos split (live, le) less
        (inr none_left) =
      inl (_, refl, split ∙ none_left, none_left, (IsLive.filtering live pos, omega arith))
  filter_answer_lem input pred pending n (r ∷ rows) pending' input' pos split (live, le) less stop =
      inr (r ∷ rows, _, refl, omega arith, split, (IsLive.filtering live pos, omega arith))

  -- A scan answers with what its loop has collected.
  scan_lem :
      (f : Option (Predicate p.F32)) (cursor n : ℕ) (rows : List Row) (cursor' : ℕ)
      → 0 < n
      → filter (passes f) (drop cursor ctx.nodes)
        ≡ rows ++ filter (passes f) (drop cursor' ctx.nodes)
      → (0 < length rows) ⊎ (drop cursor' ctx.nodes ≡ [])
      → Answers ctx (Operator.scan f cursor n) (scan_answer f n (rows, cursor'))
  unfolding rows_of cost
  scan_lem f cursor n [] cursor' pos split (inl some_row) = absurd (omega arith)
  scan_lem f cursor n [] cursor' pos split (inr none_left) =
      let nothing = ap (filter (passes f)) none_left in
      inl (_, refl, split ∙ nothing, nothing, (IsLive.scan pos, omega arith))
  scan_lem f cursor n (r ∷ rows) cursor' pos split stop =
      inr (r ∷ rows, _, refl, omega arith, split, (IsLive.scan pos, omega arith))

  module _ (next : Next p.F32) (c : ℕ)
      (answers : (op : Op) → IsLive op → cost ctx op ≤ c → Answers ctx op (next op)) where
    module _ (finish : List Row → List Row) (n : ℕ) (again : Stage p.F32 → Op)
        (rows_again : (s : Stage p.F32) → rows_of ctx (again s) ≡ stage_rows ctx s finish)
        (live_again : (s : Stage p.F32) → IsLiveStage s → IsLive (again s))
        (cost_again : (s : Stage p.F32) → cost ctx (again s) ≡ stage_cost ctx s) where
      ready_lem :
          (m : Materialized p.F32)
          → 0 < m.batch_size
          → Answers ctx (again (Stage.ready m)) (serve (λ m'. again (Stage.ready m')) m)
      unfolding stage_rows stage_cost
      ready_lem =
          serve_lem (λ m. again (Stage.ready m)) (λ m. rows_again (Stage.ready m))
            (λ m pos. live_again (Stage.ready m) (IsLiveStage.ready pos))
            (λ m. cost_again (Stage.ready m))

      -- A blocking operator: the first call drains the input, and each call serves a slice.
      staged_lem :
          (message : String) (s : Stage p.F32)
          → IsLiveStage s
          → stage_cost ctx s ≤ suc c
          → Answers ctx (again s) (staged (drain next c []) finish n again message s)
      unfolding staged block stage_rows stage_cost
      staged_lem message s (IsLiveStage.waiting {op} live) le =
          let m = new_materialized (finish (rows_of ctx op)) n in
          let (op', e) = drain_lem ctx next c answers c [] op live (omega arith) (omega arith) in
          rw (e, block)
            (Answers-from (again (Stage.waiting op)) (again (Stage.ready m)) _
              (rows_again (Stage.waiting op) ∙ sym (rows_again (Stage.ready m)))
              (omega (arith, cost_again (Stage.waiting op), cost_again (Stage.ready m)))
              (ready_lem m (omega arith)))
      staged_lem message s (IsLiveStage.ready {m} pos) le = ready_lem m pos

    module _ (on : JoinKey) (n : ℕ) where
      joined_lem :
          (m : Materialized p.F32)
          → 0 < m.batch_size
          → Answers ctx
              (Operator.join (JoinStage.joined m) on n)
              (serve (λ m'. Operator.join (JoinStage.joined m') on n) m)
      unfolding rows_of cost
      joined_lem =
          serve_lem (λ m. Operator.join (JoinStage.joined m) on n) (λ m. refl)
            (λ m pos. IsLive.join (IsLiveJoin.joined pos)) (λ m. refl)

      staged_join_lem :
          (s : JoinStage p.F32)
          → IsLiveJoin s
          → join_stage_cost ctx s ≤ suc c
          → Answers ctx (Operator.join s on n) (staged_join (drain next c []) on n s)
      unfolding staged_join block_join rows_of cost
      staged_join_lem s (IsLiveJoin.both {l} {r} live_l live_r) le =
          let m = new_materialized (join_rows (rows_of ctx l) (rows_of ctx r) on) n in
          let (_, el) = drain_lem ctx next c answers c [] l live_l (omega arith) (omega arith) in
          let (_, er) = drain_lem ctx next c answers c [] r live_r (omega arith) (omega arith) in
          rw (el, er, block_join)
            (Answers-from (Operator.join (JoinStage.both l r) on n)
              (Operator.join (JoinStage.joined m) on n) _ refl (omega arith)
              (joined_lem m (omega arith)))
      staged_join_lem s (IsLiveJoin.joined {m} pos) le = joined_lem m pos

    filter_lem :
        (input : Op) (pred : Predicate p.F32) (pending : List Row) (n : ℕ)
        → IsLive input
        → 0 < n
        → cost ctx (Operator.filter input pred pending n) ≤ suc c
        → Answers ctx
            (Operator.filter input pred pending n)
            (filter_loop next pred n c [] pending input)
    unfolding rows_of cost
    filter_lem input pred pending n live pos le =
        let (rows, pending', input', e, split, (live', le'), less, stop) =
          filter_loop_lem ctx next c answers pred n pos c [] pending input live (omega arith)
            (omega arith) in
        rw e (
          filter_answer_lem input pred pending n rows pending' input' pos split (live', le') less
            stop)

    -- One step of every operator, where its inputs answer.
    step_lem : (op : Op) → IsLive op → cost ctx op ≤ suc c → Answers ctx op (step ctx next c op)
    unfolding step rows_of cost project_records
    step_lem _ (IsLive.scan {f} {c = cursor} {n} pos) le =
        let (rows, cursor', e, split, stop) =
          scan_loop_lem f n ctx.nodes (drop cursor ctx.nodes) [] cursor refl pos in
        rw e (scan_lem f cursor n rows cursor' pos split stop)
    step_lem _ (IsLive.materialized {m} pos) le =
        serve_lem Operator.materialized (λ m. refl) (λ m. IsLive.materialized) (λ m. refl) m pos
    step_lem _ (IsLive.graph_expand {s} {rel} {d} {n} live) le =
        staged_lem (λ seeds. expand_rows ctx seeds rel d) n (λ s. Operator.graph_expand s rel d n)
          (λ s. refl) (λ s. IsLive.graph_expand) (λ s. refl) _ s live le
    step_lem _ (IsLive.filtering {op} {q} {pending} {n} live pos) le =
        filter_lem op q pending n live pos le
    step_lem _ (IsLive.score {op} {e} live) le =
        stream_lem (map (rescore e)) (λ i. Operator.score i e) (map-append (rescore e)) refl
          (λ a. length-map a (rescore e)) (λ i. refl) (λ i. IsLive.score) (λ i. omega arith) op
          (next op) (answers op live (omega arith))
    step_lem _ (IsLive.top_k {s} {k} {by} {n} live) le =
        staged_lem (λ rows. take k (sort_rows by rows)) n (λ s. Operator.top_k s k by n) (λ s. refl)
          (λ s. IsLive.top_k) (λ s. refl) _ s live le
    step_lem _ (IsLive.join {s} {on} {n} live) le = staged_join_lem on n s live le
    step_lem _ (IsLive.aggregate {s} {g} {a} {n} live) le =
        staged_lem (λ rows. aggregate_records rows g a) n (λ s. Operator.aggregate s g a n)
          (λ s. refl) (λ s. IsLive.aggregate) (λ s. refl) _ s live le
    step_lem _ (IsLive.project {op} {fs} live) le =
        stream_lem (λ rows. project_records rows fs) (λ i. Operator.project i fs)
          (map-append (project_record fs)) refl (λ a. length-map a (project_record fs)) (λ i. refl)
          (λ i. IsLive.project) (λ i. omega arith) op (next op) (answers op live (omega arith))
    step_lem _ (IsLive.udf {op} {f} {args} live) le =
        stream_lem (map (apply_udf f args)) (λ i. Operator.udf i f args)
          (map-append (apply_udf f args)) refl (λ a. length-map a (apply_udf f args)) (λ i. refl)
          (λ i. IsLive.udf) (λ i. omega arith) op (next op) (answers op live (omega arith))

  -- `next_batch` of any live operator, on enough fuel.
  pub next_batch_lem :
      (n : ℕ) (op : Op) → IsLive op → cost ctx op ≤ n → Answers ctx op (next_batch ctx n op)
  unfolding next_batch
  next_batch_lem zero op live le = absurd (omega (arith, cost_pos op))
  next_batch_lem (suc n) op live le = step_lem (next_batch ctx n) n (next_batch_lem n) op live le
