-- ===== src/Operator/Loops.antt =====
-- The two loops that call the input: `materialize_operator`, and the one of the filter.
use mathlib.Core.List.{append_assoc, append-nil}
use mmdb.Common.{
  ℕ, zero, suc, ◌+◌, ◌*◌, ◌≤◌, ◌<◌, ◌≡◌, refl, sym, ap, ◌∙◌, ◌⊎◌, inl, inr, Option, none, some,
  List, [], ◌∷◌, ◌++◌, arith, filter, length, ltb, Bool-cases, length-append, ltb→ge, ltb→lt,
  filter-append,
}
use mmdb.Errors.{ok}
use mmdb.Ir.{Platform, Predicate}
use mmdb.Eval.{predicate_matches}
use mmdb.Executor.{Context, Row}
use mmdb.Operator.{Outcome, done, Next, Op, distribute, filter_loop, filter_answer, drain}
use mmdb.Operator.Rows.{IsLive, rows_of, cost}

module _ ⦃p : Platform⦄ (ctx : Context) where
  -- The operator after a call is live and needs no more fuel than before.
  abbrev pub Follows : Op → Op → Type 0
  Follows op op' = IsLive op' × (cost ctx op' ≤ cost ctx op)

  -- The call ends the result: nothing was left.
  abbrev pub Ends : Op → Outcome p.F32 (Option (List Row)) → Type 0
  Ends op o =
      (op' : Op) × (o ≡ done (ok none) op')
      × (rows_of ctx op ≡ [])
      × (rows_of ctx op' ≡ [])
      × Follows op op'

  -- The call takes a non-empty batch off the front of what was left.
  abbrev pub Yields : Op → Outcome p.F32 (Option (List Row)) → Type 0
  Yields op o =
      (b : List Row) × (op' : Op) × (o ≡ done (ok (some b)) op')
      × (0 < length b)
      × (rows_of ctx op ≡ b ++ rows_of ctx op')
      × Follows op op'

  abbrev pub Answers : Op → Outcome p.F32 (Option (List Row)) → Type 0
  Answers op o = Ends op o ⊎ Yields op o

  module _ (next : Next p.F32) (c : ℕ)
      (answers : (op : Op) → IsLive op → cost ctx op ≤ c → Answers op (next op)) where
    -- Draining collects the rows of the operator.
    pub drain_lem :
        (fuel : ℕ) (rows : List Row) (op : Op)
        → IsLive op
        → cost ctx op ≤ c
        → length (rows_of ctx op) < fuel
        → (op' : Op) × (drain next fuel rows op ≡ done (ok (rows ++ rows_of ctx op)) op')
    unfolding drain
    drain_lem zero rows op live le lt = absurd (omega arith)
    drain_lem (suc fuel) rows op live le lt = elim (answers op live le) [
      | inl (op', e, nothing, _, _) ↦ (
        op',
        rw (e, drain)
            (ap (λ r. done (ok r) op') (sym (append-nil rows) ∙ ap (◌++◌ rows) (sym nothing))),
      )
      | inr (b, op', e, pos, split, (live', le')) ↦
          let (op'', e') =
            drain_lem fuel (rows ++ b) op' live' (omega arith)
              (omega (arith, ap length split, length-append b (rows_of ctx op'))) in
          (
            op'',
            rw (e, drain)
                (e'
                  ∙ ap (λ r. done (ok r) op'')
                      (append_assoc rows b _ ∙ ap (◌++◌ rows) (sym split))),
          )
    ]

    module _ (pred : Predicate p.F32) (n : ℕ) (pos_n : 0 < n) where
      abbrev matching : List Row → List Row
      matching = filter (λ r. predicate_matches r pred)

      -- A batch is shared out in its order: rows are pending only once the batch is full.
      distribute_lem :
          (batch rows pending : List Row)
          → (pending ≡ []) ⊎ (n ≤ length rows)
          → let parts = distribute pred n batch rows pending in
            (parts.0 ++ parts.1 ≡ rows ++ (pending ++ matching batch))
            × (length parts.1 ≤ length pending + length batch)
      unfolding distribute
      distribute_lem [] rows pending h = (rw append-nil refl, omega arith)
      distribute_lem (r ∷ batch) rows pending h = elim (Bool-cases (predicate_matches r pred)) [
        | inr f ↦
            let (e, l) = distribute_lem batch rows pending h in
            (rw (f, distribute) e, rw (f, distribute) (omega arith))
        | inl t ↦ elim (Bool-cases (ltb (length rows) n)) [
          | inr full ↦
              let (e, l) =
                distribute_lem batch rows (pending ++ r ∷ []) (inr (ltb→ge (length rows) n full)) in
              (
                rw (t, full, distribute)
                    (e ∙ ap (◌++◌ rows) (append_assoc pending (r ∷ []) (matching batch))),
                rw (t, full, distribute) (omega (arith, length-append pending (r ∷ []))),
              )
          | inl room ↦
              let empty : pending ≡ [] = elim h [
                | inl empty ↦ empty
                | inr ge ↦ absurd (omega (arith, ltb→lt (length rows) n room))
              ] in
              let (e, l) = distribute_lem batch (rows ++ r ∷ []) pending (inl empty) in
              (
                rw (t, room, distribute) (e ∙ append_assoc rows (r ∷ []) _ ∙ rw empty refl),
                rw (t, room, distribute) (omega arith),
              )
        ]
      ]

      abbrev FilterLoop : ℕ → List Row → List Row → Op → Type 0
      FilterLoop fuel rows pending input =
          (rows' : List Row) × (pending' : List Row) × (input' : Op) × (filter_loop next pred n fuel
              rows pending input
            ≡ filter_answer pred n rows' pending' input')
          × (rows ++ (pending ++ matching (rows_of ctx input))
              ≡ rows' ++ (pending' ++ matching (rows_of ctx input')))
          × Follows input input'
          × (length pending' + 2 * length (rows_of ctx input')
              ≤ length pending + 2 * length (rows_of ctx input))
          × ((0 < length rows') ⊎ ((pending' ++ matching (rows_of ctx input') ≡ [])))

      pub filter_loop_lem :
          (fuel : ℕ) (rows pending : List Row) (input : Op)
          → IsLive input
          → cost ctx input ≤ c
          → length pending + 2 * length (rows_of ctx input) < fuel
          → FilterLoop fuel rows pending input
      unfolding filter_loop
      filter_loop_lem zero rows pending input live le lt = absurd (omega arith)
      filter_loop_lem (suc fuel) rows (r ∷ pending) input live le lt =
          elim (Bool-cases (ltb (length rows) n)) [
            | inr full ↦ (
              rows,
              r ∷ pending,
              input,
              rw (full, filter_loop) refl,
              refl,
              (live, omega arith),
              omega arith,
              inl (omega (arith, ltb→ge (length rows) n full)),
            )
            | inl room ↦
                let (rows', pending', input', e, split, follows, less, stop) =
                  filter_loop_lem fuel (rows ++ r ∷ []) pending input live le (omega arith) in
                (
                  rows',
                  pending',
                  input',
                  rw (room, filter_loop) e,
                  sym (append_assoc rows (r ∷ []) _) ∙ split,
                  follows,
                  omega arith,
                  stop,
                )
          ]
      filter_loop_lem (suc fuel) rows [] input live le lt =
          elim (Bool-cases (ltb (length rows) n)) [
            | inr full ↦ (
              rows,
              [],
              input,
              rw (full, filter_loop) refl,
              refl,
              (live, omega arith),
              omega arith,
              inl (omega (arith, ltb→ge (length rows) n full)),
            )
            | inl room ↦ elim (answers input live le) [
              | inl (input', e, nothing, after, follows) ↦ (
                rows,
                [],
                input',
                rw (room, filter_loop) (rw (e, filter_loop) refl),
                ap (λ l. rows ++ matching l) (nothing ∙ sym after),
                follows,
                omega (arith, ap length nothing, ap length after),
                inr (ap matching after),
              )
              | inr (b, input', e, pos, split, (live', le')) ↦
                  let parts = distribute pred n b rows [] in
                  let (shared, few) = distribute_lem b rows [] (inl refl) in
                  let (rows', pending', input'', e', split', (live'', le''), less, stop) =
                    filter_loop_lem fuel parts.0 parts.1 input' live' (omega arith)
                      (omega (arith, ap length split, length-append b (rows_of ctx input'))) in
                  (
                    rows',
                    pending',
                    input'',
                    rw (room, filter_loop) (rw (e, filter_loop) e'),
                    rw (split, filter-append)
                          (sym (append_assoc rows (matching b) _)
                            ∙ ap (λ l. l ++ matching (rows_of ctx input')) (sym shared)
                            ∙ append_assoc parts.0 parts.1 _)
                        ∙ split',
                    (live'', omega arith),
                    omega (arith, ap length split, length-append b (rows_of ctx input')),
                    stop,
                  )
            ]
          ]
