-- ===== src/Operator/Slice.antt =====
-- The batches of a materialized result and of a scan, against the rows that they stand for.
use mathlib.Core.List.{append_assoc}
use mmdb.Common.{
  ℕ, suc, ◌+◌, ◌-◌, ◌<◌, ◌≡◌, refl, sym, ap, ◌∙◌, ◌⊎◌, inl, inr, Option, none, some, List, [], ◌∷◌,
  ◌++◌, arith, filter, take, drop, length, leb, ltb, min, Bool-cases, take-append-drop, length-take,
  length-drop, drop-drop, drop_of_length-le, drop-cons, leb→le, leb→gt, ltb→ge,
}
use mmdb.Ir.{Platform, Predicate}
use mmdb.Executor.{Row, passes}
use mmdb.Operator.{Materialized, next_slice, scan_loop}
use mmdb.Operator.Rows.{slice_rows}

module _ ⦃p : Platform⦄ where
  -- `next_batch` of a materialized result ends at the last row, and else takes a non-empty batch
  -- off the front of what is left.
  pub next_slice_lem :
      (m : Materialized p.F32)
      → 0 < m.batch_size
      → ((next_slice m ≡ (none, m)) × (slice_rows m ≡ []))
        ⊎ ((b : List Row) × (m' : Materialized p.F32) × (next_slice m ≡ (some b, m'))
            × (0 < length b)
            × (slice_rows m ≡ b ++ slice_rows m')
            × (0 < m'.batch_size))
  unfolding next_slice
  next_slice_lem m h = elim (Bool-cases (leb (length m.rows) m.cursor)) [
    | inl end ↦ inl (rw end, drop_of_length-le m.cursor m.rows (leb→le _ _ end))
    | inr more ↦
        let lt = leb→gt (length m.rows) m.cursor more in
        let stop = min (m.cursor + m.batch_size) (length m.rows) in
        let left = drop m.cursor m.rows in
        let n = stop - m.cursor in
        inr (
          take n left,
          record m { cursor = stop },
          rw more,
          omega (arith, length-take n left, length-drop m.cursor m.rows),
          sym (take-append-drop n left)
              ∙ ap (◌++◌ (take n left))
                  (drop-drop n m.cursor m.rows ∙ ap (λ k. drop k m.rows) (omega arith)),
          h,
        )
  ]

  -- The scan loop moves the rows that pass to its batch, in their order, and keeps the cursor at
  -- the first node that it has not read. An empty batch means that none was left.
  pub scan_loop_lem :
      (f : Option (Predicate p.F32)) (n : ℕ) (nodes rest rows : List Row) (cursor : ℕ)
      → drop cursor nodes ≡ rest
      → 0 < n
      → (rows' : List Row) × (cursor' : ℕ) × (scan_loop f n rest rows cursor ≡ (rows', cursor'))
        × (rows ++ filter (passes f) rest ≡ rows' ++ filter (passes f) (drop cursor' nodes))
        × ((0 < length rows') ⊎ (drop cursor' nodes ≡ []))
  unfolding scan_loop
  scan_loop_lem f n nodes [] rows cursor at pos = (rows, cursor, refl, rw at refl, inr at)
  scan_loop_lem f n nodes (r ∷ rest) rows cursor at pos = elim (Bool-cases (ltb (length rows) n)) [
    | inr full ↦
        (rows, cursor, rw full, rw at refl, inl (omega (arith, ltb→ge (length rows) n full)))
    | inl room ↦ elim (Bool-cases (passes f r)) [
      | inl t ↦
          let (rows', cursor', e, split, stop) =
            scan_loop_lem f n nodes rest (rows ++ r ∷ []) (suc cursor) (drop-cons cursor nodes at)
              pos in
          (rows', cursor', rw (room, t) e, rw t (sym (append_assoc rows (r ∷ []) _) ∙ split), stop)
      | inr skip ↦
          let (rows', cursor', e, split, stop) =
            scan_loop_lem f n nodes rest rows (suc cursor) (drop-cons cursor nodes at) pos in
          (rows', cursor', rw (room, skip) e, rw skip split, stop)
    ]
  ]
